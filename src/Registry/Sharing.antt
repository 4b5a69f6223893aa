-- ===== src/Registry/Sharing.antt =====
-- Who has which cards: no sharing, what a submission takes, and that a failed one leaves no trace.
use looma.Base.Distinct.{contains-append, Distinct}
use looma.Base.Filter.{filter}
use looma.Base.Dict.{erase-insert_new, insert, Dict, lookup, erase}
use looma.Base.{
  eqb, if◌then◌else◌, Bool-cases, ok, contains, string_eq, nat_eq, All, length, take, drop,
  length-take, All-take, All-map_pred, ℕ, zero, suc, ◌<◌, String, ◌≡◌, refl, ap, ◌∙◌, ◌≢◌, inl, inr,
  Bool, false, not, ◌&&◌, ◌||◌, none, some, List, [], ◌∷◌, arith,
}
use looma.Base.Int.{ℤ, pos_part}
use looma.Registry.{
  discard, range, release_devices, is_free, begin, undo, taken, new_registry, free_devices,
  TaskRegistry,
}
use looma.Registry.Cards.{
  absent_symm, lookup-Distinct, free_devices-Distinct, free_devices-All, taken-lookup, Apart,
}
use looma.Registry.Submission.{discard-append, begin-ok, act_all-IsValid, Action, act_all}

Apart-lookup :
    (i j : String) (v w : List ℕ) (d : Dict String (List ℕ))
    → i ≢ j
    → Apart d
    → lookup i d ≡ some v
    → lookup j d ≡ some w
    → Distinct v × All (λ x. contains w x ≡ false) v
unfolding lookup
Apart-lookup i j v w [] ne a e f = cc
Apart-lookup i j v w ((k, u) ∷ d) ne (du, hu, a) e f = elim (string_eq.dec i k) [
  | yes mine ↦
      let own : u ≡ v = ground (arith, e, mine) in
      let other : lookup j d ≡ some w = ground (arith, f, mine, ne) in
      (rw (← own) du, rw (← own) (All-map_pred _ _ (λ x p. taken-lookup j w d x p other) u hu))
  | no not_mine ↦ elim (string_eq.dec j k) [
    | yes theirs ↦
        let own : u ≡ w = ground (arith, f, theirs) in
        let mine : lookup i d ≡ some v = ground (arith, e, not_mine) in
        (
          lookup-Distinct i v d a mine,
          rw (← own) (absent_symm u v (All-map_pred _ _ (λ x p. taken-lookup i v d x p mine) u hu)),
        )
    | no not_theirs ↦
        Apart-lookup i j v w d ne a (ground (arith, e, not_mine)) (ground (arith, f, not_theirs))
  ]
]

-- Whatever the calls and however they come between each other, from the start of the agent: in the
-- table of cards no card stands under two ids, and under none twice. The table is meant, not the
-- processes: a process that outlives its entry is not in it.
pub act_all-exclusive :
    (acts : List Action) (total : ℤ) (unusable i j : String) (v w : List ℕ)
    → let s = act_all acts (new_registry total unusable) in
      i ≢ j
      → lookup i s.held ≡ some v
      → lookup j s.held ≡ some w
      → Distinct v × All (λ x. contains w x ≡ false) v
unfolding new_registry
act_all-exclusive acts total unusable i j v w ne e f =
    let start = new_registry total unusable in
    let valid = act_all-IsValid acts start (record { apart = tt; once = tt }) in
    Apart-lookup i j v w (act_all acts start).held ne valid.apart e f

module _ {A : Type 0} where
  filter-cong : (p q : A → Bool) (xs : List A) → ((x : A) → p x ≡ q x) → filter p xs ≡ filter q xs
  unfolding filter
  filter-cong p q [] h = refl
  filter-cong p q (x ∷ xs) h = ground (arith, h x, filter-cong p q xs h)

  filter-filter :
      (p q : A → Bool) (xs : List A) → filter (λ x. p x && q x) xs ≡ filter q (filter p xs)
  unfolding filter
  filter-filter p q [] = refl
  filter-filter p q (x ∷ xs) = ground (arith, filter-filter p q xs)

without_first :
    (x : ℕ) (front xs : List ℕ)
    → contains xs x ≡ false
    → filter (λ d. not (contains (x ∷ front) d)) xs ≡ filter (λ d. not (contains front d)) xs
unfolding filter
without_first x front [] h = refl
without_first x front (y ∷ ys) h = ground (arith, h, without_first x front ys)

filter-true : (xs : List ℕ) → filter (λ d. not (contains [] d)) xs ≡ xs
unfolding filter
filter-true [] = refl
filter-true (x ∷ xs) = ap (λ ys. x ∷ ys) (filter-true xs)

filter-take :
    (n : ℕ) (xs : List ℕ) → Distinct xs → filter (λ d. not (contains (take n xs) d)) xs ≡ drop n xs
unfolding filter
filter-take zero xs d = filter-true xs
filter-take (suc n) [] d = refl
filter-take (suc n) (x ∷ xs) d =
    ground (arith, without_first x (take n xs) xs d.0, filter-take n xs d.1)

taken-insert_new :
    (k : String) (v : List ℕ) (d : Dict String (List ℕ)) (x : ℕ)
    → lookup k d ≡ none
    → contains (taken (insert k v d)) x ≡ (contains (taken d) x || contains v x)
unfolding taken insert lookup
taken-insert_new k v [] x h = ground (arith, contains-append v [] x)
taken-insert_new k v ((j, w) ∷ d) x h = ground (
  arith,
  h,
  contains-append w (taken d) x,
  contains-append w (taken (insert k v d)) x,
  taken-insert_new k v d x,
)

taken_more :
    (id : String) (n : ℕ) (s : TaskRegistry)
    → lookup id s.held ≡ none
    → filter (is_free (insert id (take n (free_devices s)) s.held)) (range 0 s.total_gpus)
      ≡ drop n (free_devices s)
unfolding free_devices
taken_more id n s new =
    let all = range 0 s.total_gpus in
    let given = take n (free_devices s) in
    filter-cong (is_free (insert id given s.held)) (λ d. is_free s.held d && not (contains given d))
      all (λ d. ground (arith, taken-insert_new id given s.held d new))
    ∙ filter-filter (is_free s.held) (λ d. not (contains given d)) all
    ∙ filter-take n (free_devices s) (free_devices-Distinct s)

-- What an accepted submission takes, under an id that holds no cards: the first free cards, as
-- many as it asked for, and exactly these are no longer free.
pub begin-free_devices :
    (can_run : Bool) (id : String) (gpus : ℤ) (s s' : TaskRegistry) (devices : List ℕ)
    → lookup id s.held ≡ none
    → begin can_run id gpus s ≡ ok (devices, s')
    → (length devices ≡ pos_part gpus)
      × (devices ≡ take (pos_part gpus) (free_devices s))
      × (free_devices s' ≡ drop (pos_part gpus) (free_devices s))
      × All (λ d. (d < s.total_gpus) × (contains (taken s.held) d ≡ false)) devices
unfolding free_devices
begin-free_devices can_run id gpus s s' devices new e =
    let (_, _, _, _, total, _, _, given, enough, held) = begin-ok can_run id gpus s s' devices e in
    let n = pos_part gpus in
    (
      rw given (omega (arith, length-take n (free_devices s), enough)),
      given,
      left n given total held,
      rw given (All-take _ n (free_devices s) (free_devices-All s)),
    )
  where
    left :
        (n : ℕ)
        → devices ≡ take n (free_devices s)
        → s'.total_gpus ≡ s.total_gpus
        → s'.held ≡ (if eqb n 0 then s.held else insert id devices s.held)
        → free_devices s' ≡ drop n (free_devices s)
    left zero given total held = rw (held, total) refl
    left (suc n) given total held =
        let put : s'.held ≡ insert id (take (suc n) (free_devices s)) s.held =
          ground (arith, held, given) in
        rw (put, total) (taken_more id (suc n) s new)

-- A submission that was accepted, under an id that holds no cards, and then failed leaves no
-- trace: `_undo` gives back the registry as it was.
pub undo-begin :
    (can_run : Bool) (id : String) (gpus : ℤ) (s s' : TaskRegistry) (devices : List ℕ)
    → lookup id s.held ≡ none
    → begin can_run id gpus s ≡ ok (devices, s')
    → undo id s' ≡ s
unfolding undo release_devices
undo-begin can_run id gpus s s' devices new e =
    let (fresh, _, claimed, tasks, total, bad, draining, _, _, held) =
      begin-ok can_run id gpus s s' devices e in
    let kept = erase-insert_new id devices s.held new in
    let given_back : erase id s'.held ≡ s.held = elim (Bool-cases (eqb (pos_part gpus) 0)) [
      | inl none_asked ↦ rw (held, none_asked) kept.1
      | inr some_asked ↦ rw (held, some_asked) kept.0
    ] in
    let unclaimed : discard id s'.claimed ≡ s.claimed =
      rw claimed (discard-append id s.claimed fresh) in
    rw (given_back, unclaimed, tasks, total, bad, draining) refl
