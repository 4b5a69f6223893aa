-- ===== src/Registry/Submission.antt =====
-- What a submission takes, what a failed one gives back, and the invariant of all calls.
use looma.Base.Int.{ℤ, pos, negsuc, pos_part}
use looma.Base.Dict.{insert, lookup}
use looma.Base.Distinct.{Distinct-take, Distinct-append, Distinct}
use looma.Base.{
  All-map_pred, All-take, refl, err, Result, All, ltb, eqb, if◌then◌else◌, Bool-cases, ok, contains,
  string_eq, nat_eq, length, take, ℕ, zero, suc, ◌≤◌, String, ◌≡◌, inl, inr, Bool, false, none,
  List, [], ◌∷◌, ◌++◌, arith,
}
use looma.Registry.{
  resume, drain, release_devices, undo, taken, Refusal, recount_devices, forget, end_task, discard,
  commit, free_devices, ℤ, take_some, take_devices, begin, TaskRegistry,
}
use looma.Registry.Cards.{free_devices-Distinct, Apart-insert, Apart-erase, free_devices-All, Apart}

-- The ids that a submission has claimed are different.
pub record IsValid (s : TaskRegistry) : Type 0 where
  pub apart : Apart s.held
  pub once : Distinct s.claimed

-- What `begin` answered if it accepted: the guards were passed, and the cards are the first free
-- ones.
pub begin-ok :
    (can_run : Bool) (id : String) (gpus : ℤ) (s s' : TaskRegistry) (devices : List ℕ)
    → begin can_run id gpus s ≡ ok (devices, s')
    → (contains s.claimed id ≡ false)
      × (lookup id s.tasks ≡ none)
      × (s'.claimed ≡ s.claimed ++ (id ∷ []))
      × (s'.tasks ≡ s.tasks)
      × (s'.total_gpus ≡ s.total_gpus)
      × (s'.unusable ≡ s.unusable)
      × (s'.draining ≡ s.draining)
      × (devices ≡ take (pos_part gpus) (free_devices s))
      × (pos_part gpus ≤ length (free_devices s))
      × (s'.held ≡ (if eqb (pos_part gpus) 0 then s.held else insert id devices s.held))
unfolding begin take_devices take_some
begin-ok can_run id (pos zero) s s' devices e = ground (arith, e)
begin-ok can_run id (negsuc n) s s' devices e = ground (arith, e)
begin-ok can_run id (pos (suc n)) s s' devices e =
    elim (Bool-cases (ltb (length (free_devices s)) (suc n))) [
      | inl short ↦ absurd (ground (arith, e, short))
      | inr enough ↦ ground (arith, e, enough)
    ]

contains-discard :
    (id : String) (xs : List String) (x : String)
    → contains xs x ≡ false
    → contains (discard id xs) x ≡ false
unfolding discard
contains-discard id [] x h = refl
contains-discard id (y ∷ ys) x h = ground (arith, h, contains-discard id ys x)

discard-Distinct : (id : String) (xs : List String) → Distinct xs → Distinct (discard id xs)
unfolding discard
discard-Distinct id [] d = tt
discard-Distinct id (y ∷ ys) d =
    ground (arith, d, contains-discard id ys y, discard-Distinct id ys d.1)

pub discard-append :
    (id : String) (xs : List String) → contains xs id ≡ false → discard id (xs ++ (id ∷ [])) ≡ xs
unfolding discard
discard-append id [] h = ground arith
discard-append id (y ∷ ys) h = ground (arith, h, discard-append id ys)

claim-Distinct :
    (id : String) (xs : List String)
    → contains xs id ≡ false
    → Distinct xs
    → Distinct (xs ++ (id ∷ []))
claim-Distinct id xs h d = Distinct-append xs (id ∷ []) d (refl, tt) (h, tt)

begin-IsValid :
    (can_run : Bool) (id : String) (gpus : ℤ) (s s' : TaskRegistry) (devices : List ℕ)
    → IsValid s
    → begin can_run id gpus s ≡ ok (devices, s')
    → IsValid s'
begin-IsValid can_run id gpus s s' devices v e =
    let (new, _, claimed, _, _, _, _, given, enough, held) =
      begin-ok can_run id gpus s s' devices e in
    let n = pos_part gpus in
    let free = free_devices s in
    let off : All (λ x. contains (taken s.held) x ≡ false) (take n free) =
      All-take _ n free (All-map_pred _ _ (λ x p. p.1) free (free_devices-All s)) in
    let more =
      Apart-insert id (take n free) s.held (Distinct-take n free (free_devices-Distinct s)) off
        v.apart in
    record {
      apart = elim (Bool-cases (eqb n 0)) [
        | inl none_asked ↦ rw (held, none_asked) v.apart
        | inr some_asked ↦ rw (held, some_asked, given) more
      ];
      once = rw claimed (claim-Distinct id s.claimed new v.once);
    }

-- A part of a call that runs under one lock. A submission that was accepted and one that was
-- refused are both `act_begin`.
pub data Action : Type 0 where
  act_begin : Bool → String → ℤ → Action
  act_commit : String → List ℕ → Action
  act_undo : String → Action
  act_end : String → Action
  act_release_devices : String → Action
  act_forget : String → Action
  act_recount : ℤ → Action
  act_drain : String → Action
  act_resume : Action

abbrev after_begin : TaskRegistry → Result Refusal (List ℕ × TaskRegistry) → TaskRegistry
after_begin s (ok (devices, s')) = s'
after_begin s (err why) = s

abbrev after_recount : TaskRegistry → Result ℕ TaskRegistry → TaskRegistry
after_recount s (ok s') = s'
after_recount s (err busy) = s

unfoldable pub act : Action → TaskRegistry → TaskRegistry
act (act_begin can_run id gpus) s = after_begin s (begin can_run id gpus s)
act (act_commit id devices) s = commit id devices s
act (act_undo id) s = undo id s
act (act_end id) s = end_task id s
act (act_release_devices id) s = release_devices id s
act (act_forget id) s = (forget id s).1
act (act_recount total) s = after_recount s (recount_devices total s)
act (act_drain reason) s = drain reason s
act act_resume s = resume s

unfoldable pub act_all : List Action → TaskRegistry → TaskRegistry
unfolding act
act_all [] s = s
act_all (a ∷ rest) s = act_all rest (act a s)

same_cards :
    (s s' : TaskRegistry) → IsValid s → s'.held ≡ s.held → s'.claimed ≡ s.claimed → IsValid s'
same_cards s s' v held claimed = record { apart = rw held v.apart; once = rw claimed v.once }

end_task-IsValid : (id : String) (s : TaskRegistry) → IsValid s → IsValid (end_task id s)
unfolding end_task
end_task-IsValid id s v = same_cards s _ v (ground arith) (ground arith)

forget-IsValid : (id : String) (s : TaskRegistry) → IsValid s → IsValid (forget id s).1
unfolding forget
forget-IsValid id s v = same_cards s _ v (ground arith) (ground arith)

after_recount-IsValid :
    (total : ℤ) (s : TaskRegistry) → IsValid s → IsValid (after_recount s (recount_devices total s))
unfolding recount_devices
after_recount-IsValid total s v = same_cards s _ v (ground arith) (ground arith)

act_begin-IsValid :
    (can_run : Bool) (id : String) (gpus : ℤ) (s : TaskRegistry)
    (r : Result Refusal (List ℕ × TaskRegistry))
    → IsValid s
    → begin can_run id gpus s ≡ r
    → IsValid (after_begin s r)
act_begin-IsValid can_run id gpus s (ok (devices, s')) v e =
    begin-IsValid can_run id gpus s s' devices v e
act_begin-IsValid can_run id gpus s (err why) v e = v

act-IsValid : (a : Action) (s : TaskRegistry) → IsValid s → IsValid (act a s)
unfolding act commit undo release_devices drain resume
act-IsValid (act_begin can_run id gpus) s v =
    act_begin-IsValid can_run id gpus s (begin can_run id gpus s) v refl
act-IsValid (act_commit id devices) s v = record {
  apart = v.apart;
  once = discard-Distinct id s.claimed v.once;
}
act-IsValid (act_undo id) s v = record {
  apart = Apart-erase id s.held v.apart;
  once = discard-Distinct id s.claimed v.once;
}
act-IsValid (act_end id) s v = end_task-IsValid id s v
act-IsValid (act_release_devices id) s v = record {
  apart = Apart-erase id s.held v.apart;
  once = v.once;
}
act-IsValid (act_forget id) s v = forget-IsValid id s v
act-IsValid (act_recount total) s v = after_recount-IsValid total s v
act-IsValid (act_drain reason) s v = same_cards s _ v refl refl
act-IsValid act_resume s v = same_cards s _ v refl refl

pub act_all-IsValid : (acts : List Action) (s : TaskRegistry) → IsValid s → IsValid (act_all acts s)
unfolding act_all
act_all-IsValid [] s v = v
act_all-IsValid (a ∷ rest) s v = act_all-IsValid rest (act a s) (act-IsValid a s v)
