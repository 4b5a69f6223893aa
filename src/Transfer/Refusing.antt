-- ===== src/Transfer/Refusing.antt =====
-- What a task can find in its directory: agent/looma_agent/transport/files.py.
use mathlib.Core.Path.{subst}
use looma.Base.{
  Result-cases, leb, eqb, Bool-cases, Option-cases, ok, both_return, contains, string_eq, nat_eq,
  length, ℕ, String, ◌≡◌, refl, ◌⊎◌, inl, inr, Bool, true, false, Option, none, some, List, [], ◌∷◌,
  arith,
}
use looma.Base.Dict.{
  erase, insert, lookup, Dict, Entries, Entries-insert, Entries-erase, Entries-lookup,
}
use looma.Transfer.{
  stay_apart, paths_of, starts_with, safe_target, Declared, IncomingFile, write, finish, Item,
  piece, closed, Arriving, nothing_yet, or_begin, file_away, take_piece, take_item, receive_loop,
  check_names, receive_all, wanted_from,
}

-- What was declared of a file, where it says something.
abbrev pub Matches : (List ℕ → String) → Declared → List ℕ → Type 0
Matches digest d bytes =
    ((d.size_bytes ≡ 0) ⊎ (length bytes ≡ d.size_bytes))
    × ((d.digest ≡ "") ⊎ (digest bytes ≡ d.digest))

module _ (digest : List ℕ → String) (wanted : Dict String Declared) where
  -- A file that is complete is one that was declared, and is what was declared.
  abbrev pub IsDeclared : String → List ℕ → Type 0
  IsDeclared name bytes = (d : Declared) × (lookup name wanted ≡ some d) × Matches digest d bytes

  abbrev IsOpened : String → IncomingFile → Type 0
  IsOpened name f =
      (d : Declared) × (lookup name wanted ≡ some d)
      × (f.expected_bytes ≡ d.size_bytes)
      × (f.expected_digest ≡ d.digest)

  abbrev Sound : Arriving → Type 0
  Sound a = Entries IsOpened a.open_files × Entries IsDeclared a.done

  write-IsOpened :
      (name : String) (bytes : List ℕ) (f g : IncomingFile)
      → IsOpened name f
      → write bytes f ≡ ok g
      → IsOpened name g
  unfolding write
  write-IsOpened name bytes f g (d, at, size, hash) e =
      (d, at, ground (arith, size, e), ground (arith, hash, e))

  finish_size :
      (f : IncomingFile) (bytes : List ℕ)
      → finish digest f ≡ ok bytes
      → (f.expected_bytes ≡ 0) ⊎ (length bytes ≡ f.expected_bytes)
  unfolding finish
  finish_size f bytes e = elim (Bool-cases (eqb f.expected_bytes 0)) [
    | inl any ↦ inl (ground (arith, any))
    | inr given ↦ inr (ground (arith, given, e))
  ]

  finish_digest :
      (f : IncomingFile) (bytes : List ℕ)
      → finish digest f ≡ ok bytes
      → (f.expected_digest ≡ "") ⊎ (digest bytes ≡ f.expected_digest)
  unfolding finish
  finish_digest f bytes e = elim (string_eq.dec f.expected_digest "") [
    | yes any ↦ inl any
    | no given ↦ inr (ground (arith, given, e))
  ]

  finish-IsDeclared :
      (name : String) (f : IncomingFile) (bytes : List ℕ)
      → IsOpened name f
      → finish digest f ≡ ok bytes
      → IsDeclared name bytes
  finish-IsDeclared name f bytes (d, at, size, hash) e = (
    d,
    at,
    (
      subst (λ n. (n ≡ 0) ⊎ (length bytes ≡ n)) size (finish_size f bytes e),
      subst (λ s. (s ≡ "") ⊎ (digest bytes ≡ s)) hash (finish_digest f bytes e),
    ),
  )

  or_begin-IsOpened :
      (d : Declared) (name : String) (o : Option IncomingFile)
      → lookup name wanted ≡ some d
      → ((f : IncomingFile) → o ≡ some f → IsOpened name f)
      → IsOpened name (or_begin d o)
  or_begin-IsOpened d name none at old = (d, at, refl, refl)
  or_begin-IsOpened d name (some f) at old = old f refl

  file_away-Sound :
      (name : String) (last : Bool) (f : IncomingFile) (a b : Arriving)
      → IsOpened name f
      → Sound a
      → file_away digest name last f a ≡ ok b
      → Sound b
  unfolding file_away
  file_away-Sound name false f a b opened (files, done) e =
      subst (λ x. Sound x) (ground (arith, e))
        (let s : Sound (record a { open_files = insert name f a.open_files }) =
            (Entries-insert IsOpened name f a.open_files opened files, done) in
          s)
  file_away-Sound name true f a b opened (files, done) e =
      let (bytes, put, got) = both_return _ (finish digest f) e in
      subst (λ x. Sound x) (ground (arith, put))
        (let s : Sound
              (record { open_files = erase name a.open_files; done = insert name bytes a.done }) =
            (
              Entries-erase IsOpened name a.open_files files,
              Entries-insert IsDeclared name bytes a.done
                  (finish-IsDeclared name f bytes opened got) done,
            ) in
          s)

  take_piece-Sound :
      (d : Declared) (bytes : List ℕ) (last : Bool) (a b : Arriving)
      → lookup d.name wanted ≡ some d
      → Sound a
      → take_piece digest d bytes last a ≡ ok b
      → Sound b
  unfolding take_piece
  take_piece-Sound d bytes last a b at (files, done) e =
      let f = or_begin d (lookup d.name a.open_files) in
      let (g, put, wrote) = both_return (λ g. file_away digest d.name last g a) (write bytes f) e in
      let opened =
        or_begin-IsOpened d d.name (lookup d.name a.open_files) at
          (λ f' found. Entries-lookup IsOpened d.name f' a.open_files files found) in
      file_away-Sound d.name last g a b (write-IsOpened d.name bytes f g opened wrote) (files, done)
        put

  abbrev Named : Type 0
  Named = Entries (λ name d. d.name ≡ name) wanted

  take_item-Sound :
      (item : Item) (a b : Arriving)
      → Named
      → Sound a
      → take_item digest wanted item a ≡ ok b
      → Sound b
  unfolding take_item
  take_item-Sound closed a b named s e = cc
  take_item-Sound (piece name bytes last) a b named s e = elim (Option-cases (lookup name wanted)) [
    | inl unknown ↦ absurd (ground (arith, unknown, e))
    | inr (d, at) ↦
        let same = Entries-lookup (λ n x. x.name ≡ n) name d wanted named at in
        take_piece-Sound d bytes last a b (ground (arith, same, at)) s (ground (arith, at, e))
  ]

  receive_loop-IsDeclared :
      (items : List Item) (a : Arriving) (files : Dict String (List ℕ))
      → Named
      → Sound a
      → receive_loop digest wanted items a ≡ ok files
      → Entries IsDeclared files
  unfolding receive_loop
  receive_loop-IsDeclared [] a files named s =
      λ e. subst (Entries IsDeclared) (ground (arith, e)) s.1
  receive_loop-IsDeclared (item ∷ items) a files named s =
      elim (Bool-cases (leb (length wanted) (length a.done))) [
        | inl enough ↦
            rw (enough, receive_loop) λ e. subst (Entries IsDeclared) (ground (arith, e)) s.1
        | inr more ↦
            rw (more, receive_loop)
              λ e.
                let (b, later, took) =
                  both_return (λ a'. receive_loop digest wanted items a')
                    (take_item digest wanted item a) e in
                receive_loop-IsDeclared items b files named (take_item-Sound item a b named s took)
                  later
      ]

wanted_from-Named :
    (found : Dict String Declared) (ds : List Declared)
    → Entries (λ name d. d.name ≡ name) found
    → Entries (λ name d. d.name ≡ name) (wanted_from found ds)
wanted_from-Named found [] h = h
wanted_from-Named found (d ∷ ds) h =
    wanted_from-Named (insert d.name d found) ds
      (Entries-insert (λ name x. x.name ≡ name) d.name d found refl h)

-- Whatever arrives and in whatever order, for inputs that do not meet on the disk: each file that a
-- task finds was declared by it, has the size that was declared for it, unless that is zero, and the
-- digest that was declared for it, unless that is blank.
pub receive_all-IsDeclared :
    (digest : List ℕ → String) (inside : List String → Bool) (expected : List Declared)
    (items : List Item) (files : Dict String (List ℕ))
    → receive_all digest inside expected items ≡ some (ok files)
    → Entries (IsDeclared digest (wanted_from [] expected)) files
unfolding receive_all
receive_all-IsDeclared digest inside expected items files =
    elim (Result-cases (check_names inside expected)) [
      | inl (why, refused) ↦ rw (refused, receive_all) λ e. cc
      | inr (_, safe) ↦ elim (Bool-cases (stay_apart (paths_of (wanted_from [] expected)))) [
        | inr meet ↦ rw (safe, meet, receive_all) λ e. cc
        | inl apart ↦
            rw (safe, apart, receive_all)
              λ e.
                receive_loop-IsDeclared digest (wanted_from [] expected) items nothing_yet files
                  (wanted_from-Named [] expected tt) (tt, tt) (ground (arith, e))
      ]
    ]

-- A name that is accepted has no part that leads upwards, and does not begin at the root.
pub safe_target-inside :
    (inside : List String → Bool) (name : String) (parts : List String)
    → safe_target inside name ≡ ok parts
    → (contains parts ".." ≡ false) × (inside parts ≡ true) × (starts_with "/" name ≡ false)
unfolding safe_target
safe_target-inside inside name parts e = (ground (arith, e), ground (arith, e), ground (arith, e))
