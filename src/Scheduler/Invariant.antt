-- ===== src/Scheduler/Invariant.antt =====
-- What every method of the scheduler keeps.
use looma.Base.{
  ℕ, ◌+◌, ◌≤◌, ◌<◌, ◌≡◌, ◌↔◌, ◌++◌, List, [], ◌∷◌, String, arith, ok, err, Result, string_eq,
  length, length-append, All, All-append, Option-cases, inl, inr, refl,
}
use looma.Base.Dict.{
  lookup, NodupKeys, insert-NodupKeys, erase-NodupKeys, length-insert, length-erase,
}
use looma.Base.Filter.{length-filter_le, filter-All}
use looma.Base.Int.{ℤ}
use looma.Scheduler.{
  Sequence, Full, Scheduler, init, add, finish, accepted, next_batch, prompt_length, is_other, emit,
}
use looma.Scheduler.Loop.{take_loop-length, take_loop-All_left, take_loop-NodupKeys}

pub record IsValid (s : Scheduler) : Type 0 where
  pub has_place : 1 ≤ s.max_sequences
  pub fits : length s.waiting + length s.running ≤ s.max_sequences
  pub short : All (λ c. prompt_length c ≤ s.max_batch_tokens) s.waiting
  pub unique : NodupKeys s.running

pub init-IsValid : (m t : ℤ) → IsValid (init m t)
unfolding init
init-IsValid m t = record { has_place = omega arith; fits = omega arith; short = tt; unique = tt }

-- A request is accepted exactly when its prompt fits into a step and a place is free.
pub add-eq-ok :
    (r : Sequence) (s t : Scheduler)
    → (add r s ≡ ok t) ↔ (
        (t ≡ record s { waiting = s.waiting ++ (r ∷ []) })
        × (prompt_length r ≤ s.max_batch_tokens)
        × (length s.waiting + length s.running < s.max_sequences))
unfolding add
add-eq-ok r s t = (λ e. ground arith, λ h. ground (arith, h.0, h.1, h.2))

pub add-IsValid :
    (r : Sequence) (s : Scheduler) {t : Scheduler} → IsValid s → add r s ≡ ok t → IsValid t
add-IsValid r s {t} v e =
    let (same, short, room) = (add-eq-ok r s t).0 e in
    rw same (record {
      has_place = v.has_place;
      fits = omega (arith, length-append s.waiting (r ∷ []));
      short = All-append _ s.waiting (r ∷ []) v.short (short, tt);
      unique = v.unique;
    })

pub finish-IsValid : (id : String) (s : Scheduler) → IsValid s → IsValid (finish id s).1
unfolding finish
finish-IsValid id s v = record {
  has_place = v.has_place;
  fits = ground (arith, length-filter_le (is_other id) s.waiting, length-erase id s.running);
  short = filter-All _ (is_other id) s.waiting v.short;
  unique = erase-NodupKeys id s.running v.unique;
}

pub accepted-IsValid : (t : ℕ) (id : String) (s : Scheduler) → IsValid s → IsValid (accepted t id s)
unfolding accepted
accepted-IsValid t id s v = elim (Option-cases (lookup id s.running)) [
  | inl absent ↦ rw (absent, accepted) v
  | inr (r, found) ↦
      rw (found, accepted)
        (record {
          has_place = v.has_place;
          fits = ground (arith, v.fits, found, length-insert id (emit t r) s.running);
          short = v.short;
          unique = insert-NodupKeys id (emit t r) s.running v.unique;
        })
]

pub next_batch-IsValid : (s : Scheduler) → IsValid s → IsValid (next_batch s).1
unfolding next_batch
next_batch-IsValid s v =
    let lengths =
      take_loop-length s.max_sequences s.max_batch_tokens s.waiting s.running [] 0 (omega arith) in
    record {
      has_place = v.has_place;
      fits = omega arith;
      short =
          take_loop-All_left s.max_sequences s.max_batch_tokens _ s.waiting s.running [] 0 v.short;
      unique =
          take_loop-NodupKeys s.max_sequences s.max_batch_tokens s.waiting s.running [] 0 v.unique;
    }

-- One call from outside.
pub data Call : Type 0 where
  call_add : Sequence → Call
  call_finish : String → Call
  call_accepted : ℕ → String → Call
  call_next_batch : Call

-- A refused `add` raises and leaves the state alone.
abbrev pub after_add : Scheduler → Result Full Scheduler → Scheduler
after_add s (ok t) = t
after_add s (err e) = s

pub serve : Call → Scheduler → Scheduler
serve (call_add r) s = after_add s (add r s)
serve (call_finish id) s = (finish id s).1
serve (call_accepted t id) s = accepted t id s
serve call_next_batch s = (next_batch s).1

unfoldable pub serve_all : List Call → Scheduler → Scheduler
unfolding serve
serve_all [] s = s
serve_all (c ∷ cs) s = serve_all cs (serve c s)

pub serve-IsValid : (c : Call) (s : Scheduler) → IsValid s → IsValid (serve c s)
unfolding serve
serve-IsValid (call_add r) s v = go (add r s) (λ t e. add-IsValid r s v e)
  where
    go :
        (o : Result Full Scheduler)
        → ((t : Scheduler) → o ≡ ok t → IsValid t)
        → IsValid (after_add s o)
    go (ok t) h = h t refl
    go (err e) h = v
serve-IsValid (call_finish id) s v = finish-IsValid id s v
serve-IsValid (call_accepted t id) s v = accepted-IsValid t id s v
serve-IsValid call_next_batch s v = next_batch-IsValid s v

-- Whatever is called, in whatever order, on a new scheduler: the requests that wait and run are
-- never more than the places, a waiting prompt always fits into one step, and no id runs twice.
pub serve_all-IsValid : (cs : List Call) (m t : ℤ) → IsValid (serve_all cs (init m t))
unfolding serve_all
serve_all-IsValid cs m t = keeps cs (init m t) (init-IsValid m t)
  where
    keeps : (cs : List Call) (s : Scheduler) → IsValid s → IsValid (serve_all cs s)
    keeps [] s v = v
    keeps (c ∷ cs) s v = keeps cs (serve c s) (serve-IsValid c s v)
