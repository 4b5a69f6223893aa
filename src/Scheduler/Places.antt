-- ===== src/Scheduler/Places.antt =====
-- What `snapshot` shows of the places.
use looma.Base.{ok, err, string_eq, nat_eq, length, ℕ, ◌+◌, ◌-◌, ◌≤◌, ◌≡◌, [], ◌∷◌, ◌++◌, arith}
use looma.Base.Int.{pos}
use looma.Scheduler.{Sequence, Scheduler, no_places, add, snapshot, prompt_length}
use looma.Scheduler.Invariant.{IsValid}

-- The places shown are never negative, and with the requests that wait and run they make up all
-- places of the node; `add` takes a request that fits into a step exactly if one place is shown.
pub snapshot-places :
    (r : Sequence) (s : Scheduler)
    → IsValid s
    → (left : ℕ) × ((snapshot s).places ≡ pos left)
      × (left + (snapshot s).waiting + (snapshot s).running ≡ s.max_sequences)
      × (1 ≤ left → prompt_length r ≤ s.max_batch_tokens → (t : Scheduler) × (add r s ≡ ok t))
      × (left ≡ 0
          → prompt_length r ≤ s.max_batch_tokens
          → add r s ≡ err (no_places s.max_sequences))
unfolding snapshot add
snapshot-places r s v = (
  s.max_sequences - (length s.waiting + length s.running),
  ground (arith, v.fits),
  omega (arith, v.fits),
  λ free short. (record s { waiting = s.waiting ++ (r ∷ []) }, ground (arith, v.fits)),
  λ full short. ground (arith, v.fits),
)
