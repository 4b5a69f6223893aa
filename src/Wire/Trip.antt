-- ===== src/Wire/Trip.antt =====
-- What a batch is after the trip from one stage to the next.
use mathlib.Core.Logic.{if_neg}
use looma.Base.{
  if◌then◌else◌, ok, string_eq, nat_eq, All, length, sum_by, ℕ, zero, suc, ◌≤◌, ◌≡◌, refl, ap, ◌≢◌,
  ◌↔◌, Bool, true, false, some, List, [], ◌∷◌, map, arith,
}
use looma.Scheduler.{done, computed, Sequence}
use looma.Wire.{
  pack_one, check_rows, zeros, widths, unpack_one, unpack_all, unpack, prompt_of, or_default,
  check_tokens, pack,
}

-- What the queue of the first stage lets into a batch.
abbrev pub Travels : Sequence → Type 0
Travels s = (s.request_id ≢ "") × (1 ≤ length s.prompt_ids) × (1 ≤ s.max_tokens)

-- On the later steps the prompt stays behind and only its length goes.
abbrev pub received : Bool → Sequence → Sequence
received first_step s = record s {
  prompt_ids = if first_step then s.prompt_ids else zeros (length s.prompt_ids);
}

prompt_lem :
    (xs : List ℕ) (first_step : Bool)
    → 1 ≤ length xs
    → prompt_of (if first_step then xs else []) (some (length xs))
      ≡ (if first_step then xs else zeros (length xs))
prompt_lem [] first_step h = absurd (omega (arith, h))
prompt_lem (x ∷ xs) true h = refl
prompt_lem (x ∷ xs) false h = refl

or_default-some : (n d : ℕ) → 1 ≤ n → or_default (some n) d ≡ n
or_default-some zero d h = absurd (omega (arith, h))
or_default-some (suc n) d h = refl

unpack_one-pack_one :
    (first_step : Bool) (s : Sequence)
    → Travels s
    → unpack_one s.request_id (pack_one first_step s) ≡ received first_step s
unpack_one-pack_one first_step s (named, long, some_left) =
    rw (prompt_lem s.prompt_ids first_step long, or_default-some s.max_tokens 128 some_left) refl

unpack_all-pack :
    (first_step : Bool) (ss : List Sequence)
    → All Travels ss
    → unpack_all (pack ss first_step) ≡ ok (map (received first_step) ss)
unfolding pack unpack_all
unpack_all-pack first_step [] h = refl
unpack_all-pack first_step (s ∷ ss) (here, there) =
    rw (if_neg _ here.0, unpack_all-pack first_step ss there, unpack_one-pack_one first_step s here)
      refl

-- A batch arrives complete and in its order: on the first step exactly as it was, on the later
-- ones with prompts of the same lengths whose values are not sent. No request may be without a
-- name, a prompt or tokens to produce.
pub unpack-pack :
    (first_step : Bool) (s : Sequence) (ss : List Sequence)
    → All Travels (s ∷ ss)
    → unpack (pack (s ∷ ss) first_step) ≡ ok (map (received first_step) (s ∷ ss))
unfolding unpack pack
unpack-pack first_step s ss h = unpack_all-pack first_step (s ∷ ss) h

length-zeros : (n : ℕ) → length (zeros n) ≡ n
length-zeros zero = refl
length-zeros (suc n) = ap suc (length-zeros n)

length-received :
    (b : Bool) (xs : List ℕ) → length (if b then xs else zeros (length xs)) ≡ length xs
length-received true xs = refl
length-received false xs = length-zeros (length xs)

widths-received :
    (sent step : Bool) (ss : List Sequence) → widths (map (received sent) ss) step ≡ widths ss step
unfolding widths
widths-received sent step [] = refl
widths-received sent step (s ∷ ss) =
    rw (length-received sent s.prompt_ids, widths-received sent step ss) refl

length-map-received :
    (sent : Bool) (ss : List Sequence) → length (map (received sent) ss) ≡ length ss
length-map-received sent [] = refl
length-map-received sent (s ∷ ss) = ap suc (length-map-received sent ss)

same_state :
    (sent : Bool) (ss : List Sequence)
    → All (λ s. (computed (received sent s) ≡ computed s) × (done (received sent s) ≡ done s)) ss
unfolding computed done
same_state sent [] = tt
same_state sent (s ∷ ss) = ((rw (length-received sent s.prompt_ids) refl, refl), same_state sent ss)

-- What arrived cuts the tensors like what was sent: the check of the tokens passes for exactly
-- the sum of the sender's widths, the check of the rows for exactly one row for each request, and
-- the lengths that the engine computes its positions from agree.
pub received-checks :
    (sent step : Bool) (ss : List Sequence) (rows : ℕ)
    → let arrived = map (received sent) ss in
      ((check_tokens arrived rows step ≡ ok tt) ↔ (rows ≡ sum_by (λ w. w) (widths ss step)))
      × ((check_rows arrived rows ≡ ok tt) ↔ (rows ≡ length ss))
      × All (λ s. (computed (received sent s) ≡ computed s) × (done (received sent s) ≡ done s)) ss
unfolding check_tokens check_rows
received-checks sent step ss rows = (
  rw (widths-received sent step ss) ((λ h. ground (arith, h)), (λ h. ground (arith, h))),
  rw (length-map-received sent ss) ((λ h. ground (arith, h)), (λ h. ground (arith, h))),
  same_state sent ss,
)
