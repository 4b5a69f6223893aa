-- ===== src/Wire.antt =====
-- A batch on the wire between two stages, payloads/looma_stage/looma_stage/batch_wire.py.
-- A member is a document in which any field may be missing. Numbers of the sampling are in
-- millionths. The tensors' bytes are not modelled, only their shapes.
pub mod Trip
mod Tests
use looma.Base.{
  or_zero, eqb, if◌then◌else◌, Result, ok, err, ◌>>=◌, ◌==◌, string_eq, nat_eq, length, sum_by, ℕ,
  zero, suc, String, Bool, Option, none, some, List, [], ◌∷◌,
}
use looma.Scheduler.{Sequence}

-- Why `BatchMismatch` is raised, with the numbers that the message names.
pub data BatchMismatch : Type 0 where
  no_members nameless no_token_axis : BatchMismatch
  wrong_tokens : ℕ → ℕ → BatchMismatch
  wrong_rows : ℕ → ℕ → BatchMismatch

pub record Sampling : Type 0 where
  pub temperature : Option ℕ
  pub top_p : Option ℕ
  pub seed : Option ℕ

pub record Member : Type 0 where
  pub request_id : Option String
  pub prompt_ids : Option (List ℕ)
  pub prompt_len : Option ℕ
  pub output_ids : Option (List ℕ)
  pub sampling : Option Sampling
  pub max_tokens : Option ℕ

-- `widths`
pub widths : List Sequence → Bool → List ℕ
widths [] first_step = []
widths (s ∷ ss) first_step = (if first_step then length s.prompt_ids else 1) ∷ widths ss first_step

abbrev pub pack_one : Bool → Sequence → Member
pack_one first_step s = record {
  request_id = some s.request_id;
  prompt_ids = some (if first_step then s.prompt_ids else []);
  prompt_len = some (length s.prompt_ids);
  output_ids = some s.output_ids;
  sampling =
      some (record { temperature = some s.temperature; top_p = some s.top_p; seed = s.seed });
  max_tokens = some s.max_tokens;
}

-- `pack`
pub pack : List Sequence → Bool → List Member
pack [] first_step = []
pack (s ∷ ss) first_step = pack_one first_step s ∷ pack ss first_step

-- `[0] * n`
abbrev pub zeros : ℕ → List ℕ
zeros zero = []
zeros (suc n) = 0 ∷ zeros n

-- `list(xs or [])`
abbrev pub or_empty : Option (List ℕ) → List ℕ
or_empty none = []
or_empty (some xs) = xs

-- `n or d` for a number that may be missing.
abbrev pub or_default : Option ℕ → ℕ → ℕ
or_default none d = d
or_default (some zero) d = d
or_default (some (suc n)) d = suc n

abbrev pub or_one : Option ℕ → ℕ
or_one none = 1_000_000
or_one (some p) = p

abbrev pub no_sampling : Option Sampling → Sampling
no_sampling none = record { temperature = none; top_p = none; seed = none }
no_sampling (some s) = s

-- `member.get("prompt_ids")`, or zeros of the promised length.
abbrev pub prompt_of : List ℕ → Option ℕ → List ℕ
prompt_of [] prompt_len = zeros (or_zero prompt_len)
prompt_of (t ∷ ts) prompt_len = t ∷ ts

abbrev pub unpack_one : String → Member → Sequence
unpack_one request_id m = record {
  request_id = request_id;
  prompt_ids = prompt_of (or_empty m.prompt_ids) m.prompt_len;
  output_ids = or_empty m.output_ids;
  temperature = or_zero (no_sampling m.sampling).temperature;
  top_p = or_one (no_sampling m.sampling).top_p;
  max_tokens = or_default m.max_tokens 128;
  seed = (no_sampling m.sampling).seed;
}

-- The loop of `unpack`; a name that is missing or empty stops it.
unfoldable pub unpack_all : List Member → Result BatchMismatch (List Sequence)
unpack_all [] = ok []
unpack_all (m ∷ ms) = elim m.request_id [
  | none ↦ err nameless
  | some request_id ↦
      if request_id == ""
      then err nameless
      else (unpack_all ms >>= λ rest. ok (unpack_one request_id m ∷ rest))
]

-- `unpack`
pub unpack : List Member → Result BatchMismatch (List Sequence)
unfolding unpack_all
unpack [] = err no_members
unpack (m ∷ ms) = unpack_all (m ∷ ms)

-- `check_tokens`
pub check_tokens : List Sequence → ℕ → Bool → Result BatchMismatch Unit
unfolding widths
check_tokens sequences rows first_step =
    let expected = sum_by (λ w. w) (widths sequences first_step) in
    if eqb rows expected then ok tt else err (wrong_tokens rows expected)

-- `check_rows`
pub check_rows : List Sequence → ℕ → Result BatchMismatch Unit
check_rows sequences rows =
    if eqb rows (length sequences) then ok tt else err (wrong_rows rows (length sequences))

-- `token_rows`, over the shapes of the tensors in their order.
unfoldable pub token_rows : List (List ℕ) → Result BatchMismatch ℕ
token_rows [] = err no_token_axis
token_rows ((a ∷ rows ∷ c ∷ rest) ∷ shapes) = ok rows
token_rows ((rows ∷ b ∷ []) ∷ shapes) = ok rows
token_rows ((a ∷ []) ∷ shapes) = token_rows shapes
token_rows ([] ∷ shapes) = token_rows shapes
