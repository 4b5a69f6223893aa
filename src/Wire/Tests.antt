-- ===== src/Wire/Tests.antt =====
-- A batch of two on the wire, and the theorems of the trip for it.
use looma.Base.{
  ok, err, ◌==◌, string_eq, nat_eq, All, String, ◌≡◌, refl, ap, ◌≢◌, Bool, true, false, none, some,
  List, [], ◌∷◌, map, arith,
}
use looma.Scheduler.{Sequence}
use looma.Wire.{wrong_tokens, no_members, widths, unpack, token_rows, check_tokens, pack}
use looma.Wire.Trip.{unpack-pack, Travels, received}

abbrev first : Sequence
first = record {
  request_id = "a";
  prompt_ids = 5 ∷ 6 ∷ 7 ∷ [];
  output_ids = 9 ∷ [];
  temperature = 700_000;
  top_p = 900_000;
  max_tokens = 4;
  seed = some 1;
}

abbrev second : Sequence
second = record first { request_id = "b"; prompt_ids = 8 ∷ []; seed = none }

abbrev batch : List Sequence
batch = first ∷ second ∷ []

prompts : map (λ m. m.prompt_ids) (pack batch false) ≡ some [] ∷ some [] ∷ []
unfolding pack
prompts = refl

refused : check_tokens batch 5 true ≡ err (wrong_tokens 5 4)
unfolding check_tokens widths
refused = refl

nobody : unpack [] ≡ err no_members
unfolding unpack
nobody = refl

three_axes : token_rows ((3 ∷ []) ∷ (1 ∷ 7 ∷ 64 ∷ []) ∷ []) ≡ ok 7
unfolding token_rows
three_axes = refl

abbrev is_empty : String → Bool
is_empty s = s == ""

named_a : first.request_id ≢ ""
unfolding string_eq
named_a e = let same : false ≡ true = ap is_empty e in absurd (ground (arith, same))

named_b : second.request_id ≢ ""
unfolding string_eq
named_b e = let same : false ≡ true = ap is_empty e in absurd (ground (arith, same))

abbrev travel : All Travels batch
travel = ((named_a, omega arith, omega arith), ((named_b, omega arith, omega arith), tt))

unpack-pack_example : unpack (pack batch false) ≡ ok (map (received false) batch)
unpack-pack_example = unpack-pack false first (second ∷ []) travel
