-- ===== src/Placement/Tests.antt =====
-- Placements on a small fleet, and the theorems there.
use looma.Base.Sort.{sort_by}
use looma.Base.Dict.{NodupKeys, lookup, Dict}
use looma.Base.{string_eq, nat_eq, ℕ, String, ◌≡◌, refl, true, none, some, [], ◌∷◌}
use looma.Base.Filter.{filter}
use looma.Placement.{
  remaining, short_gpus, short_vram, short, refused, placed, why_nothing_fits, subtract, free_of,
  holds, plus, choose_node, NodeInfo, Resources,
}
use looma.Placement.Choice.{Roomier, taken_of, FitsBeside, choose_node-fits}

abbrev amount : ℕ → ℕ → ℕ → Resources
amount vram gpus cpus = record {
  vram_bytes = vram;
  ram_bytes = 10;
  cpus = cpus;
  gpus = gpus;
  disk_bytes = 0;
}

abbrev node : ℕ → ℕ → NodeInfo
node vram gpus = record {
  vram_free_bytes = some vram;
  ram_bytes = some 64;
  cpus = some 8000;
  num_gpus = some gpus;
  disk_bytes = none;
}

abbrev fleet : Dict String NodeInfo
fleet = ("a", node 24 1) ∷ ("b", node 80 2) ∷ ("c", node 48 2) ∷ []

abbrev held : Dict String Resources
held = ("b", amount 40 2 1000) ∷ []

emptiest : choose_node fleet (amount 20 1 1000) [] ≡ placed "b"
unfolding choose_node filter sort_by holds free_of lookup string_eq
emptiest = refl

avoids_held : choose_node fleet (amount 20 1 1000) held ≡ placed "c"
unfolding choose_node filter sort_by holds free_of subtract lookup string_eq
avoids_held = refl

names_shortage :
    choose_node fleet (amount 100 4 1000) held
    ≡ refused (short (short_vram 100 48 ∷ short_gpus 4 2 ∷ []))
unfolding choose_node filter sort_by holds free_of subtract lookup string_eq why_nothing_fits
names_shortage = refl

sums : plus (amount 1 2 3) (amount 4 5 6) ≡ record (amount 5 7 9) { ram_bytes = 20 }
unfolding plus
sums = refl

fleet-NodupKeys : NodupKeys fleet
unfolding lookup string_eq
fleet-NodupKeys = (refl, (refl, (refl, tt)))

choose_node-fits_example :
    (info : NodeInfo) × (lookup "c" fleet ≡ some info)
    × FitsBeside (free_of info) (taken_of (lookup "c" held)) (amount 20 1 1000)
    × ((j : String) (other : NodeInfo)
        → lookup j fleet ≡ some other
        → holds (remaining (lookup j held) (free_of other)) (amount 20 1 1000) ≡ true
        → ¬ (
            Roomier
              (remaining (lookup j held) (free_of other))
              (remaining (lookup "c" held) (free_of info))))
choose_node-fits_example =
    choose_node-fits held fleet (amount 20 1 1000) "c" fleet-NodupKeys avoids_held
