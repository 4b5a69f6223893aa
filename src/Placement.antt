-- ===== src/Placement.antt =====
-- Which node takes a task, src/looma/orchestrator/resources.py.
-- Bytes and cards are whole numbers; `cpus` is in thousandths of a processor.
pub mod Choice
mod Tests
use looma.Base.{
  or_zero, ltb, leb, eqb, if◌then◌else◌, string_eq, nat_eq, ℕ, ◌+◌, ◌-◌, max, String, Bool, ◌&&◌,
  ◌||◌, Option, none, some, List, [], ◌∷◌,
}
use looma.Base.Dict.{Dict, lookup, values}
use looma.Base.Filter.{filter}
use looma.Base.Sort.{sort_by}

pub record Resources : Type 0 where
  pub vram_bytes : ℕ
  pub ram_bytes : ℕ
  pub cpus : ℕ
  pub gpus : ℕ
  pub disk_bytes : ℕ

-- `Resources.plus`
unfoldable pub plus : Resources → Resources → Resources
plus a b = record {
  vram_bytes = a.vram_bytes + b.vram_bytes;
  ram_bytes = a.ram_bytes + b.ram_bytes;
  cpus = a.cpus + b.cpus;
  gpus = a.gpus + b.gpus;
  disk_bytes = a.disk_bytes + b.disk_bytes;
}

-- What a node says of itself; a missing field is `none`.
pub record NodeInfo : Type 0 where
  pub vram_free_bytes : Option ℕ
  pub ram_bytes : Option ℕ
  pub cpus : Option ℕ
  pub num_gpus : Option ℕ
  pub disk_bytes : Option ℕ

-- `_free_of`
unfoldable pub free_of : NodeInfo → Resources
free_of info = record {
  vram_bytes = or_zero info.vram_free_bytes;
  ram_bytes = or_zero info.ram_bytes;
  cpus = or_zero info.cpus;
  gpus = or_zero info.num_gpus;
  disk_bytes = or_zero info.disk_bytes;
}

-- `_holds`
unfoldable pub holds : Resources → Resources → Bool
holds available wanted =
    leb wanted.vram_bytes available.vram_bytes
    && leb wanted.ram_bytes available.ram_bytes
    && leb wanted.cpus available.cpus
    && leb wanted.gpus available.gpus
    && leb wanted.disk_bytes available.disk_bytes

-- `_subtract`: each difference stops at 0, as `max(0, …)` does.
unfoldable pub subtract : Resources → Resources → Resources
subtract available taken = record {
  vram_bytes = available.vram_bytes - taken.vram_bytes;
  ram_bytes = available.ram_bytes - taken.ram_bytes;
  cpus = available.cpus - taken.cpus;
  gpus = available.gpus - taken.gpus;
  disk_bytes = available.disk_bytes - taken.disk_bytes;
}

-- One dimension that was short: what was asked, and the most that a node has.
pub data Shortage : Type 0 where
  short_vram short_ram short_gpus : (asked best : ℕ) → Shortage

-- An empty list of shortages stands for "no node satisfied every requirement at once".
pub data Reason : Type 0 where
  no_nodes : Reason
  short : List Shortage → Reason

-- `max(free.values(), key=vram)`: the first of the roomiest.
abbrev pub roomiest : Resources → List Resources → Resources
roomiest best [] = best
roomiest best (r ∷ rs) = roomiest (if ltb best.vram_bytes r.vram_bytes then r else best) rs

abbrev pub most_gpus : List Resources → ℕ
most_gpus [] = 0
most_gpus (r ∷ rs) = max r.gpus (most_gpus rs)

abbrev pub lacks : ℕ → ℕ → Shortage → List Shortage → List Shortage
lacks asked best item rest = if ltb 0 asked && ltb best asked then item ∷ rest else rest

-- `_why_nothing_fits`
unfoldable pub why_nothing_fits : List Resources → Resources → Reason
why_nothing_fits [] wanted = no_nodes
why_nothing_fits (r ∷ rs) wanted =
    let best = roomiest r rs in
    let freest = most_gpus (r ∷ rs) in
    short (
      lacks wanted.vram_bytes best.vram_bytes (short_vram wanted.vram_bytes best.vram_bytes) (
        lacks wanted.ram_bytes best.ram_bytes (short_ram wanted.ram_bytes best.ram_bytes)
          (lacks wanted.gpus freest (short_gpus wanted.gpus freest) [])))

abbrev pub remaining : Option Resources → Resources → Resources
remaining none available = available
remaining (some taken) available = subtract available taken

-- What each node has left after what is placed on it.
unfoldable pub free_table : Dict String Resources → Dict String NodeInfo → Dict String Resources
free_table reserved [] = []
free_table reserved ((id, info) ∷ nodes) =
    (id, remaining (lookup id reserved) (free_of info)) ∷ free_table reserved nodes

-- The sort by `(gpus, vram, ram)`, the most first.
abbrev pub emptier : String × Resources → String × Resources → Bool
emptier (_, a) (_, b) =
    ltb b.gpus a.gpus
    || (eqb a.gpus b.gpus
        && (ltb b.vram_bytes a.vram_bytes
            || (eqb a.vram_bytes b.vram_bytes && ltb b.ram_bytes a.ram_bytes)))

pub data Verdict : Type 0 where
  placed : String → Verdict
  refused : Reason → Verdict

abbrev pub first_fitting : Dict String Resources → Resources → List (String × Resources) → Verdict
first_fitting free wanted [] = refused (why_nothing_fits (values free) wanted)
first_fitting free wanted ((id, _) ∷ _) = placed id

abbrev pub fitting : Resources → Dict String Resources → List (String × Resources)
fitting wanted free = sort_by emptier (filter (λ entry. holds entry.1 wanted) free)

-- `choose_node`
unfoldable pub choose_node : Dict String NodeInfo → Resources → Dict String Resources → Verdict
unfolding free_table
choose_node nodes wanted reserved =
    let free = free_table reserved nodes in first_fitting free wanted (fitting wanted free)
