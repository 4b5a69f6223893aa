-- ===== src/Hub/Life/Changes.antt =====
-- How a table of tasks may change in one step, src/looma/orchestrator/agents.py.
use mathlib.Core.Path.{subst, subst₂}
use looma.Base.{◌∙◌, string_eq, nat_eq, String, ◌≡◌, refl, sym, ap, Option, none, some, arith}
use looma.Base.Dict.{
  insert, lookup, erase, Dict, NodupKeys, lookup-insert, lookup-erase, insert-NodupKeys,
  erase-NodupKeys,
}
use looma.Hub.{TaskRecord}
use looma.Hub.Life.{
  SameTask, Kind, adds, asks, tells, drops, Step, absent, added, stays, waits, adopted, moves, kept,
  leaves,
}

pub SameTask-refl : (t : TaskRecord) → SameTask t t
SameTask-refl t = record {
  same_id = refl;
  same_node = refl;
  same_command = refl;
  same_resources = refl;
  same_group = refl;
  same_rank = refl;
  same_start = refl;
}

SameTask-trans : {t u v : TaskRecord} → SameTask t u → SameTask u v → SameTask t v
SameTask-trans a b = record {
  same_id = b.same_id ∙ a.same_id;
  same_node = b.same_node ∙ a.same_node;
  same_command = b.same_command ∙ a.same_command;
  same_resources = b.same_resources ∙ a.same_resources;
  same_group = b.same_group ∙ a.same_group;
  same_rank = b.same_rank ∙ a.same_rank;
  same_start = b.same_start ∙ a.same_start;
}

Step-refl : (k : Kind) (o : Option TaskRecord) → Step k o o
Step-refl k none = absent k
Step-refl adds (some t) = stays t
Step-refl asks (some t) = waits t
Step-refl tells (some t) = moves (SameTask-refl t)
Step-refl drops (some t) = kept t

Step-trans : {k : Kind} {o p q : Option TaskRecord} → Step k o p → Step k p q → Step k o q
Step-trans (absent k) s = s
Step-trans (added t new) (stays _) = added t new
Step-trans (stays t) s = s
Step-trans (waits t) s = s
Step-trans (adopted t) (moves {u = u} _) = adopted u
Step-trans (moves a) (moves b) = moves (SameTask-trans a b)
Step-trans (kept t) s = s
Step-trans (leaves t) (absent _) = leaves t

-- From one table to another by an operation of a kind.
abbrev pub Evolves : Kind → Dict String TaskRecord → Dict String TaskRecord → Type 0
Evolves k d e = NodupKeys d → NodupKeys e × ((id : String) → Step k (lookup id d) (lookup id e))

pub Evolves-refl : (k : Kind) (d : Dict String TaskRecord) → Evolves k d d
Evolves-refl k d u = (u, λ id. Step-refl k (lookup id d))

pub Evolves-trans :
    {k : Kind} (d e f : Dict String TaskRecord) → Evolves k d e → Evolves k e f → Evolves k d f
Evolves-trans d e f p q u =
    let (v, first) = p u in let (w, on) = q v in (w, λ id. Step-trans (first id) (on id))

pub Evolves-to :
    {k : Kind} (d : Dict String TaskRecord) {e f : Dict String TaskRecord}
    → f ≡ e
    → Evolves k d e
    → Evolves k d f
Evolves-to {k = k} d same p = subst (Evolves k d) (sym same) p

-- One step at one task.
Step-insert :
    (kind : Kind) (k id : String) (t : TaskRecord) (d : Dict String TaskRecord)
    → Step kind (lookup k d) (some t)
    → Step kind (lookup id d) (lookup id (insert k t d))
Step-insert kind k id t d s = elim (string_eq.dec id k) [
  | yes same ↦
      let put : some t ≡ lookup id (insert k t d) = ground (arith, same, lookup-insert id k t d) in
      subst₂ (Step kind) (ap (λ j. lookup j d) (sym same)) put s
  | no differ ↦
      subst (Step kind (lookup id d)) (ground (arith, differ, lookup-insert id k t d))
        (Step-refl kind (lookup id d))
]

pub Evolves-insert :
    (kind : Kind) (k : String) (t : TaskRecord) (d : Dict String TaskRecord)
    → Step kind (lookup k d) (some t)
    → Evolves kind d (insert k t d)
Evolves-insert kind k t d s u = (insert-NodupKeys k t d u, λ id. Step-insert kind k id t d s)

Step-none : (o : Option TaskRecord) → Step drops o none
Step-none none = absent drops
Step-none (some t) = leaves t

pub Evolves-erase : (k : String) (d : Dict String TaskRecord) → Evolves drops d (erase k d)
Evolves-erase k d u = (
  erase-NodupKeys k d u,
  λ id. elim (string_eq.dec id k) [
    | yes same ↦
        subst (Step drops (lookup id d)) (ground (arith, same, lookup-erase id k d u))
          (Step-none (lookup id d))
    | no differ ↦
        subst (Step drops (lookup id d)) (ground (arith, differ, lookup-erase id k d u))
          (Step-refl drops (lookup id d))
  ],
)
