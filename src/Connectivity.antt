-- ===== src/Connectivity.antt =====
-- Which nodes can meet directly, src/looma/orchestrator/connectivity.py.
-- `direct_share` is in millionths. A node without a name has the empty text.
pub mod Meeting
mod Tests
use looma.Base.Sort.{sort_by}
use looma.Base.Texts.{split, has_text}
use looma.Base.{
  ltb, eqb, if◌then◌else◌, ◌==◌, string_eq, nat_eq, is_nil, ℕ, String, Bool, true, false, not, ◌&&◌,
  ◌||◌, Option, none, some, List, [], ◌∷◌, ◌++◌,
}

pub record Node : Type 0 where
  pub node_id : String
  pub reachable : Bool
  pub symmetric_nat : Bool
  pub direct_share : ℕ
  pub vram_free_bytes : ℕ

-- `can_meet`
pub can_meet : Node → Node → Bool
can_meet a b = if a.reachable || b.reachable then true else not (a.symmetric_nat || b.symmetric_nat)

abbrev pub flag : Bool → ℕ
flag b = if b then 1 else 0

-- The first items of `score`, compared from the left, and behind them the free memory.
pub meshier : Node → Node → Bool
meshier a b =
    ltb (flag b.reachable) (flag a.reachable)
    || (eqb (flag a.reachable) (flag b.reachable)
        && (ltb (flag (not b.symmetric_nat)) (flag (not a.symmetric_nat))
            || (eqb (flag (not a.symmetric_nat)) (flag (not b.symmetric_nat))
                && (ltb b.direct_share a.direct_share
                    || (eqb a.direct_share b.direct_share
                        && ltb b.vram_free_bytes a.vram_free_bytes)))))

-- `prefer_meshy`
pub prefer_meshy : List Node → List Node
unfolding meshier
prefer_meshy nodes = sort_by meshier nodes

-- `a.get("node_id") and a.get("node_id") == b.get("node_id")`
abbrev pub same_machine : Node → Node → Bool
same_machine a b = not (a.node_id == "") && a.node_id == b.node_id

-- The inner loop of `pairs_needing_relay`, for one node and those after it.
pub stuck_with : Node → List Node → List (String × String)
unfolding can_meet
stuck_with a [] = []
stuck_with a (b ∷ rest) =
    let others = stuck_with a rest in
    if same_machine a b
    then others
    else if not (can_meet a b)
    then (a.node_id, b.node_id) ∷ others
    else others

-- `pairs_needing_relay`
pub pairs_needing_relay : List Node → List (String × String)
unfolding stuck_with
pairs_needing_relay [] = []
pairs_needing_relay (a ∷ rest) = stuck_with a rest ++ pairs_needing_relay rest

pub data MeetPath : Type 0 where
  direct relay none_at_all : MeetPath

-- What `verdict` answers; the words of `why` are left out.
pub record Verdict : Type 0 where
  pub ok : Bool
  pub path : MeetPath
  pub relayed_pairs : List (String × String)

-- `verdict`
pub verdict : List Node → Bool → Verdict
unfolding pairs_needing_relay
verdict nodes relay_available =
    let stuck = pairs_needing_relay nodes in
    if is_nil stuck
    then record { ok = true; path = direct; relayed_pairs = [] }
    else if relay_available
    then record { ok = true; path = relay; relayed_pairs = stuck }
    else record { ok = false; path = none_at_all; relayed_pairs = stuck }

module _ (is_local : String → Option Bool) where
  -- The loop of `dialable_from_outside` over the pieces. `is_local` is what `ipaddress` says of one:
  -- none if it is no address, else whether it is private, of the loopback or of the link.
  abbrev ip_of : Option Bool → Bool
  ip_of none = false
  ip_of (some near) = not near

  unfoldable pub scan_pieces : List String → Bool
  scan_pieces [] = true
  scan_pieces (piece ∷ []) = true
  scan_pieces (piece ∷ next ∷ rest) =
      let later = scan_pieces (next ∷ rest) in
      if piece == "ip4" || piece == "ip6" then ip_of (is_local next) else later

  -- `dialable_from_outside`
  unfoldable pub dialable_from_outside : String → Bool
  unfolding scan_pieces
  dialable_from_outside addr =
      if has_text "/p2p-circuit" addr then false else scan_pieces (split 47 addr)

  -- `reachable_from`
  unfoldable pub reachable_from : List String → Bool
  unfolding dialable_from_outside
  reachable_from [] = false
  reachable_from (addr ∷ addrs) = dialable_from_outside addr || reachable_from addrs
