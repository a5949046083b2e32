-- ===== src/Placement.antt =====
-- internal/placement: the candidates for a shard (placement.go) and the round-robin selector
-- (roundrobin.go). Identifiers and domains are the strings of their bytes; weights and free space
-- below 0 stand as 0, which the code treats in the same way.
pub mod RoundRobin
use revika.Base.{
  ℕ, zero, suc, ◌+◌, ◌%◌, Bool, true, false, not, Option, none, some, List, [], ◌∷◌, eqb, length,
  get_elem?, if◌then◌else◌, Bytes,
}

abbrev pub NodeId : Type 0
NodeId = Bytes

pub record Node : Type 0 where
  pub id : NodeId
  pub domain : Bytes
  pub free : ℕ
  pub weight : ℕ
  pub down : Bool

-- `domain`: a node with no declared domain is its own.
unfoldable pub domain_of : Node → Bytes
domain_of n = if eqb (length n.domain) 0 then n.id else n.domain

-- `weight`
unfoldable pub weight_of : Node → ℕ
weight_of n = if eqb n.weight 0 then 1 else n.weight

unfoldable pub usable : Node → Bool
usable n = not n.down

unfoldable pub usable_nodes : List Node → List Node
unfolding usable
usable_nodes [] = []
usable_nodes (n ∷ nodes) = let rest = usable_nodes nodes in if usable n then n ∷ rest else rest

-- The node at an index that is in range.
abbrev pub id_of : Option Node → Option NodeId
id_of none = none
id_of (some n) = some n.id

-- `RoundRobin.Pick`: the pick, which is `none` for ErrNoCandidates, and the new cursor.
unfoldable pub pick : ℕ → List Node → Option NodeId × ℕ
pick next candidates =
    let nodes = usable_nodes candidates in
    if eqb (length nodes) 0
    then (none, next)
    else (id_of (get_elem? nodes (next % length nodes)), suc next)

-- The picks of a number of calls over the same candidates.
unfoldable pub picks : ℕ → List Node → ℕ → List (Option NodeId)
picks next candidates zero = []
picks next candidates (suc n) = let r = pick next candidates in r.0 ∷ picks r.1 candidates n
