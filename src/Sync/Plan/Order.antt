-- ===== src/Sync/Plan/Order.antt =====
-- The plan holds the decision of every path, in an order that is safe to apply.
use mathlib.Core.List.{filter_map, Perm}
use mathlib.Core.List.Perm
use revika.Base.{
  ℕ, ◌≤◌, ◌≡◌, refl, Bool, true, false, Option, List, [], ◌∷◌, arith, All, Bool-cases, inl, inr,
}
use revika.Sync.State.{FilePath, depth}
use revika.Sync.Decide.{ConflictPolicy, Op}
use revika.Sync.Plan.{Snapshots, decide_path, is_delete, less, place, sort_stable, collect, plan}

-- What may stand before what: creations and edits before deletions; of creations the shallower
-- path first, of deletions the deeper one.
abbrev pub InOrder : Bool → ℕ → Bool → ℕ → Type 0
InOrder false m false n = m ≤ n
InOrder false m true n = Unit
InOrder true m false n = ⊥
InOrder true m true n = n ≤ m

abbrev pub Precedes : Op → Op → Type 0
Precedes a b = InOrder (is_delete a.kind) (depth a.path) (is_delete b.kind) (depth b.path)

abbrev pub Sorted : List Op → Type 0
Sorted [] = Unit
Sorted (a ∷ ops) = All (Precedes a) ops × Sorted ops

InOrder-trans :
    (p : Bool) (l : ℕ) (q : Bool) (m : ℕ) (r : Bool) (n : ℕ)
    → InOrder p l q m
    → InOrder q m r n
    → InOrder p l r n
InOrder-trans p l q m r n h k = ground arith

less-Precedes : (a b : Op) → less a b ≡ true → Precedes a b
unfolding less
less-Precedes a b h = ground arith

not_less-Precedes : (a b : Op) → less b a ≡ false → Precedes a b
unfolding less
not_less-Precedes a b h = ground arith

Precedes-trans : (a b c : Op) → Precedes a b → Precedes b c → Precedes a c
Precedes-trans a b c h k =
    InOrder-trans (is_delete a.kind) (depth a.path) (is_delete b.kind) (depth b.path)
      (is_delete c.kind) (depth c.path) h k

All-Precedes :
    (a b : Op) (ops : List Op) → Precedes a b → All (Precedes b) ops → All (Precedes a) ops
All-Precedes a b [] h all = tt
All-Precedes a b (c ∷ ops) h all = (Precedes-trans a b c h all.0, All-Precedes a b ops h all.1)

All-place :
    (a b : Op) (ops : List Op)
    → Precedes b a
    → All (Precedes b) ops
    → All (Precedes b) (place a ops)
unfolding place
All-place a b [] h all = (h, tt)
All-place a b (c ∷ ops) h all = elim (Bool-cases (less c a)) [
  | inl below ↦ rw below (all.0, All-place a b ops h all.1)
  | inr above ↦ rw above (h, all)
]

place-Sorted : (a : Op) (ops : List Op) → Sorted ops → Sorted (place a ops)
unfolding place
place-Sorted a [] s = (tt, tt)
place-Sorted a (b ∷ ops) s = elim (Bool-cases (less b a)) [
  | inl below ↦ rw below (All-place a b ops (less-Precedes b a below) s.0, place-Sorted a ops s.1)
  | inr above ↦ let h = not_less-Precedes a b above in rw above ((h, All-Precedes a b ops h s.0), s)
]

sort_stable-Sorted : (ops : List Op) → Sorted (sort_stable ops)
unfolding sort_stable
sort_stable-Sorted [] = tt
sort_stable-Sorted (a ∷ ops) = place-Sorted a (sort_stable ops) (sort_stable-Sorted ops)

place-perm : (a : Op) (ops : List Op) → Perm (place a ops) (a ∷ ops)
unfolding place
place-perm a [] = Perm.refl (a ∷ [])
place-perm a (b ∷ ops) = elim (Bool-cases (less b a)) [
  | inl below ↦ rw below (Perm.trans (Perm.cons b (place-perm a ops)) (Perm.swap a b ops))
  | inr above ↦ rw above (Perm.refl (a ∷ b ∷ ops))
]

sort_stable-perm : (ops : List Op) → Perm (sort_stable ops) ops
unfolding sort_stable
sort_stable-perm [] = Perm.refl []
sort_stable-perm (a ∷ ops) =
    Perm.trans (place-perm a (sort_stable ops)) (Perm.cons a (sort_stable-perm ops))

abbrev pub decision : ConflictPolicy → Snapshots → FilePath → Option Op
decision policy s p = (decide_path policy s p).0

collect-eq-filter_map :
    (policy : ConflictPolicy) (s : Snapshots) (paths : List FilePath)
    → collect policy s paths ≡ filter_map (decision policy s) paths
unfolding collect filter_map
collect-eq-filter_map policy s [] = refl
collect-eq-filter_map policy s (p ∷ paths) = ground (arith, collect-eq-filter_map policy s paths)

-- The plan holds the decision of each path, as often as the path is visited, and nothing else.
-- Creations and edits come before deletions, parents before what is below them, and the deletion
-- of what is below a directory before that of the directory.
pub plan-decisions :
    (policy : ConflictPolicy) (s : Snapshots) (paths : List FilePath)
    → Perm (plan policy s paths) (filter_map (decision policy s) paths)
      × Sorted (plan policy s paths)
unfolding plan
plan-decisions policy s paths = (
  rw (← collect-eq-filter_map policy s paths) (sort_stable-perm (collect policy s paths)),
  sort_stable-Sorted (collect policy s paths),
)

-- The order in which the maps are ranged over changes the order of the plan at most.
pub plan-perm :
    (policy : ConflictPolicy) (s : Snapshots) (paths paths' : List FilePath)
    → Perm paths paths'
    → Perm (plan policy s paths) (plan policy s paths')
plan-perm policy s paths paths' h = Perm.trans (plan-decisions policy s paths).0 (
    Perm.trans (Perm.filter_map (decision policy s) h)
      (Perm.symm (plan-decisions policy s paths').0))
