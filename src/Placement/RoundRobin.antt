-- ===== src/Placement/RoundRobin.antt =====
-- As many consecutive picks as there are usable candidates land on distinct nodes.
use mathlib.Core.Option.{some-injective}
use native.Mathlib.Nat.{div-add-mod, mul-le-mul_left, mul-suc, mod-lt}
use revika.Base.{
  ℕ, zero, suc, ◌+◌, ◌*◌, ◌/◌, ◌%◌, ◌<◌, ◌≤◌, ◌≡◌, ◌≢◌, refl, subst, sym, ap, ◌∙◌, false, Option,
  none, some, List, [], ◌∷◌, arith, eqb, leb, length, get_elem?, get_elem?-some, Bool-cases, inl,
  inr, All, leb→le,
}
use revika.Placement.{NodeId, Node, usable_nodes, id_of, pick, picks}

-- The nodes have distinct identifiers.
abbrev pub IsDistinct : List Node → Type 0
IsDistinct [] = Unit
IsDistinct (n ∷ nodes) = All (λ m. m.id ≢ n.id) nodes × IsDistinct nodes

mod_apart : (n i d : ℕ) → 0 < d → d < n → (i + d) % n ≢ i % n
mod_apart n i d p h same =
    let a = div-add-mod i n in
    let b = div-add-mod (i + d) n in
    elim (Bool-cases (leb ((i + d) / n) (i / n))) [
      | inl low ↦
          let c = mul-le-mul_left n (leb→le ((i + d) / n) (i / n) low) in
          omega (arith, a, b, c, same)
      | inr high ↦
          let e : suc (i / n) ≤ (i + d) / n = ground arith in
          let c = mul-le-mul_left n e in
          let f : n * suc (i / n) ≡ n * (i / n) + n = mul-suc n (i / n) in
          omega (arith, a, b, c, f, same)
    ]

none-some : {A : Type 0} {x : A} → none ≢ some x
none-some h = ground arith

get-All :
    (P : Node → Type 0) (nodes : List Node) (i : ℕ) (m : Node)
    → All P nodes
    → get_elem? nodes i ≡ some m
    → P m
get-All P [] i m a h = absurd (none-some h)
get-All P (n ∷ nodes) zero m a h = subst P (some-injective _ _ h) a.0
get-All P (n ∷ nodes) (suc i) m a h = get-All P nodes i m a.1 h

get-distinct :
    (nodes : List Node) (i j : ℕ) (m n : Node)
    → IsDistinct nodes
    → i ≢ j
    → get_elem? nodes i ≡ some m
    → get_elem? nodes j ≡ some n
    → m.id ≢ n.id
get-distinct [] i j m n d ne h k same = none-some h
get-distinct (x ∷ nodes) zero zero m n d ne h k same = ne refl
get-distinct (x ∷ nodes) zero (suc j) m n d ne h k same =
    get-All (λ y. y.id ≢ x.id) nodes j n d.0 k
      (sym same ∙ sym (ap (λ y. y.id) (some-injective _ _ h)))
get-distinct (x ∷ nodes) (suc i) zero m n d ne h k same =
    get-All (λ y. y.id ≢ x.id) nodes i m d.0 h (same ∙ sym (ap (λ y. y.id) (some-injective _ _ k)))
get-distinct (x ∷ nodes) (suc i) (suc j) m n d ne h k same =
    get-distinct nodes i j m n d.1 (λ e. ne (ap suc e)) h k same

-- No two answers are the same.
abbrev pub Apart : List (Option NodeId) → Type 0
Apart [] = Unit
Apart (x ∷ xs) = All (λ y. y ≢ x) xs × Apart xs

module _ (candidates : List Node) (distinct : IsDistinct (usable_nodes candidates)) where
  abbrev count : ℕ
  count = length (usable_nodes candidates)

  pick_some :
      (next : ℕ)
      → 0 < count
      → pick next candidates
        ≡ (id_of (get_elem? (usable_nodes candidates) (next % count)), suc next)
  unfolding pick
  pick_some next p = let e : eqb count 0 ≡ false = ground arith in rw e refl

  ids_apart :
      (i d : ℕ)
      → 0 < d
      → d < count
      → id_of (get_elem? (usable_nodes candidates) ((i + d) % count))
        ≢ id_of (get_elem? (usable_nodes candidates) (i % count))
  ids_apart i d p h =
      let a = get_elem?-some (usable_nodes candidates) (i % count) (mod-lt i (omega arith)) in
      let b =
        get_elem?-some (usable_nodes candidates) ((i + d) % count) (mod-lt (i + d) (omega arith)) in
      let ne =
        get-distinct (usable_nodes candidates) ((i + d) % count) (i % count) b.0 a.0 distinct
          (mod_apart count i d p h) b.1 a.1 in
      rw (a.1, b.1) (λ q. ne (some-injective _ _ q))

  ahead-Apart :
      (i d k : ℕ)
      → 0 < d
      → d + k ≤ count
      → All
          (λ y. y ≢ id_of (get_elem? (usable_nodes candidates) (i % count)))
          (picks (i + d) candidates k)
  unfolding picks
  ahead-Apart i d zero p h = tt
  ahead-Apart i d (suc k) p h = rw (pick_some (i + d) (omega arith)) (
    ids_apart i d p (omega arith),
    subst
        (λ n.
          All (λ y. y ≢ id_of (get_elem? (usable_nodes candidates) (i % count)))
            (picks n candidates k))
        (omega arith) (ahead-Apart i (suc d) k (omega arith) (omega arith)),
  )

  -- As long as there are no more calls than usable candidates, and these have distinct identifiers,
  -- consecutive picks from any cursor name distinct nodes.
  pub picks-Apart : (next k : ℕ) → k ≤ count → Apart (picks next candidates k)
  unfolding picks
  picks-Apart next zero h = tt
  picks-Apart next (suc k) h = rw (pick_some next (omega arith)) (
    subst
        (λ n.
          All (λ y. y ≢ id_of (get_elem? (usable_nodes candidates) (next % count)))
            (picks n candidates k))
        (omega arith) (ahead-Apart next 1 k (omega arith) (omega arith)),
    picks-Apart (suc next) k (omega arith),
  )
