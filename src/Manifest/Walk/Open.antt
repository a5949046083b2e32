-- ===== src/Manifest/Walk/Open.antt =====
-- Paths whose directories are all in the world (internal/manifest/dir.go), and a directory stored again
-- with one entry written.
use mathlib.Core.Option.{some-injective}
use revika.Base.{
  true, false, some, List, [], ◌∷◌, Bytes, bytes_eq, ◌≡◌, ◌≢◌, ◌⊎◌, inl, inr, refl, sym, ap, ◌∙◌,
  subst, arith, Option-cases, Bool-cases, ◌>>=◌,
}
use revika.Manifest.{is_dir, ReadCap, Entry, DirManifest, lookup, upsert}
use revika.Manifest.Entries.{IsSorted}
use revika.Manifest.Search.{lookup-upsert}
use revika.Manifest.Walk.{DirStore, DirLaws, resolve}

-- Two paths part at some component.
abbrev pub Parts : List Bytes → List Bytes → Type 0
Parts [] q = ⊥
Parts (a ∷ p) [] = ⊥
Parts (a ∷ p) (b ∷ q) = (a ≢ b) ⊎ ((a ≡ b) × Parts p q)

module _ {ℓ} {M : Type ℓ} {W : Type 0} (dirs : DirStore M W) where
  -- Every directory that the path goes through is in the world and in order.
  abbrev pub IsOpen : W → ReadCap → List Bytes → Type ℓ
  IsOpen w c [] = Unit
  IsOpen w c (name ∷ parts) =
      (d : DirManifest M) × (dirs.Holds w c d
        × (IsSorted d.entries
            × ((e : Entry)
                → lookup d name ≡ some e
                → is_dir e.cap.kind ≡ true
                → IsOpen w e.cap parts)))

  -- What was in the world is still there.
  abbrev pub Keeps : W → W → Type ℓ
  Keeps w w' = (c : ReadCap) (d : DirManifest M) → dirs.Holds w c d → dirs.Holds w' c d

  pub IsOpen-Keeps :
      (w w' : W) (c : ReadCap) (parts : List Bytes)
      → Keeps w w'
      → IsOpen w c parts
      → IsOpen w' c parts
  IsOpen-Keeps w w' c [] k o = tt
  IsOpen-Keeps w w' c (name ∷ parts) k (d, (h, (s, rest))) =
      (d, (k c d h, (s, λ e found is. IsOpen-Keeps w w' e.cap parts k (rest e found is))))

  module _ (laws : DirLaws dirs) where
    pub resolve-step :
        (w : W) (c : ReadCap) (d : DirManifest M) (name : Bytes) (parts : List Bytes)
        → dirs.Holds w c d
        → resolve dirs w c (name ∷ parts) ≡ (lookup d name >>= (λ e. resolve dirs w e.cap parts))
    unfolding resolve
    resolve-step w c d name parts h = rw (laws.is_a_dir w c d h, laws.loads w c d h) refl

    pub resolve_leaf :
        (w w' : W) (c : ReadCap) (parts : List Bytes)
        → is_dir c.kind ≡ false
        → resolve dirs w' c parts ≡ resolve dirs w c parts
    unfolding resolve
    resolve_leaf w w' c [] h = refl
    resolve_leaf w w' c (name ∷ parts) h = rw h refl

    -- A path that is open leads to the same cap in any later world.
    pub resolve-Keeps :
        (w w' : W) (c : ReadCap) (parts : List Bytes)
        → Keeps w w'
        → IsOpen w c parts
        → resolve dirs w' c parts ≡ resolve dirs w c parts
    unfolding resolve
    resolve-Keeps w w' c [] k o = refl
    resolve-Keeps w w' c (name ∷ parts) k (d, (h, (s, rest))) =
        rw (resolve-step w c d name parts h, resolve-step w' c d name parts (k c d h))
          (elim (Option-cases (lookup d name)) [
            | inl gone ↦ rw gone refl
            | inr (e, found) ↦ rw found (elim (Bool-cases (is_dir e.cap.kind)) [
              | inl is ↦ resolve-Keeps w w' e.cap parts k (rest e found is)
              | inr leaf ↦ resolve_leaf w w' e.cap parts leaf
            ])
          ])

    pub same_dir :
        (w : W) (c : ReadCap) (d d' : DirManifest M) → dirs.Holds w c d → dirs.Holds w c d' → d ≡ d'
    same_dir w c d d' h h' = some-injective _ _ (sym (laws.loads w c d h) ∙ laws.loads w c d' h')

    -- A directory `d` that was stored again with one entry written.
    pub record Relinked (w : W) (c : ReadCap) (name : Bytes) (to : ReadCap) (w' : W) (c' : ReadCap)
        : Type ℓ where
      pub here : (q : List Bytes) → resolve dirs w' c' (name ∷ q) ≡ resolve dirs w' to q
      pub there :
          (b : Bytes) (q : List Bytes)
          → name ≢ b
          → IsOpen w c (b ∷ q)
          → resolve dirs w' c' (b ∷ q) ≡ resolve dirs w c (b ∷ q)
      pub opens_here : (q : List Bytes) → IsOpen w' to q → IsOpen w' c' (name ∷ q)
      pub opens_there :
          (b : Bytes) (q : List Bytes) → name ≢ b → IsOpen w c (b ∷ q) → IsOpen w' c' (b ∷ q)

    pub upsert-Relinked :
        (w : W) (c : ReadCap) (d : DirManifest M) (e : Entry) (w' : W) (c' : ReadCap)
        → dirs.Holds w c d
        → IsSorted d.entries
        → Keeps w w'
        → dirs.Holds w' c' (upsert d e)
        → Relinked w c e.name e.cap w' c'
    upsert-Relinked w c d e w' c' h s k h' =
        let own : lookup (upsert d e) e.name ≡ some e =
          ground (arith, (lookup-upsert d e e.name s).1.1) in
        let other : (b : Bytes) → e.name ≢ b → lookup (upsert d e) b ≡ lookup d b =
          λ b apart. ground (arith, apart, (lookup-upsert d e b s).1.1) in
        let sorted : IsSorted (upsert d e).entries = (lookup-upsert d e e.name s).0 in
        record {
          here = λ q. resolve-step w' c' (upsert d e) e.name q h' ∙ (rw own refl);
          there = λ b q apart o.
              resolve-step w' c' (upsert d e) b q h'
              ∙ ap (λ r. r >>= (λ x. resolve dirs w' x.cap q)) (other b apart)
              ∙ sym (resolve-step w' c d b q (k c d h))
              ∙ resolve-Keeps w w' c (b ∷ q) k o;
          opens_here = λ q o. (
            upsert d e,
            (
              h',
              (
                sorted,
                λ x found is.
                    subst (λ y. IsOpen w' y.cap q) (some-injective _ _ (sym own ∙ found)) o,
              ),
            ),
          );
          opens_there = λ b q apart o.
              let same = same_dir w c o.0 d o.1.0 h in
              (
                upsert d e,
                (
                  h',
                  (
                    sorted,
                    λ x found is.
                        IsOpen-Keeps w w' x.cap q k
                          (o.1.1.1 x (ap (λ y. lookup y b) same ∙ sym (other b apart) ∙ found) is),
                  ),
                ),
              );
        }
