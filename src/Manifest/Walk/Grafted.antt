-- ===== src/Manifest/Walk/Grafted.antt =====
-- What a path leads to after `Graft` (internal/manifest/dir.go).
use mathlib.Core.Option.{some-injective}
use revika.Base.{
  true, Option, none, some, List, [], ◌∷◌, Bytes, ◌≡◌, inl, inr, refl, sym, ap, ◌∙◌, subst,
  Bool-cases, All,
}
use revika.Manifest.{is_dir, ReadCap, StatCache, Entry, DirManifest, new_dir, lookup, upsert}
use revika.Manifest.Entries.{IsSorted, All-placed}
use revika.Manifest.Search.{lookup-upsert}
use revika.Manifest.Walk.{
  DirStore, DirLaws, AllFit, dir_entry, child_entry, resolve, Rewritten, subdir_or_new, relink,
  below, graft_leaf, graft,
}
use revika.Manifest.Walk.Open.{
  Parts, IsOpen, Keeps, IsOpen-Keeps, resolve-step, resolve-Keeps, same_dir, Relinked,
  upsert-Relinked,
}

pub lookup-new_dir : {M : Type 0} (attrs : M) (name : Bytes) → lookup (new_dir attrs) name ≡ none
unfolding lookup
lookup-new_dir attrs name = refl

module _ {M : Type 0} {W : Type 0} (dirs : DirStore M W) (laws : DirLaws dirs) (no_attrs : M) where
  pub upsert-AllFit :
      (d : DirManifest M) (e : Entry)
      → dirs.Fits e.cap
      → dirs.IsText e.name
      → AllFit dirs d
      → AllFit dirs (upsert d e)
  unfolding upsert
  upsert-AllFit d e f t h =
      All-placed (λ x. dirs.Fits x.cap × dirs.IsText x.name) e d.entries (f, t) h

  pub store-Keeps : (w : W) (d : DirManifest M) → Keeps dirs w (dirs.store_dir w d).1
  store-Keeps w d c d' h = laws.keeps w d' d c h

  -- What a change at `parts` does, after which the path leads to `goal`.
  pub record Grafts (w : W) (c : ReadCap) (parts : List Bytes) (goal : Option ReadCap)
      (c' : ReadCap) (w' : W) : Type 0 where
    pub keeps : Keeps dirs w w'
    pub fits : dirs.Fits c'
    pub reaches : resolve dirs w' c' parts ≡ goal
    pub opens : IsOpen dirs w' c' parts
    pub frame :
        (q : List Bytes)
        → Parts parts q
        → IsOpen dirs w c q
        → (resolve dirs w' c' q ≡ resolve dirs w c q) × IsOpen dirs w' c' q

  -- The directory that the path goes on in: the one that is there, or a new one.
  pub record Sub (w : W) (c : ReadCap) (name : Bytes) (c1 : ReadCap) (w1 : W) : Type 0 where
    pub text : dirs.IsText name
    pub keeps : Keeps dirs w w1
    pub opens : (q : List Bytes) → IsOpen dirs w c (name ∷ q) → IsOpen dirs w1 c1 q
    pub same :
        (b : Bytes) (q : List Bytes) → resolve dirs w1 c1 (b ∷ q) ≡ resolve dirs w c (name ∷ b ∷ q)

  pub there-Sub :
      (w : W) (c : ReadCap) (d : DirManifest M) (name : Bytes) (e : Entry)
      → dirs.Holds w c d
      → lookup d name ≡ some e
      → is_dir e.cap.kind ≡ true
      → dirs.IsText name
      → Sub w c name e.cap w
  there-Sub w c d name e h found is text = record {
    text = text;
    keeps = λ x y k. k;
    opens = λ q o.
        let same = same_dir dirs laws w c o.0 d o.1.0 h in
        o.1.1.1 e (ap (λ y. lookup y name) same ∙ found) is;
    same = λ b q. sym (resolve-step dirs laws w c d name (b ∷ q) h ∙ (rw found refl));
  }

  IsOpen-new_dir :
      (w : W) (c : ReadCap)
      → dirs.Holds w c (new_dir no_attrs)
      → (q : List Bytes) → IsOpen dirs w c q
  IsOpen-new_dir w c h [] = tt
  IsOpen-new_dir w c h (b ∷ q) = (
    new_dir no_attrs,
    (
      h,
      (
        tt,
        λ e found is.
            absurd (let no : none ≡ some e = sym (lookup-new_dir no_attrs b) ∙ found in cc),
      ),
    ),
  )

  new-Sub :
      (w : W) (c : ReadCap) (d : DirManifest M) (name : Bytes) (c1 : ReadCap)
      → dirs.Holds w c d
      → lookup d name ≡ none
      → (dirs.store_dir w (new_dir no_attrs)).0 ≡ some c1
      → dirs.IsText name
      → Sub w c name c1 (dirs.store_dir w (new_dir no_attrs)).1
  new-Sub w c d name c1 h gone stored text =
      let h1 = (laws.stores w (new_dir no_attrs) c1 tt tt stored).0 in
      let w1 : W = (dirs.store_dir w (new_dir no_attrs)).1 in
      let empty : (b : Bytes) → lookup (new_dir no_attrs) b ≡ none = lookup-new_dir no_attrs in
      record {
        text = text;
        keeps = store-Keeps w (new_dir no_attrs);
        opens = λ q o. IsOpen-new_dir w1 c1 h1 q;
        same = λ b q.
            rw
              (
                resolve-step dirs laws w1 c1 (new_dir no_attrs) b q h1,
                empty b,
                resolve-step dirs laws w c d name (b ∷ q) h,
                gone,
              )
              refl;
      }

  subdir-Sub :
      (w : W) (c : ReadCap) (d : DirManifest M) (name : Bytes) (o : Option Entry) (c1 : ReadCap)
      → dirs.Holds w c d
      → lookup d name ≡ o
      → (subdir_or_new dirs no_attrs w o).0 ≡ some c1
      → dirs.IsText name
      → Sub w c name c1 (subdir_or_new dirs no_attrs w o).1
  subdir-Sub w c d name none c1 h found e text = new-Sub w c d name c1 h found e text
  subdir-Sub w c d name (some x) c1 h found e text = elim (Bool-cases (is_dir x.cap.kind)) [
    | inl is ↦
        let same : x.cap ≡ c1 = some-injective _ _ (rw is at e) in
        rw is (subst (λ y. Sub w c name y w) same (there-Sub w c d name x h found is text))
    | inr leaf ↦ absurd (let no : none ≡ some c1 = rw leaf at e in cc)
  ]

  pub leaf_frame :
      (w : W) (c : ReadCap) (name : Bytes) (c' : ReadCap) (w' : W) (child : ReadCap)
      (q : List Bytes)
      → Parts (name ∷ []) q
      → IsOpen dirs w c q
      → Relinked dirs laws w c name child w' c'
      → (resolve dirs w' c' q ≡ resolve dirs w c q) × IsOpen dirs w' c' q
  leaf_frame w c name c' w' child [] p o link = absurd p
  leaf_frame w c name c' w' child (b ∷ q) (inl apart) o link =
      (link.there b q apart o, link.opens_there b q apart o)
  leaf_frame w c name c' w' child (b ∷ q) (inr same) o link = absurd same.1

  leaf-Grafts :
      (w : W) (c : ReadCap) (name : Bytes) (child : ReadCap) (stat : StatCache) (c' : ReadCap)
      (o : IsOpen dirs w c (name ∷ []))
      → dirs.Fits child
      → dirs.IsText name
      → (graft_leaf dirs no_attrs w name child stat (some o.0)).0 ≡ some c'
      → Grafts w c
          (name ∷ [])
          (some child)
          c'
          (graft_leaf dirs no_attrs w name child stat (some o.0)).1
  leaf-Grafts w c name child stat c' (d, (h, (sorted, rest))) fit text stored =
      let e : Entry = child_entry name child stat in
      let w' : W = (dirs.store_dir w (upsert d e)).1 in
      let (h', fits) =
        laws.stores w (upsert d e) c' (lookup-upsert d e name sorted).0
          (upsert-AllFit d e fit text (laws.fitting w c d h)) stored in
      let link = upsert-Relinked dirs laws w c d e w' c' h sorted (store-Keeps w (upsert d e)) h' in
      record {
        keeps = store-Keeps w (upsert d e);
        fits = fits;
        reaches = link.here [] ∙ (unfold resolve in refl);
        opens = link.opens_here [] tt;
        frame = λ q p o. leaf_frame w c name c' w' child q p o link;
      }

  below_frame :
      (w : W) (c : ReadCap) (name next : Bytes) (parts : List Bytes) (goal : Option ReadCap)
      (c1 : ReadCap) (w1 : W) (c2 : ReadCap) (w2 : W) (c' : ReadCap) (w' : W)
      → Sub w c name c1 w1
      → Grafts w1 c1 (next ∷ parts) goal c2 w2
      → Keeps dirs w2 w'
      → Relinked dirs laws w c name c2 w' c'
      → (q : List Bytes) → Parts (name ∷ next ∷ parts) q
      → IsOpen dirs w c q
      → (resolve dirs w' c' q ≡ resolve dirs w c q) × IsOpen dirs w' c' q
  below_frame w c name next parts goal c1 w1 c2 w2 c' w' sub g last link [] p o = absurd p
  below_frame w c name next parts goal c1 w1 c2 w2 c' w' sub g last link (b ∷ q) (inl apart) o =
      (link.there b q apart o, link.opens_there b q apart o)
  below_frame w c name next parts goal c1 w1 c2 w2 c' w' sub g last link (b ∷ []) (inr p) o =
      absurd p.1
  below_frame w c name next parts goal c1 w1 c2 w2 c' w' sub g last link (b ∷ b2 ∷ q) (inr p) o =
      let f =
        λ (o' : IsOpen dirs w c (name ∷ b2 ∷ q)). g.frame (b2 ∷ q) p.1 (sub.opens (b2 ∷ q) o') in
      subst
        (λ n.
          IsOpen dirs w c (n ∷ b2 ∷ q)
          → (resolve dirs w' c' (n ∷ b2 ∷ q) ≡ resolve dirs w c (n ∷ b2 ∷ q))
            × IsOpen dirs w' c' (n ∷ b2 ∷ q))
        p.0
        (λ o'. (
          link.here (b2 ∷ q)
              ∙ resolve-Keeps dirs laws w2 w' c2 (b2 ∷ q) last (f o').1
              ∙ (f o').0
              ∙ sub.same b2 q,
          link.opens_here (b2 ∷ q) (IsOpen-Keeps dirs w2 w' c2 (b2 ∷ q) last (f o').1),
        ))
        o

  below-Grafts :
      (w : W) (c : ReadCap) (d : DirManifest M) (name next : Bytes) (parts : List Bytes)
      (goal : Option ReadCap) (c1 : ReadCap) (w1 : W) (r : Rewritten dirs) (c' : ReadCap)
      → dirs.Holds w c d
      → IsSorted d.entries
      → Sub w c name c1 w1
      → ((c2 : ReadCap) → r.0 ≡ some c2 → Grafts w1 c1 (next ∷ parts) goal c2 r.1)
      → (relink dirs d name r).0 ≡ some c'
      → Grafts w c (name ∷ next ∷ parts) goal c' (relink dirs d name r).1
  below-Grafts w c d name next parts goal c1 w1 (none, w2) c' h sorted sub more stored =
      absurd (cc stored)
  below-Grafts w c d name next parts goal c1 w1 (some c2, w2) c' h sorted sub more stored =
      let g = more c2 refl in
      let e : Entry = dir_entry name c2 in
      let w' : W = (dirs.store_dir w2 (upsert d e)).1 in
      let (h', fits) =
        laws.stores w2 (upsert d e) c' (lookup-upsert d e name sorted).0
          (upsert-AllFit d e g.fits sub.text (laws.fitting w c d h)) stored in
      let last : Keeps dirs w2 w' = store-Keeps w2 (upsert d e) in
      let all : Keeps dirs w w' = λ x y k. last x y (g.keeps x y (sub.keeps x y k)) in
      let link = upsert-Relinked dirs laws w c d e w' c' h sorted all h' in
      record {
        keeps = all;
        fits = fits;
        reaches =
            link.here (next ∷ parts)
            ∙ resolve-Keeps dirs laws w2 w' c2 (next ∷ parts) last g.opens
            ∙ g.reaches;
        opens =
            link.opens_here (next ∷ parts) (IsOpen-Keeps dirs w2 w' c2 (next ∷ parts) last g.opens);
        frame =
            λ q p o. below_frame w c name next parts goal c1 w1 c2 w2 c' w' sub g last link q p o;
      }

  pub graft_below-Grafts :
      (w : W) (c : ReadCap) (d : DirManifest M) (name next : Bytes) (parts : List Bytes)
      (goal : Option ReadCap) (rest : W → ReadCap → Rewritten dirs) (r : Rewritten dirs)
      (c' : ReadCap)
      → dirs.Holds w c d
      → IsSorted d.entries
      → ((c1 : ReadCap) → r.0 ≡ some c1 → Sub w c name c1 r.1)
      → ((c1 : ReadCap) (w1 : W) (c2 : ReadCap)
          → Sub w c name c1 w1
          → (rest w1 c1).0 ≡ some c2
          → Grafts w1 c1 (next ∷ parts) goal c2 (rest w1 c1).1)
      → (below dirs d name rest r).0 ≡ some c'
      → Grafts w c (name ∷ next ∷ parts) goal c' (below dirs d name rest r).1
  graft_below-Grafts w c d name next parts goal rest (none, w1) c' h sorted sub more stored =
      absurd (cc stored)
  graft_below-Grafts w c d name next parts goal rest (some c1, w1) c' h sorted sub more stored =
      below-Grafts w c d name next parts goal c1 w1 (rest w1 c1) c' h sorted (sub c1 refl)
        (λ c2 e. more c1 w1 c2 (sub c1 refl) e) stored

  pub graft-Grafts :
      (w : W) (c : ReadCap) (parts : List Bytes) (child : ReadCap) (stat : StatCache) (c' : ReadCap)
      → IsOpen dirs w c parts
      → dirs.Fits child
      → All dirs.IsText parts
      → (graft dirs no_attrs w c parts child stat).0 ≡ some c'
      → Grafts w c parts (some child) c' (graft dirs no_attrs w c parts child stat).1
  unfolding graft
  graft-Grafts w c [] child stat c' o fit text h = absurd (cc h)
  graft-Grafts w c (name ∷ []) child stat c' o fit text h =
      let l = laws.loads w c o.0 o.1.0 in
      rw l (leaf-Grafts w c name child stat c' o fit text.0 (rw l at h))
  graft-Grafts w c (name ∷ next ∷ parts) child stat c' o fit text h =
      let l = laws.loads w c o.0 o.1.0 in
      rw l (
        graft_below-Grafts w c o.0 name next parts (some child)
          (λ w1 c1. graft dirs no_attrs w1 c1 (next ∷ parts) child stat)
          (subdir_or_new dirs no_attrs w (lookup o.0 name)) c' o.1.0 o.1.1.0
          (λ c1 e. subdir-Sub w c o.0 name (lookup o.0 name) c1 o.1.0 refl e text.0)
          (λ c1 w1 c2 sub e.
            graft-Grafts w1 c1 (next ∷ parts) child stat c2 (sub.opens (next ∷ parts) o) fit text.1
              e)
          (rw l at h))

  -- If every directory that a path goes through is in the world and in order, a graft at the path that
  -- succeeds, of a child whose cap can be written and along names that are stored as they are, makes a
  -- root from which the path leads to the child, again through such directories; and a path that parts
  -- from it, and goes through such directories, leads to what it led to before, through such directories
  -- too.
  pub resolve-graft :
      (w : W) (c : ReadCap) (parts q : List Bytes) (child : ReadCap) (stat : StatCache)
      (c' : ReadCap)
      → IsOpen dirs w c parts
      → IsOpen dirs w c q
      → Parts parts q
      → dirs.Fits child
      → All dirs.IsText parts
      → (graft dirs no_attrs w c parts child stat).0 ≡ some c'
      → let w' = (graft dirs no_attrs w c parts child stat).1 in
        (resolve dirs w' c' parts ≡ some child)
        × (IsOpen dirs w' c' parts
            × ((resolve dirs w' c' q ≡ resolve dirs w c q) × IsOpen dirs w' c' q))
  resolve-graft w c parts q child stat c' o oq p fit text h =
      let g = graft-Grafts w c parts child stat c' o fit text h in
      (g.reaches, (g.opens, g.frame q p oq))
