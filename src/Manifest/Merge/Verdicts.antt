-- ===== src/Manifest/Merge/Verdicts.antt =====
-- What the switch of `mergeDir` (internal/manifest/merge.go) is to decide, as a relation on what the three
-- sides have under a name.
use revika.Base.{
  Bool, true, false, ◌&&◌, Option, none, some, List, [], ◌∷◌, Bytes, bytes_eq, ◌≡◌, ◌≢◌, inl, inr,
  refl, sym, ap, arith, Bool-cases,
}
use revika.Manifest.{Kind, file, dir, is_dir, ReadCap, Entry}
use revika.Manifest.Blobs.{kind_eqb}
use revika.Manifest.Merge.{
  bool_eqb, shards_eqb, cap_equal, Choice, flagged, both, descend, cap_of, kept, copy_of, contested,
  choose,
}

-- No two sides have the same.
abbrev pub Contested : Option Entry → Option Entry → Option Entry → Type 0
Contested be le re = (cap_of le ≢ cap_of re) × ((cap_of be ≢ cap_of le) × (cap_of be ≢ cap_of re))

-- Both sides have the same: it stays. One side has what the base has: the other side's change, or
-- deletion, counts. Otherwise both changed it, and a deletion gives way to an edit, two directories are
-- merged, and of two others both stay.
pub data Verdict (label : Bytes → Bytes) (n : Bytes) (be le re : Option Entry)
    : Choice → Type 0 where
  agreed : cap_of le ≡ cap_of re → Verdict label n be le re (kept le)
  remote_changed :
      cap_of le ≢ cap_of re → cap_of be ≡ cap_of le → Verdict label n be le re (kept re)
  local_changed : cap_of le ≢ cap_of re → cap_of be ≡ cap_of re → Verdict label n be le re (kept le)
  local_deleted :
      (r : Entry)
      → Contested be le re
      → le ≡ none
      → re ≡ some r
      → Verdict label n be le re (flagged r)
  remote_deleted :
      (l : Entry)
      → Contested be le re
      → le ≡ some l
      → re ≡ none
      → Verdict label n be le re (flagged l)
  two_directories :
      (l r : Entry)
      → Contested be le re
      → le ≡ some l
      → re ≡ some r
      → (is_dir l.cap.kind && is_dir r.cap.kind) ≡ true
      → Verdict label n be le re (descend (cap_of be) l.cap r.cap)
  two_edits :
      (l r : Entry)
      → Contested be le re
      → le ≡ some l
      → re ≡ some r
      → (is_dir l.cap.kind && is_dir r.cap.kind) ≡ false
      → Verdict label n be le re (both l (copy_of label n r))

kind_eqb-eq : (a b : Kind) → kind_eqb a b ≡ true → a ≡ b
kind_eqb-eq file file h = refl
kind_eqb-eq dir dir h = refl
kind_eqb-eq file dir h = absurd (cc h)
kind_eqb-eq dir file h = absurd (cc h)

bool_eqb-eq : (a b : Bool) → bool_eqb a b ≡ true → a ≡ b
bool_eqb-eq true b h = sym h
bool_eqb-eq false true h = absurd (cc h)
bool_eqb-eq false false h = refl

shards_eqb-eq : (a b : List Bytes) → shards_eqb a b ≡ true → a ≡ b
unfolding shards_eqb
shards_eqb-eq [] [] h = refl
shards_eqb-eq [] (y ∷ ys) h = absurd (cc h)
shards_eqb-eq (x ∷ xs) [] h = absurd (cc h)
shards_eqb-eq (x ∷ xs) (y ∷ ys) h = ground (arith, h, shards_eqb-eq xs ys)

shards_eqb_self : (a : List Bytes) → shards_eqb a a ≡ true
unfolding shards_eqb
shards_eqb_self [] = refl
shards_eqb_self (x ∷ xs) = ground (arith, shards_eqb_self xs)

same_fields :
    (a b : ReadCap)
    → a.kind ≡ b.kind
    → a.compressed ≡ b.compressed
    → a.k ≡ b.k
    → a.m ≡ b.m
    → a.key ≡ b.key
    → a.shards ≡ b.shards
    → a ≡ b
same_fields a b p q r s t u =
    λ i. record { kind = p i; key = t i; compressed = q i; k = r i; m = s i; shards = u i }

pub cap_equal-eq : (a b : ReadCap) → cap_equal a b ≡ true → a ≡ b
unfolding cap_equal
cap_equal-eq a b h =
    same_fields a b (kind_eqb-eq a.kind b.kind (ground (arith, h)))
      (bool_eqb-eq a.compressed b.compressed (ground (arith, h))) (ground (arith, h))
      (ground (arith, h)) (ground (arith, h)) (shards_eqb-eq a.shards b.shards (ground (arith, h)))

kind_eqb_self : (a : Kind) → kind_eqb a a ≡ true
kind_eqb_self file = refl
kind_eqb_self dir = refl

bool_eqb_self : (a : Bool) → bool_eqb a a ≡ true
bool_eqb_self true = refl
bool_eqb_self false = refl

cap_equal_self : (a : ReadCap) → cap_equal a a ≡ true
unfolding cap_equal
cap_equal_self a =
    ground (arith, kind_eqb_self a.kind, bool_eqb_self a.compressed, shards_eqb_self a.shards)

pub differ-cap_equal : (a b : ReadCap) → a ≢ b → cap_equal a b ≡ false
differ-cap_equal a b u = elim (Bool-cases (cap_equal a b)) [
  | inl same ↦ absurd (u (cap_equal-eq a b same))
  | inr differ ↦ differ
]

cap_equal-differ : (a b : ReadCap) → cap_equal a b ≡ false → a ≢ b
cap_equal-differ a b h e = cc (h, ap (cap_equal a) e, cap_equal_self a)

module _ (label : Bytes → Bytes) where
  contested-Verdict :
      (n : Bytes) (be le re : Option Entry)
      → Contested be le re
      → Verdict label n be le re (contested label n be le re)
  contested-Verdict n be none none u = absurd (u.0 refl)
  contested-Verdict n be none (some r) u = local_deleted r u refl refl
  contested-Verdict n be (some l) none u = remote_deleted l u refl refl
  contested-Verdict n be (some l) (some r) u =
      elim (Bool-cases (is_dir l.cap.kind && is_dir r.cap.kind)) [
        | inl dirs ↦ rw dirs (two_directories l r u refl refl dirs)
        | inr leaves ↦ rw leaves (two_edits l r u refl refl leaves)
      ]

  pub choose-Verdict :
      (n : Bytes) (be le re : Option Entry) → Verdict label n be le re (choose label n be le re)
  unfolding choose
  choose-Verdict n be le re = elim (Bool-cases (cap_equal (cap_of le) (cap_of re))) [
    | inl same ↦ rw same (agreed (cap_equal-eq (cap_of le) (cap_of re) same))
    | inr differ ↦ rw differ (
        let u = cap_equal-differ (cap_of le) (cap_of re) differ in
        elim (Bool-cases (cap_equal (cap_of be) (cap_of le))) [
          | inl old ↦ rw old (remote_changed u (cap_equal-eq (cap_of be) (cap_of le) old))
          | inr new ↦ rw new (
              let v = cap_equal-differ (cap_of be) (cap_of le) new in
              elim (Bool-cases (cap_equal (cap_of be) (cap_of re))) [
                | inl old ↦ rw old (local_changed u (cap_equal-eq (cap_of be) (cap_of re) old))
                | inr newer ↦ rw newer (
                    contested-Verdict n be le re
                      (u, (v, cap_equal-differ (cap_of be) (cap_of re) newer)))
              ])
        ])
  ]
