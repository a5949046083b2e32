-- ===== src/Manifest/Merge/Depth.antt =====
-- How deep the trees are that a merge (internal/manifest/merge.go) goes down.
use revika.Base.{
  All-imp, ℕ, zero, suc, true, false, Option, none, some, List, [], ◌∷◌, Bytes, bytes_eq, ◌==◌,
  ◌&&◌, ◌≡◌, ◌⊎◌, inl, inr, refl, All, Bool-cases, if◌then◌else◌,
}
use revika.Manifest.{is_dir, ReadCap, Entry, DirManifest}
use revika.Manifest.Walk.{DirStore}
use revika.Manifest.Walk.Open.{Keeps}
use revika.Manifest.Merge.{
  Choice, nothing, take_entry, flagged, both, descend, zero_cap, cap_present, cap_equal, cap_of,
  kept, contested, choose, entry_map, or_later,
}

module _ {M : Type 0} {W : Type 0} (dirs : DirStore M W) where
  -- `loadDirOpt` does not load it.
  abbrev pub IsLeaf : ReadCap → Type 0
  IsLeaf c = (cap_present c && is_dir c.kind) ≡ false

  -- A tree of which every directory is in the world, with at most so many levels of directories.
  unfoldable pub Within : ℕ → W → ReadCap → Type 0
  Within zero w c = IsLeaf c
  Within (suc k) w c =
      IsLeaf c ⊎ (d : DirManifest M) × (dirs.Holds w c d × All (λ e. Within k w e.cap) d.entries)

  pub Within-Keeps :
      (k : ℕ) (w w' : W) (c : ReadCap) → Keeps dirs w w' → Within k w c → Within k w' c
  unfolding Within
  Within-Keeps zero w w' c h t = t
  Within-Keeps (suc k) w w' c h (inl t) = inl t
  Within-Keeps (suc k) w w' c h (inr (d, (held, all))) = inr (
    d,
    (
      h c d held,
      All-imp (λ e. Within k w e.cap) (λ e. Within k w' e.cap) d.entries
          (λ e t. Within-Keeps k w w' e.cap h t) all,
    ),
  )

  zero_cap-Within : (k : ℕ) (w : W) → Within k w zero_cap
  unfolding Within zero_cap cap_present
  zero_cap-Within zero w = refl
  zero_cap-Within (suc k) w = inl refl

  pub entry_map-Within :
      (k : ℕ) (w : W) (es : List Entry) (n : Bytes)
      → All (λ e. Within k w e.cap) es
      → Within k w (cap_of (entry_map es n))
  unfolding entry_map
  entry_map-Within k w [] n h = zero_cap-Within k w
  entry_map-Within k w (e ∷ es) n h =
      later (entry_map es n) (entry_map-Within k w es n h.1) (Bool-cases (e.name == n))
    where
      later :
          (o : Option Entry)
          → Within k w (cap_of o)
          → ((e.name == n) ≡ true) ⊎ ((e.name == n) ≡ false)
          → Within k w (cap_of (or_later o (if e.name == n then some e else none)))
      later (some x) h' t = h'
      later none h' (inl t) = rw t h.0
      later none h' (inr t) = rw t (zero_cap-Within k w)

  -- The trees that a choice goes down.
  abbrev pub Goes : ℕ → W → Choice → Type 0
  Goes k w nothing = Unit
  Goes k w (take_entry e) = Unit
  Goes k w (flagged e) = Unit
  Goes k w (both e copy) = Unit
  Goes k w (descend b l r) = Within k w b × (Within k w l × Within k w r)

  kept-Goes : (k : ℕ) (w : W) (o : Option Entry) → Goes k w (kept o)
  kept-Goes k w none = tt
  kept-Goes k w (some e) = tt

  pub Goes-Keeps : (k : ℕ) (w w' : W) (c : Choice) → Keeps dirs w w' → Goes k w c → Goes k w' c
  Goes-Keeps k w w' nothing h t = tt
  Goes-Keeps k w w' (take_entry e) h t = tt
  Goes-Keeps k w w' (flagged e) h t = tt
  Goes-Keeps k w w' (both e copy) h t = tt
  Goes-Keeps k w w' (descend b l r) h t =
      (Within-Keeps k w w' b h t.0, (Within-Keeps k w w' l h t.1.0, Within-Keeps k w w' r h t.1.1))

  module _ (label : Bytes → Bytes) where
    contested-Goes :
        (k : ℕ) (w : W) (n : Bytes) (be le re : Option Entry)
        → Within k w (cap_of be)
        → Within k w (cap_of le)
        → Within k w (cap_of re)
        → Goes k w (contested label n be le re)
    contested-Goes k w n be none none b l r = tt
    contested-Goes k w n be none (some re) b l r = tt
    contested-Goes k w n be (some le) none b l r = tt
    contested-Goes k w n be (some le) (some re) b l r =
        elim (Bool-cases (is_dir le.cap.kind && is_dir re.cap.kind)) [
          | inl h ↦ rw h (b, (l, r))
          | inr h ↦ rw h tt
        ]

    pub choose-Goes :
        (k : ℕ) (w : W) (n : Bytes) (be le re : Option Entry)
        → Within k w (cap_of be)
        → Within k w (cap_of le)
        → Within k w (cap_of re)
        → Goes k w (choose label n be le re)
    unfolding choose
    choose-Goes k w n be le re b l r = elim (Bool-cases (cap_equal (cap_of le) (cap_of re))) [
      | inl e ↦ rw e (kept-Goes k w le)
      | inr e ↦ rw e (elim (Bool-cases (cap_equal (cap_of be) (cap_of le))) [
        | inl e' ↦ rw e' (kept-Goes k w re)
        | inr e' ↦ rw e' (elim (Bool-cases (cap_equal (cap_of be) (cap_of re))) [
          | inl e'' ↦ rw e'' (kept-Goes k w le)
          | inr e'' ↦ rw e'' (contested-Goes k w n be le re b l r)
        ])
      ])
    ]
