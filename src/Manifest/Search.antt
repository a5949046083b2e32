-- ===== src/Manifest/Search.antt =====
-- The binary search of `Lookup` (internal/manifest/dir.go) finds what a scan of the entries finds.
use revika.Base.{
  ℕ, zero, suc, ◌+◌, ◌/◌, ◌≤◌, ◌<◌, ltb, Bool, true, false, Bool-cases, none, some, List, [], ◌∷◌,
  if◌then◌else◌, Bytes, bytes_eq, ◌==◌, length, get_elem?, ◌≡◌, inl, inr, refl, arith,
}
use revika.Net.RootSelect.{bytes_ltb}
use revika.Manifest.{
  Entry, DirManifest, halve, search_loop, search, not_before, with_name, lookup, upsert, remove,
}
use revika.Manifest.Entries.{
  entry_named, IsSorted, After, After-trans, before_trans, before_irrefl, before_other,
  entry_named-placed, entry_named-remove_entry, IsSorted-placed, IsSorted-remove_entry,
}

module _ (f : ℕ → Bool) (mono : (i k : ℕ) → i ≤ k → f i ≡ true → f k ≡ true) where
  -- The first index at which the test holds is in the range.
  Around : ℕ × ℕ → Type 0
  Around r = (r.0 ≤ r.1) × (((i : ℕ) → i < r.0 → f i ≡ false) × ((i : ℕ) → r.1 ≤ i → f i ≡ true))

  below : (h i : ℕ) → f h ≡ false → i < suc h → f i ≡ false
  below h i u v = ground (arith, u, v, mono i h)

  halve-Around : (r : ℕ × ℕ) → Around r → Around (halve f r)
  unfolding halve Around
  halve-Around r a = elim (Bool-cases (ltb r.0 r.1)) [
    | inl open_ ↦ elim (Bool-cases (f ((r.0 + r.1) / 2))) [
      | inl holds ↦
          rw (open_, holds)
            (ground (arith, a.0, open_), (a.1.0, λ i v. mono ((r.0 + r.1) / 2) i v holds))
      | inr fails ↦
          rw (open_, fails)
            (ground (arith, a.0, open_), (λ i v. below ((r.0 + r.1) / 2) i fails v, a.1.1))
    ]
    | inr closed ↦ rw closed a
  ]

  length-halve :
      (fuel : ℕ) (r : ℕ × ℕ)
      → r.0 ≤ r.1
      → r.1 ≤ r.0 + suc fuel
      → (halve f r).1 ≤ (halve f r).0 + fuel
  unfolding halve
  length-halve fuel r h u = ground (arith, h, u)

  search_loop-first :
      (fuel : ℕ) (r : ℕ × ℕ)
      → r.1 ≤ r.0 + fuel
      → Around r
      → Around (search_loop f fuel r, search_loop f fuel r)
  unfolding search_loop Around
  search_loop-first zero r u a = (omega arith, (a.1.0, λ i v. a.1.1 i (omega (arith, u, a.0))))
  search_loop-first (suc fuel) r u a =
      search_loop-first fuel (halve f r) (length-halve fuel r a.0 u) (halve-Around r a)

After-not_before :
    (name a : Bytes) (xs : List Entry) (i : ℕ)
    → bytes_ltb a name ≡ false
    → After a xs
    → not_before name (get_elem? xs i) ≡ true
After-not_before name a [] i h u = refl
After-not_before name a (x ∷ xs) zero h u = ground (arith, h, u.0, before_trans a x.name name)
After-not_before name a (x ∷ xs) (suc i) h u = After-not_before name a xs i h u.1

not_before_mono :
    (name : Bytes) (xs : List Entry)
    → IsSorted xs
    → (i k : ℕ) → i ≤ k
    → not_before name (get_elem? xs i) ≡ true
    → not_before name (get_elem? xs k) ≡ true
not_before_mono name [] s i k h u = refl
not_before_mono name (x ∷ xs) s zero zero h u = u
not_before_mono name (x ∷ xs) s zero (suc k) h u =
    After-not_before name x.name xs k (ground (arith, u)) s.0
not_before_mono name (x ∷ xs) s (suc i) zero h u = absurd (omega arith)
not_before_mono name (x ∷ xs) s (suc i) (suc k) h u =
    not_before_mono name xs s.1 i k (omega arith) u

After-entry_named : (a : Bytes) (xs : List Entry) → After a xs → entry_named a xs ≡ none
After-entry_named a [] h = refl
After-entry_named a (x ∷ xs) h =
    ground (arith, before_irrefl a x.name h.0, After-entry_named a xs h.1)

with_name-first :
    (name : Bytes) (xs : List Entry) (r : ℕ)
    → IsSorted xs
    → ((i : ℕ) → i < r → not_before name (get_elem? xs i) ≡ false)
    → ((i : ℕ) → r ≤ i → not_before name (get_elem? xs i) ≡ true)
    → with_name name (get_elem? xs r) ≡ entry_named name xs
with_name-first name [] r s u v = refl
with_name-first name (x ∷ xs) zero s u v = ground (
  arith,
  v 0 (omega arith),
  before_other x.name name,
  After-trans name x.name xs,
  After-entry_named name xs,
  s.0,
)
with_name-first name (x ∷ xs) (suc r) s u v = ground (
  arith,
  u 0 (omega arith),
  before_irrefl x.name name,
  with_name-first name xs r s.1 (λ i w. u (suc i) (omega arith)) (λ i w. v (suc i) (omega arith)),
)

past_end :
    (name : Bytes) (xs : List Entry) (i : ℕ)
    → length xs ≤ i
    → not_before name (get_elem? xs i) ≡ true
past_end name [] i h = refl
past_end name (x ∷ xs) zero h = absurd (omega arith)
past_end name (x ∷ xs) (suc i) h = past_end name xs i (omega arith)

module _ {ℓ} {M : Type ℓ} where
  pub lookup_lem :
      (d : DirManifest M) (name : Bytes)
      → IsSorted d.entries
      → lookup d name ≡ entry_named name d.entries
  unfolding lookup search Around
  lookup_lem d name h =
      let test : ℕ → Bool = λ i. not_before name (get_elem? d.entries i) in
      let first : Around test (not_before_mono name d.entries h)
          (search (length d.entries) test, search (length d.entries) test) =
        search_loop-first test (not_before_mono name d.entries h) (length d.entries)
          (0, length d.entries) (omega arith)
          (omega arith, (λ i v. absurd (omega arith), past_end name d.entries)) in
      with_name-first name d.entries (search (length d.entries) test) h first.1.0 first.1.1

  -- In a directory whose entries are in the order of their names, without two of one name, `upsert`
  -- keeps this order and the attributes; `lookup` then finds the new entry under its name, and under
  -- every other name what it found before.
  pub lookup-upsert :
      (d : DirManifest M) (e : Entry) (n : Bytes)
      → IsSorted d.entries
      → IsSorted (upsert d e).entries
        × (((upsert d e).attrs ≡ d.attrs)
            × (lookup (upsert d e) n ≡ (if e.name == n then some e else lookup d n)))
  unfolding upsert
  lookup-upsert d e n h =
      let after : IsSorted (upsert d e).entries = IsSorted-placed e d.entries h in
      (
        after,
        (
          refl,
          (rw (lookup_lem (upsert d e) n after)
              (rw (lookup_lem d n h) (entry_named-placed n e d.entries))),
        ),
      )

  -- In such a directory `remove` keeps the order and the attributes; `lookup` then finds nothing under
  -- the name, and under every other name what it found before.
  pub lookup-remove :
      (d : DirManifest M) (name n : Bytes)
      → IsSorted d.entries
      → IsSorted (remove d name).0.entries
        × (((remove d name).0.attrs ≡ d.attrs)
            × (lookup (remove d name).0 n ≡ (if name == n then none else lookup d n)))
  unfolding remove
  lookup-remove d name n h =
      let after : IsSorted (remove d name).0.entries = IsSorted-remove_entry name d.entries h in
      (
        after,
        (
          refl,
          (rw (lookup_lem (remove d name).0 n after)
              (rw (lookup_lem d n h) (entry_named-remove_entry n name d.entries))),
        ),
      )
