-- ===== src/Manifest/Entries.antt =====
-- What the operations of internal/manifest/dir.go leave under each name, and the order of the entries.
use revika.Base.{
  true, false, Option, none, some, List, [], ◌∷◌, ◌++◌, if◌then◌else◌, Bytes, bytes_eq, ◌==◌, All,
  ◌≡◌, ◌≢◌, refl, sym, ap, ◌∙◌, subst, arith,
}
use revika.Net.RootSelect.{bytes_ltb}
use revika.Net.RootSelect.Agreed.{bytes_ltb_total, bytes_ltb_irrefl}
use revika.Manifest.{Entry, insert_by_name, sort_by_name, replace_entry, remove_entry, placed}

-- The entry of a name: the first that has it.
abbrev pub entry_named : Bytes → List Entry → Option Entry
entry_named n [] = none
entry_named n (x ∷ xs) = let rest = entry_named n xs in if x.name == n then some x else rest

-- Each entry has a name that comes before all later ones.
abbrev pub IsSorted : List Entry → Type 0
IsSorted [] = Unit
IsSorted (x ∷ xs) = All (λ y. bytes_ltb x.name y.name ≡ true) xs × IsSorted xs

pub before_trans :
    (a b c : Bytes) → bytes_ltb a b ≡ true → bytes_ltb b c ≡ true → bytes_ltb a c ≡ true
unfolding bytes_ltb
before_trans [] [] c h h' = h'
before_trans [] (b ∷ ys) [] h h' = absurd (cc h')
before_trans [] (b ∷ ys) (c ∷ zs) h h' = refl
before_trans (a ∷ xs) [] c h h' = absurd (cc h)
before_trans (a ∷ xs) (b ∷ ys) [] h h' = absurd (cc h')
before_trans (a ∷ xs) (b ∷ ys) (c ∷ zs) h h' = ground (arith, h, h', before_trans xs ys zs)

pub before_irrefl : (a b : Bytes) → bytes_ltb a b ≡ true → a ≢ b
before_irrefl a b h e = cc (h, ap (bytes_ltb a) (sym e), bytes_ltb_irrefl a)

entry_named-insert_by_name :
    (n : Bytes) (e : Entry) (xs : List Entry)
    → entry_named n (insert_by_name e xs) ≡ entry_named n (e ∷ xs)
unfolding insert_by_name
entry_named-insert_by_name n e [] = refl
entry_named-insert_by_name n e (x ∷ xs) =
    ground (arith, entry_named-insert_by_name n e xs, before_irrefl x.name e.name)

entry_named-sort_by_name :
    (n : Bytes) (xs : List Entry) → entry_named n (sort_by_name xs) ≡ entry_named n xs
unfolding sort_by_name
entry_named-sort_by_name n [] = refl
entry_named-sort_by_name n (x ∷ xs) =
    entry_named-insert_by_name n x (sort_by_name xs) ∙ ground (arith, entry_named-sort_by_name n xs)

other-replace_entry :
    (n : Bytes) (e : Entry) (xs : List Entry)
    → e.name ≢ n
    → entry_named n (replace_entry e xs).0 ≡ entry_named n xs
unfolding replace_entry
other-replace_entry n e [] h = refl
other-replace_entry n e (x ∷ xs) h = ground (arith, h, other-replace_entry n e xs h)

entry_named-replace_entry :
    (n : Bytes) (e : Entry) (xs : List Entry)
    → (replace_entry e xs).1 ≡ true
    → entry_named n (replace_entry e xs).0 ≡ (if e.name == n then some e else entry_named n xs)
unfolding replace_entry
entry_named-replace_entry n e [] h = absurd (cc h)
entry_named-replace_entry n e (x ∷ xs) h =
    ground (arith, h, entry_named-replace_entry n e xs, other-replace_entry n e xs)

entry_named-append :
    (n : Bytes) (e : Entry) (xs : List Entry)
    → (replace_entry e xs).1 ≡ false
    → entry_named n ((replace_entry e xs).0 ++ (e ∷ []))
      ≡ (if e.name == n then some e else entry_named n xs)
unfolding replace_entry
entry_named-append n e [] h = refl
entry_named-append n e (x ∷ xs) h = ground (arith, h, entry_named-append n e xs)

pub entry_named-placed :
    (n : Bytes) (e : Entry) (xs : List Entry)
    → entry_named n (placed e (replace_entry e xs))
      ≡ (if e.name == n then some e else entry_named n xs)
unfolding placed
entry_named-placed n e xs = ground (
  arith,
  entry_named-replace_entry n e xs,
  entry_named-append n e xs,
  entry_named-sort_by_name n ((replace_entry e xs).0 ++ (e ∷ [])),
)

pub entry_named-remove_entry :
    (n name : Bytes) (xs : List Entry)
    → entry_named n (remove_entry name xs).0 ≡ (if name == n then none else entry_named n xs)
unfolding remove_entry
entry_named-remove_entry n name [] = ground arith
entry_named-remove_entry n name (x ∷ xs) = ground (arith, entry_named-remove_entry n name xs)

abbrev pub After : Bytes → List Entry → Type 0
After a xs = All (λ y. bytes_ltb a y.name ≡ true) xs

After-replace_entry :
    (a : Bytes) (e : Entry) (xs : List Entry) → After a xs → After a (replace_entry e xs).0
unfolding replace_entry
After-replace_entry a e [] h = tt
After-replace_entry a e (x ∷ xs) h = ground (arith, h.0, After-replace_entry a e xs h.1)

After-remove_entry :
    (a name : Bytes) (xs : List Entry) → After a xs → After a (remove_entry name xs).0
unfolding remove_entry
After-remove_entry a name [] h = tt
After-remove_entry a name (x ∷ xs) h = ground (arith, h.0, After-remove_entry a name xs h.1)

pub After-trans : (a b : Bytes) (xs : List Entry) → bytes_ltb a b ≡ true → After b xs → After a xs
After-trans a b [] h u = tt
After-trans a b (x ∷ xs) h u = (before_trans a b x.name h u.0, After-trans a b xs h u.1)

After-moved : (a b : Bytes) (xs : List Entry) → After a xs → a ≡ b → After b xs
After-moved a b xs h p = subst (λ c. After c xs) p h

IsSorted-replace_entry :
    (e : Entry) (xs : List Entry) → IsSorted xs → IsSorted (replace_entry e xs).0
unfolding replace_entry
IsSorted-replace_entry e [] h = tt
IsSorted-replace_entry e (x ∷ xs) h =
    let later : After x.name (replace_entry e xs).0 = After-replace_entry x.name e xs h.0 in
    ground (
      arith,
      later,
      IsSorted-replace_entry e xs h.1,
      After-moved x.name e.name (replace_entry e xs).0 later,
    )

pub IsSorted-remove_entry :
    (name : Bytes) (xs : List Entry) → IsSorted xs → IsSorted (remove_entry name xs).0
unfolding remove_entry
IsSorted-remove_entry name [] h = tt
IsSorted-remove_entry name (x ∷ xs) h =
    ground (arith, IsSorted-remove_entry name xs h.1, After-remove_entry x.name name xs h.0)

module _ {κ} (P : Entry → Type κ) where
  All-insert_by_name : (e : Entry) (xs : List Entry) → P e → All P xs → All P (insert_by_name e xs)
  unfolding insert_by_name
  All-insert_by_name e [] p h = (p, h)
  All-insert_by_name e (x ∷ xs) p h = ground (arith, p, h, All-insert_by_name e xs p h.1)

  All-sort_by_name : (xs : List Entry) → All P xs → All P (sort_by_name xs)
  unfolding sort_by_name
  All-sort_by_name [] h = h
  All-sort_by_name (x ∷ xs) h = All-insert_by_name x (sort_by_name xs) h.0 (All-sort_by_name xs h.1)

  All-append_one : (e : Entry) (xs : List Entry) → P e → All P xs → All P (xs ++ (e ∷ []))
  All-append_one e [] p h = (p, h)
  All-append_one e (x ∷ xs) p h = (h.0, All-append_one e xs p h.1)

-- No entry has the name.
abbrev Free : Bytes → List Entry → Type 0
Free a xs = All (λ y. a ≢ y.name) xs

Free-After : (a : Bytes) (xs : List Entry) → After a xs → Free a xs
Free-After a [] h = tt
Free-After a (x ∷ xs) h = (before_irrefl a x.name h.0, Free-After a xs h.1)

pub before_other : (a b : Bytes) → b ≢ a → bytes_ltb a b ≡ false → bytes_ltb b a ≡ true
before_other a b u h = ground (arith, h, u, bytes_ltb_total a b)

IsSorted-insert_by_name :
    (e : Entry) (xs : List Entry) → Free e.name xs → IsSorted xs → IsSorted (insert_by_name e xs)
unfolding insert_by_name
IsSorted-insert_by_name e [] u h = (tt, tt)
IsSorted-insert_by_name e (x ∷ xs) u h = ground (
  arith,
  h,
  IsSorted-insert_by_name e xs u.1 h.1,
  All-insert_by_name (λ y. bytes_ltb x.name y.name ≡ true) e xs,
  before_other x.name e.name u.0,
  After-trans e.name x.name xs,
)

nothing_replaced : (e : Entry) → (replace_entry e []).0 ≡ []
unfolding replace_entry
nothing_replaced e = refl

unreplaced :
    (e x : Entry) (xs : List Entry)
    → (replace_entry e (x ∷ xs)).1 ≡ false
    → (x.name ≢ e.name)
      × (((replace_entry e xs).1 ≡ false)
          × ((replace_entry e (x ∷ xs)).0 ≡ x ∷ (replace_entry e xs).0))
unfolding replace_entry
unreplaced e x xs h = ground (arith, h)

IsSorted-sort_by_name :
    (e : Entry) (xs : List Entry)
    → (replace_entry e xs).1 ≡ false
    → IsSorted xs
    → IsSorted (sort_by_name ((replace_entry e xs).0 ++ (e ∷ [])))
unfolding sort_by_name insert_by_name
IsSorted-sort_by_name e [] r h = rw nothing_replaced (tt, tt)
IsSorted-sort_by_name e (x ∷ xs) r h =
    let (apart, (r', same)) = unreplaced e x xs r in
    let tail : List Entry = (replace_entry e xs).0 in
    let free : Free x.name (tail ++ (e ∷ [])) =
      All-append_one (λ y. x.name ≢ y.name) e tail apart
        (Free-After x.name tail (After-replace_entry x.name e xs h.0)) in
    rw same (
      IsSorted-insert_by_name x (sort_by_name (tail ++ (e ∷ [])))
        (All-sort_by_name (λ y. x.name ≢ y.name) (tail ++ (e ∷ [])) free)
        (IsSorted-sort_by_name e xs r' h.1))

pub IsSorted-placed :
    (e : Entry) (xs : List Entry) → IsSorted xs → IsSorted (placed e (replace_entry e xs))
unfolding placed
IsSorted-placed e xs h = ground (
  arith,
  λ (r : (replace_entry e xs).1 ≡ false). IsSorted-sort_by_name e xs r h,
  IsSorted-replace_entry e xs h,
)

module _ {κ} (P : Entry → Type κ) where
  All-replace_entry : (e : Entry) (xs : List Entry) → P e → All P xs → All P (replace_entry e xs).0
  unfolding replace_entry
  All-replace_entry e [] p h = tt
  All-replace_entry e (x ∷ xs) p h = ground (arith, p, h.0, All-replace_entry e xs p h.1)

  pub All-remove_entry :
      (name : Bytes) (xs : List Entry) → All P xs → All P (remove_entry name xs).0
  unfolding remove_entry
  All-remove_entry name [] h = tt
  All-remove_entry name (x ∷ xs) h = ground (arith, h.0, All-remove_entry name xs h.1)

  pub All-placed :
      (e : Entry) (xs : List Entry) → P e → All P xs → All P (placed e (replace_entry e xs))
  unfolding placed
  All-placed e xs p h =
      let r = All-replace_entry e xs p h in
      ground (
        arith,
        r,
        All-sort_by_name P ((replace_entry e xs).0 ++ (e ∷ []))
            (All-append_one P e (replace_entry e xs).0 p r),
      )
