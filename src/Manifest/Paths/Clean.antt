-- ===== src/Manifest/Paths/Clean.antt =====
-- The components that `splitPath` (internal/manifest/dir.go) answers.
use revika.Base.{
  ℕ, zero, suc, ◌≡◌, ◌≢◌, refl, ap, ◌∙◌, inl, inr, false, none, some, List, [], ◌∷◌, ◌++◌, eqb,
  if◌then◌else◌, Bytes, bytes_eq, ◌==◌, All, arith, Bool-cases,
}
use revika.Manifest.Paths.{
  slash, dot, dot_dot, cons_first, split_at_slash, join_slash, keep_or_drop, clean_elements,
  clean_rooted, contains_name, split_path,
}

abbrev pub HasNoSlash : Bytes → Type 0
HasNoSlash name = All (λ b. b ≢ slash) name

-- A name that can stand in a directory.
abbrev pub IsName : Bytes → Type 0
IsName name = HasNoSlash name × ((name ≢ []) × ((name ≢ dot) × (name ≢ dot_dot)))

-- The elements of a path after `path.Clean`.
abbrev pub elements : Bytes → List Bytes
elements p = (clean_elements (split_at_slash p)).0

cons_first-NoSlash :
    (b : ℕ) (names : List Bytes)
    → b ≢ slash
    → All HasNoSlash names
    → All HasNoSlash (cons_first b names)
cons_first-NoSlash b [] h a = ((h, tt), tt)
cons_first-NoSlash b (name ∷ names) h a = ((h, a.0), a.1)

split-NoSlash : (bs : Bytes) → All HasNoSlash (split_at_slash bs)
unfolding split_at_slash
split-NoSlash [] = (tt, tt)
split-NoSlash (b ∷ bs) = elim (Bool-cases (eqb b slash)) [
  | inl is ↦ rw is (tt, split-NoSlash bs)
  | inr not_slash ↦
      rw not_slash
        (cons_first-NoSlash b (split_at_slash bs) (ground (arith, not_slash)) (split-NoSlash bs))
]

keep_or_drop-IsName :
    (name : Bytes) (r : List Bytes × ℕ)
    → IsName name
    → All IsName r.0
    → All IsName (keep_or_drop name r).0
keep_or_drop-IsName name (names, zero) n a = (n, a)
keep_or_drop-IsName name (names, suc k) n a = a

clean_elements-IsName :
    (names : List Bytes) → All HasNoSlash names → All IsName (clean_elements names).0
unfolding clean_elements
clean_elements-IsName [] a = tt
clean_elements-IsName (name ∷ names) a =
    let rest = clean_elements-IsName names a.1 in
    ground (
      arith,
      rest,
      a.0,
      λ (u : name ≢ []) (v : name ≢ dot) (x : name ≢ dot_dot).
          keep_or_drop-IsName name (clean_elements names) (a.0, (u, (v, x))) rest,
    )

split-append :
    (name bs : Bytes)
    → HasNoSlash name
    → split_at_slash (name ++ (slash ∷ bs)) ≡ name ∷ split_at_slash bs
unfolding split_at_slash
split-append [] bs h = refl
split-append (b ∷ name) bs h = ground (arith, h.0, split-append name bs h.1)

split-name : (name : Bytes) → HasNoSlash name → split_at_slash name ≡ name ∷ []
unfolding split_at_slash
split-name [] h = refl
split-name (b ∷ name) h = ground (arith, h.0, split-name name h.1)

split-join :
    (name : Bytes) (names : List Bytes)
    → All HasNoSlash (name ∷ names)
    → split_at_slash (join_slash (name ∷ names)) ≡ name ∷ names
unfolding join_slash
split-join name [] a = split-name name a.0
split-join name (next ∷ names) a =
    split-append name (join_slash (next ∷ names)) a.0
    ∙ ap (λ l. name ∷ l) (split-join next names a.1)

IsName-NoSlash : (names : List Bytes) → All IsName names → All HasNoSlash names
IsName-NoSlash [] a = tt
IsName-NoSlash (x ∷ xs) a = (a.0.0, IsName-NoSlash xs a.1)

IsName-no_dots : (names : List Bytes) → All IsName names → contains_name dot_dot names ≡ false
IsName-no_dots [] a = refl
IsName-no_dots (x ∷ xs) a = ground (arith, a.0.1.1.1, IsName-no_dots xs a.1)

not_root :
    (name : Bytes) (names : List Bytes)
    → name ≢ []
    → ((slash ∷ join_slash (name ∷ names)) == (slash ∷ [])) ≡ false
unfolding join_slash
not_root [] names h = absurd (h refl)
not_root (b ∷ name) [] h = ground arith
not_root (b ∷ name) (next ∷ names) h = ground arith

split_cleaned_root :
    (if (slash ∷ join_slash []) == (slash ∷ [])
      then some []
      else (if contains_name dot_dot (split_at_slash (join_slash []))
          then none
          else some (split_at_slash (join_slash []))))
    ≡ some []
unfolding join_slash bytes_eq split_at_slash
split_cleaned_root = refl

split_cleaned :
    (names : List Bytes)
    → All IsName names
    → (if (slash ∷ join_slash names) == (slash ∷ [])
        then some []
        else (if contains_name dot_dot (split_at_slash (join_slash names))
            then none
            else some (split_at_slash (join_slash names))))
      ≡ some names
split_cleaned [] a = split_cleaned_root
split_cleaned (name ∷ names) a =
    rw
      (
        not_root name names a.0.1.0,
        split-join name names (IsName-NoSlash (name ∷ names) a),
        IsName-no_dots (name ∷ names) a,
      )
      refl

-- Every path has components, which are the elements that are left of it, and each is the name of an
-- entry: not empty, without a slash, and neither "." nor "..".
pub split_path-IsName : (p : Bytes) → (split_path p ≡ some (elements p)) × All IsName (elements p)
unfolding split_path clean_rooted
split_path-IsName p =
    let names = clean_elements-IsName (split_at_slash p) (split-NoSlash p) in
    (split_cleaned (elements p) names, names)
