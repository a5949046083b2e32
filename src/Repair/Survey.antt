-- ===== src/Repair/Survey.antt =====
-- What repair relies on of a store, and what its first loop finds out about a chunk.
use mathlib.Core.Option.{some-injective}
use revika.Base.{
  ℕ, zero, suc, ◌+◌, ◌<◌, ◌≡◌, ◌≢◌, ◌⊎◌, inl, inr, refl, ap, ◌∙◌, Bool, true, false, ◌||◌, Option,
  none, some, List, [], ◌∷◌, map, arith, eqb, length, get_elem?, if◌then◌else◌, bytes_eq, Bytes,
  All,
}
use revika.Store.{ShardId}
use revika.Repair.{Fetched, shard, not_found, corrupt, io_error, fetched, StoreOps, fetch}

abbrev pub is_shard : Fetched → Bool
is_shard (shard bytes) = true
is_shard f = false

-- What `store.Store` promises: a put answers the hash of its bytes and makes them available, no
-- shard is lost by it, a shard that is returned hashes to its identifier, and nothing fails.
pub record StoreLaws {S : Type 0} (ops : StoreOps S) (hash_of : Bytes → ShardId) : Type 0 where
  pub put_id : (s : S) (bytes : Bytes) → (ops.put_shard s bytes).0 ≡ some (hash_of bytes)
  pub put_get :
      (s : S) (bytes : Bytes)
      → is_shard (ops.get_shard (ops.put_shard s bytes).1 (hash_of bytes)) ≡ true
  pub put_keeps :
      (s : S) (bytes : Bytes) (id : ShardId)
      → is_shard (ops.get_shard s id) ≡ true
      → is_shard (ops.get_shard (ops.put_shard s bytes).1 id) ≡ true
  pub get_hash :
      (s : S) (id : ShardId) (bytes : Bytes) → ops.get_shard s id ≡ shard bytes → hash_of bytes ≡ id
  pub get_io : (s : S) (id : ShardId) → ops.get_shard s id ≢ io_error

-- The shards that were read are those of the stripe, where they were read.
abbrev pub Survivors : List Bytes → List (Option Bytes) → Type 0
Survivors [] [] = Unit
Survivors [] (x ∷ xs) = ⊥
Survivors (r ∷ rs) [] = ⊥
Survivors (r ∷ rs) (none ∷ xs) = Survivors rs xs
Survivors (r ∷ rs) (some x ∷ xs) = (x ≡ r) × Survivors rs xs

abbrev pub lost : List (Option Bytes) → ℕ
lost [] = 0
lost (none ∷ xs) = suc (lost xs)
lost (some x ∷ xs) = lost xs

abbrev pub member : ℕ → List ℕ → Bool
member pos [] = false
member pos (p ∷ ps) = eqb p pos || member pos ps

member_head : (pos : ℕ) (ps : List ℕ) → member pos (pos ∷ ps) ≡ true
member_head pos ps = ground arith

member_tail : (q pos : ℕ) (ps : List ℕ) → member pos ps ≡ true → member pos (q ∷ ps) ≡ true
member_tail q pos ps h = ground (arith, h)

pub get_elem?-map :
    (f : Bytes → ShardId) (xs : List Bytes) (i : ℕ) (x : Bytes)
    → get_elem? xs i ≡ some x
    → get_elem? (map f xs) i ≡ some (f x)
get_elem?-map f [] i x h = cc
get_elem?-map f (y ∷ xs) zero x h = ground (arith, h)
get_elem?-map f (y ∷ xs) (suc i) x h = get_elem?-map f xs i x h

abbrev pub Held : {S : Type 0} → StoreOps S → S → ShardId → Type 0
Held ops s id = is_shard (ops.get_shard s id) ≡ true

-- How many of the shards can be read.
unfoldable pub alive : {S : Type 0} → StoreOps S → S → List ShardId → ℕ
alive ops s [] = 0
alive ops s (id ∷ ids) = (if is_shard (ops.get_shard s id) then 1 else 0) + alive ops s ids

module _ {S : Type 0} (ops : StoreOps S) where
  abbrev pub Counts : ℕ → ℕ → Option (List (Option Bytes) × List ℕ) → Type 0
  Counts n k none = Unit
  Counts n k (some (shards, missing)) = length missing + k ≡ n

  fetched-Counts :
      (pos n k : ℕ) (f : Fetched) (rest : Option (List (Option Bytes) × List ℕ))
      → Counts n k rest
      → Counts (suc n) ((if is_shard f then 1 else 0) + k) (fetched f pos rest)
  fetched-Counts pos n k io_error rest h = tt
  fetched-Counts pos n k (shard bytes) none h = tt
  fetched-Counts pos n k not_found none h = tt
  fetched-Counts pos n k corrupt none h = tt
  fetched-Counts pos n k (shard bytes) (some (shards, missing)) h = omega (arith, h)
  fetched-Counts pos n k not_found (some (shards, missing)) h = omega (arith, h)
  fetched-Counts pos n k corrupt (some (shards, missing)) h = omega (arith, h)

  pub fetch-Counts :
      (s : S) (pos : ℕ) (ids : List ShardId)
      → Counts (length ids) (alive ops s ids) (fetch ops s pos ids)
  unfolding fetch alive
  fetch-Counts s pos [] = refl
  fetch-Counts s pos (id ∷ ids) =
      fetched-Counts pos (length ids) (alive ops s ids) (ops.get_shard s id)
        (fetch ops s (suc pos) ids) (fetch-Counts s (suc pos) ids)

module _ {S : Type 0} (ops : StoreOps S) (hash_of : Bytes → ShardId) (laws : StoreLaws ops hash_of)
    (no_collision : (a b : Bytes) → hash_of a ≡ hash_of b → a ≡ b) where
  -- What the first loop finds out.
  pub record Found (s : S) (pos : ℕ) (regen : List Bytes) (shards : List (Option Bytes))
      (missing : List ℕ) : Type 0 where
    pub survivors : Survivors regen shards
    pub count : lost shards ≡ length missing
    pub range : All (λ p. p < pos + length regen) missing
    pub covers :
        (k : ℕ) (r : Bytes)
        → get_elem? regen k ≡ some r
        → Held ops s (hash_of r) ⊎ (member (pos + k) missing ≡ true)

  abbrev pub IsFound : S → ℕ → List Bytes → Option (List (Option Bytes) × List ℕ) → Type 0
  IsFound s pos regen none = ⊥
  IsFound s pos regen (some (shards, missing)) = Found s pos regen shards missing

  range_cons :
      (pos n : ℕ) (missing : List ℕ)
      → All (λ p. p < suc pos + n) missing
      → All (λ p. p < pos + suc n) missing
  range_cons pos n [] a = tt
  range_cons pos n (p ∷ missing) a = (omega (arith, a.0), range_cons pos n missing a.1)

  covers_cons :
      (s : S) (pos : ℕ) (r : Bytes) (rs : List Bytes) (missing grown : List ℕ)
      → Held ops s (hash_of r) ⊎ (member pos grown ≡ true)
      → ((p : ℕ) → member p missing ≡ true → member p grown ≡ true)
      → ((k : ℕ) (x : Bytes)
          → get_elem? rs k ≡ some x
          → Held ops s (hash_of x) ⊎ (member (suc pos + k) missing ≡ true))
      → (k : ℕ) (x : Bytes) → get_elem? (r ∷ rs) k ≡ some x
      → Held ops s (hash_of x) ⊎ (member (pos + k) grown ≡ true)
  covers_cons s pos r rs missing grown first more rest zero x q =
      let same : r ≡ x = some-injective _ _ q in
      elim first [
        | inl held ↦ inl (rw (← same) held)
        | inr m ↦ inr (ap (λ p. member p grown) (omega arith) ∙ m)
      ]
  covers_cons s pos r rs missing grown first more rest (suc k) x q = elim (rest k x q) [
    | inl held ↦ inl held
    | inr m ↦ inr (ap (λ p. member p grown) (omega arith) ∙ more (suc pos + k) m)
  ]

  lost-IsFound :
      (s : S) (pos : ℕ) (r : Bytes) (rs : List Bytes) (shards : List (Option Bytes))
      (missing : List ℕ)
      → Found s (suc pos) rs shards missing
      → Found s pos (r ∷ rs) (none ∷ shards) (pos ∷ missing)
  lost-IsFound s pos r rs shards missing h = record {
    survivors = h.survivors;
    count = ap suc h.count;
    range = (omega arith, range_cons pos (length rs) missing h.range);
    covers =
        covers_cons s pos r rs missing (pos ∷ missing) (inr (member_head pos missing))
          (λ p m. member_tail pos p missing m) h.covers;
  }

  fetched-IsFound :
      (s : S) (pos : ℕ) (r : Bytes) (rs : List Bytes) (f : Fetched)
      (rest : Option (List (Option Bytes) × List ℕ))
      → ops.get_shard s (hash_of r) ≡ f
      → IsFound s (suc pos) rs rest
      → IsFound s pos (r ∷ rs) (fetched f pos rest)
  fetched-IsFound s pos r rs io_error rest e h = absurd (laws.get_io s (hash_of r) e)
  fetched-IsFound s pos r rs (shard bytes) none e h = absurd h
  fetched-IsFound s pos r rs not_found none e h = absurd h
  fetched-IsFound s pos r rs corrupt none e h = absurd h
  fetched-IsFound s pos r rs (shard bytes) (some (shards, missing)) e h = record {
    survivors = (no_collision bytes r (laws.get_hash s (hash_of r) bytes e), h.survivors);
    count = h.count;
    range = range_cons pos (length rs) missing h.range;
    covers = covers_cons s pos r rs missing missing (inl (rw e refl)) (λ p m. m) h.covers;
  }
  fetched-IsFound s pos r rs not_found (some (shards, missing)) e h =
      lost-IsFound s pos r rs shards missing h
  fetched-IsFound s pos r rs corrupt (some (shards, missing)) e h =
      lost-IsFound s pos r rs shards missing h

  pub fetch-IsFound :
      (s : S) (pos : ℕ) (regen : List Bytes)
      → IsFound s pos regen (fetch ops s pos (map hash_of regen))
  unfolding fetch
  fetch-IsFound s pos [] = record { survivors = tt; count = refl; range = tt; covers = λ k r h. cc }
  fetch-IsFound s pos (r ∷ rs) =
      fetched-IsFound s pos r rs (ops.get_shard s (hash_of r))
        (fetch ops s (suc pos) (map hash_of rs)) refl (fetch-IsFound s (suc pos) rs)
