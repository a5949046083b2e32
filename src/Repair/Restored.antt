-- ===== src/Repair/Restored.antt =====
-- What repair does to a chunk of which enough shards survive: all of them are there again.
use mathlib.Core.Option.{some-injective}
use revika.Base.{
  ℕ, suc, ◌+◌, ◌-◌, ◌≤◌, ◌<◌, ◌≡◌, ◌≢◌, inl, inr, refl, subst, sym, ap, ◌∙◌, true, false, Option,
  none, some, List, [], ◌∷◌, map, arith, ltb, eqb, length, get_elem?, get_elem?-some, if_pos,
  bytes_eq, Bytes, All, Bool-cases,
}
use revika.Store.{ShardId}
use revika.Repair.{
  StoreOps, Erasure, RepairError, fetch, put_regenerated, put_missing, restore, repair_chunk,
}
use revika.Repair.Survey.{
  StoreLaws, Survivors, lost, member, get_elem?-map, Held, IsFound, fetch-IsFound, alive, Counts,
  fetch-Counts,
}

-- A stripe is the code of a payload, and the code gives the payload back from any shards of the stripe
-- that are enough.
pub record IsStripe (code : Erasure) (sealed : Bytes) (regen : List Bytes) : Type 0 where
  pub encoded : code.encode sealed ≡ some regen
  pub decodes :
      (shards : List (Option Bytes))
      → Survivors regen shards
      → code.data_shards + lost shards ≤ length regen
      → code.decode shards ≡ some sealed

All-map :
    (f : Bytes → ShardId) (P : ShardId → Type 0) (xs : List Bytes)
    → ((k : ℕ) (x : Bytes) → get_elem? xs k ≡ some x → P (f x))
    → All P (map f xs)
All-map f P [] h = tt
All-map f P (x ∷ xs) h = (h 0 x refl, All-map f P xs (λ k y e. h (suc k) y e))

eqb→eq : (a b : ℕ) → eqb a b ≡ true → a ≡ b
eqb→eq a b h = ground arith

none_missing :
    (pos : ℕ) (missing : List ℕ) → eqb (length missing) 0 ≡ true → member pos missing ≢ true
none_missing pos [] h m = ground arith
none_missing pos (p ∷ missing) h m = ground arith

length-map : {A B : Type 0} (f : A → B) (xs : List A) → length (map f xs) ≡ length xs
length-map f [] = refl
length-map f (x ∷ xs) = ap suc (length-map f xs)

module _ {S : Type 0} (ops : StoreOps S) (hash_of : Bytes → ShardId) (laws : StoreLaws ops hash_of)
    (no_collision : (a b : Bytes) → hash_of a ≡ hash_of b → a ≡ b) where
  abbrev Restored : List Bytes → Option RepairError × S → Type 0
  Restored regen r = (r.0 ≡ none) × All (Held ops r.1) (map hash_of regen)

  -- What the last loop does from a state on, to the positions that are left.
  record Put (regen : List Bytes) (s : S) (missing : List ℕ) (r : Option RepairError × S)
      : Type 0 where
    done : r.0 ≡ none
    keeps : (id : ShardId) → Held ops s id → Held ops r.1 id
    holds :
        (pos : ℕ) (x : Bytes)
        → member pos missing ≡ true
        → get_elem? regen pos ≡ some x
        → Held ops r.1 (hash_of x)

  put_one :
      (regen : List Bytes) (s : S) (p : ℕ) (x : Bytes)
      → get_elem? regen p ≡ some x
      → put_regenerated ops s (get_elem? (map hash_of regen) p) (get_elem? regen p)
        ≡ (none, (ops.put_shard s x).1)
  put_one regen s p x h =
      rw
        (
          h,
          get_elem?-map hash_of regen p x h,
          laws.put_id s x,
          if_pos (bytes_eq.dec (hash_of x) (hash_of x)) refl true false,
        )
        refl

  put_missing-Put :
      (regen : List Bytes) (s : S) (missing : List ℕ)
      → All (λ p. p < length regen) missing
      → Put regen s missing (put_missing ops (map hash_of regen) regen s missing)
  unfolding put_missing
  put_missing-Put regen s [] a = record { done = refl; keeps = λ id h. h; holds = λ pos x m e. cc }
  put_missing-Put regen s (p ∷ missing) a =
      let found = get_elem?-some regen p a.0 in
      let s' = (ops.put_shard s found.0).1 in
      let rest = put_missing-Put regen s' missing a.1 in
      rw (put_one regen s p found.0 found.1) (record {
        done = rest.done;
        keeps = λ id h. rest.keeps id (laws.put_keeps s found.0 id h);
        holds = λ pos x m e. elim (Bool-cases (eqb p pos)) [
          | inl here ↦
              let same : found.0 ≡ x =
                some-injective _ _ (sym found.1 ∙ ap (get_elem? regen) (eqb→eq p pos here) ∙ e) in
              rest.keeps (hash_of x) (rw (← same) (laws.put_get s found.0))
          | inr there ↦ rest.holds pos x (rw there at m) e
        ];
      })

  restore-lem :
      (code : Erasure) (sealed : Bytes) (regen : List Bytes) (s : S)
      (found : Option (List (Option Bytes) × List ℕ))
      → IsStripe code sealed regen
      → IsFound ops hash_of laws no_collision s 0 regen found
      → Counts ops (length regen) (alive ops s (map hash_of regen)) found
      → code.data_shards ≤ alive ops s (map hash_of regen)
      → Restored regen (restore ops code (map hash_of regen) s found)
  restore-lem code sealed regen s none stripe h c enough = absurd h
  restore-lem code sealed regen s (some (shards, missing)) stripe h c enough =
      elim (Bool-cases (eqb (length missing) 0)) [
        | inl whole ↦ rw whole (
          refl,
          All-map hash_of (Held ops s) regen (λ k x e. elim (h.covers k x e) [
            | inl held ↦ held
            | inr m ↦ absurd (none_missing (0 + k) missing whole m)
          ]),
        )
        | inr gaps ↦
            let fits : ltb (length (map hash_of regen) - length missing) code.data_shards ≡ false =
              rw (length-map hash_of regen) (ground arith) in
            let p =
              put_missing-Put regen s missing
                (subst (λ n. All (λ p. p < n) missing) (omega arith) h.range) in
            rw
              (
                gaps,
                fits,
                stripe.decodes shards h.survivors (omega (arith, h.count)),
                stripe.encoded,
              )
              (
                p.done,
                All-map hash_of _ regen (λ k x e. elim (h.covers k x e) [
                  | inl held ↦ p.keeps (hash_of x) held
                  | inr m ↦ p.holds k x (ap (λ q. member q missing) (omega arith) ∙ m) e
                ]),
              )
      ]

  -- Over a store that keeps its laws, with a hash that has no collisions: a chunk of a stripe of
  -- which at least as many shards can be read as the code needs is restored without an error, and
  -- afterwards every one of its shards can be read.
  pub repair_chunk-restores :
      (code : Erasure) (sealed : Bytes) (regen : List Bytes) (s : S)
      → IsStripe code sealed regen
      → code.data_shards ≤ alive ops s (map hash_of regen)
      → ((repair_chunk ops code s (map hash_of regen)).0 ≡ none)
        × All (Held ops (repair_chunk ops code s (map hash_of regen)).1) (map hash_of regen)
  unfolding repair_chunk
  repair_chunk-restores code sealed regen s stripe enough =
      restore-lem code sealed regen s (fetch ops s 0 (map hash_of regen)) stripe
        (fetch-IsFound ops hash_of laws no_collision s 0 regen)
        (rw (length-map hash_of regen) at (fetch-Counts ops s 0 (map hash_of regen))) enough
