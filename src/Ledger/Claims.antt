-- ===== src/Ledger/Claims.antt =====
-- The rows of the owners table: one for each claim, and what the statements on them do.
use revika.Base.{
  ℕ, ◌+◌, ◌≡◌, refl, true, false, ◌&&◌, List, [], ◌∷◌, arith, if◌then◌else◌, bytes_eq, ◌==◌, Map,
  Bool-cases, inl, inr,
}
use revika.Ledger.{ShardId, Owner, ShardRow, OwnerRow, is_claim, has_claim, renew, drop_claim}
use revika.Ledger.Accounts.{size_of, used, claims, Known}

-- The primary key (shard_id, owner) is unique.
abbrev pub IsUnique : List OwnerRow → Type 0
IsUnique [] = Unit
IsUnique (r ∷ rows) = (has_claim r.shard_id r.owner rows ≡ false) × IsUnique rows

module _ (id : ShardId) (owner : Owner) (now expiry : ℕ) where
  pub has_claim-renew :
      (j : ShardId) (o : Owner) (rows : List OwnerRow)
      → has_claim j o (renew id owner now expiry rows) ≡ has_claim j o rows
  unfolding has_claim renew
  has_claim-renew j o [] = refl
  has_claim-renew j o (r ∷ rows) = ground (arith, has_claim-renew j o rows)

  pub used-renew :
      (shards : Map ShardId ShardRow) (o : Owner) (rows : List OwnerRow)
      → used shards o (renew id owner now expiry rows) ≡ used shards o rows
  unfolding used renew
  used-renew shards o [] = refl
  used-renew shards o (r ∷ rows) = ground (arith, used-renew shards o rows)

  pub claims-renew :
      (o : Owner) (rows : List OwnerRow) → claims o (renew id owner now expiry rows) ≡ claims o rows
  unfolding claims renew
  claims-renew o [] = refl
  claims-renew o (r ∷ rows) = ground (arith, claims-renew o rows)

  pub renew-Known :
      (shards : Map ShardId ShardRow) (rows : List OwnerRow)
      → Known shards rows
      → Known shards (renew id owner now expiry rows)
  unfolding renew
  renew-Known shards [] k = tt
  renew-Known shards (r ∷ rows) k = elim (Bool-cases (is_claim id owner r)) [
    | inl here ↦ rw here (k.0, renew-Known shards rows k.1)
    | inr there ↦ rw there (k.0, renew-Known shards rows k.1)
  ]

  pub renew-IsUnique :
      (rows : List OwnerRow) → IsUnique rows → IsUnique (renew id owner now expiry rows)
  unfolding renew
  renew-IsUnique [] u = tt
  renew-IsUnique (r ∷ rows) u = elim (Bool-cases (is_claim id owner r)) [
    | inl here ↦ rw (here, has_claim-renew r.shard_id r.owner rows) (u.0, renew-IsUnique rows u.1)
    | inr there ↦ rw (there, has_claim-renew r.shard_id r.owner rows) (u.0, renew-IsUnique rows u.1)
  ]

module _ (id : ShardId) (owner : Owner) where
  drop_claim-absent :
      (rows : List OwnerRow) → has_claim id owner rows ≡ false → drop_claim id owner rows ≡ rows
  unfolding has_claim drop_claim
  drop_claim-absent [] h = refl
  drop_claim-absent (r ∷ rows) h = ground (arith, drop_claim-absent rows)

  -- A claim is dropped alone: every other claim stays.
  pub has_claim-drop_claim :
      (j : ShardId) (o : Owner) (rows : List OwnerRow)
      → has_claim j o (drop_claim id owner rows)
        ≡ (if (id == j) && (owner == o) then false else has_claim j o rows)
  unfolding has_claim drop_claim
  has_claim-drop_claim j o [] = ground arith
  has_claim-drop_claim j o (r ∷ rows) = ground (arith, has_claim-drop_claim j o rows)

  -- What the owner was charged for the claim is the size of the shard.
  pub used-drop_claim :
      (shards : Map ShardId ShardRow) (o : Owner) (rows : List OwnerRow)
      → IsUnique rows
      → has_claim id owner rows ≡ true
      → used shards o rows
        ≡ (if owner == o then size_of (shards id) else 0) + used shards o (drop_claim id owner rows)
  unfolding has_claim drop_claim used
  used-drop_claim shards o [] u h = cc
  used-drop_claim shards o (r ∷ rows) u h =
      ground (arith, used-drop_claim shards o rows u.1, drop_claim-absent rows)

  pub claims-drop_claim :
      (o : Owner) (rows : List OwnerRow)
      → IsUnique rows
      → has_claim id owner rows ≡ true
      → claims o rows ≡ (if owner == o then 1 else 0) + claims o (drop_claim id owner rows)
  unfolding has_claim drop_claim claims
  claims-drop_claim o [] u h = cc
  claims-drop_claim o (r ∷ rows) u h =
      ground (arith, claims-drop_claim o rows u.1, drop_claim-absent rows)

  pub drop_claim-Known :
      (shards : Map ShardId ShardRow) (rows : List OwnerRow)
      → Known shards rows
      → Known shards (drop_claim id owner rows)
  unfolding drop_claim
  drop_claim-Known shards [] k = tt
  drop_claim-Known shards (r ∷ rows) k = elim (Bool-cases (is_claim id owner r)) [
    | inl here ↦ rw here (drop_claim-Known shards rows k.1)
    | inr there ↦ rw there (k.0, drop_claim-Known shards rows k.1)
  ]

  pub drop_claim-IsUnique :
      (rows : List OwnerRow) → IsUnique rows → IsUnique (drop_claim id owner rows)
  unfolding drop_claim
  drop_claim-IsUnique [] u = tt
  drop_claim-IsUnique (r ∷ rows) u = elim (Bool-cases (is_claim id owner r)) [
    | inl here ↦ rw here (drop_claim-IsUnique rows u.1)
    | inr there ↦ rw there (
      ground (arith, has_claim-drop_claim r.shard_id r.owner rows, u.0),
      drop_claim-IsUnique rows u.1,
    )
  ]
