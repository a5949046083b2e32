-- ===== src/Ledger/Addition.antt =====
-- Whose claims `AddOwner` and `DropRecord` change.
use revika.Base.{
  ℕ, ◌≡◌, refl, true, false, ◌&&◌, ◌||◌, List, [], ◌∷◌, arith, bytes_eq, ◌==◌, Bool-cases,
  Option-cases, inl, inr,
}
use revika.Ledger.{
  ShardId, Owner, Options, OwnerRow, Db, has_claim, add_owner, over_quota, drop_shard, drop_record,
  count_owners, lease_expiry,
}
use revika.Ledger.Claims.{has_claim-renew}
use revika.Ledger.Removal.{is_ok}
use revika.Ledger.History.{after_or}

held_or :
    (id j : ShardId) (owner o : Owner) (rows : List OwnerRow)
    → has_claim id owner rows ≡ true
    → has_claim j o rows ≡ has_claim j o rows || ((id == j) && (owner == o))
held_or id j owner o rows h = elim (bytes_eq.dec id j) [
  | yes same ↦ elim (bytes_eq.dec owner o) [
    | yes mine ↦ let e : has_claim j o rows ≡ true = rw (same, mine) at h in ground (arith, e)
    | no other ↦ ground arith
  ]
  | no other ↦ ground arith
]

-- AddOwner adds the claim that it is called for, if it succeeds, and changes no other.
pub add_owner-claims :
    (opts : Options) (db : Db) (id j : ShardId) (owner o : Owner) (size now : ℕ)
    → let r = add_owner opts db id owner size now in
      has_claim j o (after_or db r).owners
      ≡ has_claim j o db.owners || (is_ok r && ((id == j) && (owner == o)))
unfolding add_owner has_claim
add_owner-claims opts db id j owner o size now = elim (Bool-cases (has_claim id owner db.owners)) [
  | inl held ↦
      rw (held, has_claim-renew id owner now (lease_expiry opts now) j o db.owners)
        (held_or id j owner o db.owners held)
  | inr new ↦ elim (Bool-cases (over_quota opts (db.accounts owner) size now)) [
    | inl over ↦ rw (new, over) (ground arith)
    | inr fits ↦ rw (new, fits) (ground arith)
  ]
]

has_claim-none :
    (id : ShardId) (o : Owner) (rows : List OwnerRow)
    → count_owners id rows ≡ 0
    → has_claim id o rows ≡ false
unfolding has_claim count_owners
has_claim-none id o [] h = refl
has_claim-none id o (r ∷ rows) h = ground (arith, has_claim-none id o rows)

drop_shard-none :
    (id : ShardId) (rows : List OwnerRow) → count_owners id rows ≡ 0 → drop_shard id rows ≡ rows
unfolding drop_shard count_owners
drop_shard-none id [] h = refl
drop_shard-none id (r ∷ rows) h = ground (arith, drop_shard-none id rows)

-- Where nobody claims the shard, DropRecord changes no claim.
pub drop_record-claims :
    (db : Db) (id : ShardId)
    → count_owners id db.owners ≡ 0
    → (drop_record db id).1.owners ≡ db.owners
unfolding drop_record
drop_record-claims db id h = elim (Option-cases (db.shards id)) [
  | inl gone ↦ rw gone refl
  | inr (s, e) ↦ rw e (drop_shard-none id db.owners h)
]
