-- ===== src/Ledger/Upkeep.antt =====
-- internal/ledger/ledger.go: the operations beside the claims: stripes, revoked grants, and the
-- reconciliation with the blobs on the disk (`Reconcile`, `recomputeAccounts`).
pub mod Reconciled
use revika.Base.{
  ℕ, suc, ◌+◌, min, Bool, true, false, not, Option, none, some, List, [], ◌∷◌, eqb, length,
  if◌then◌else◌, bytes_eq, ◌==◌, Bytes, Map, put,
}
use revika.Base.Int.{pos, ◌+ℤ◌}
use revika.Ledger.{
  ShardId, Owner, ShardRow, OwnerRow, Account, StripeRow, Db, Result, ok, err, empty_grant,
  unknown_shard, is_known, drop_record,
}

-- `PutStripe`: the foreign key refuses a shard that is not in the ledger.
unfoldable pub put_stripe : Db → ShardId → ℕ → ℕ → List ShardId → Bytes → Result Db
put_stripe db id k m siblings grant =
    if eqb (length grant) 0
    then err empty_grant
    else if is_known (db.shards id)
    then ok (record db {
      stripes = put db.stripes id (record { k = k; m = m; siblings = siblings; grant = grant });
    })
    else err unknown_shard

abbrev pub is_revoked : Option (Owner × ℕ) → Bool
is_revoked none = false
is_revoked (some r) = true

-- `RevokeGrant`: a second call changes nothing.
unfoldable pub revoke_grant : Db → Bytes → Owner → ℕ → Db
revoke_grant db nonce owner now =
    if is_revoked (db.revoked nonce)
    then db
    else record db { revoked = put db.revoked nonce (owner, now) }

unfoldable pub is_grant_revoked : Db → Bytes → Bool
is_grant_revoked db nonce = is_revoked (db.revoked nonce)

-- One row of the join of owners and shards, taken into its owner's group.
abbrev pub join_row : Option ShardRow → ℕ → Option Account → Option Account
join_row none put_at rest = rest
join_row (some s) put_at none =
    some (record { bytes_used = pos s.size; shard_count = pos 1; first_seen = put_at })
join_row (some s) put_at (some a) = some (record {
  bytes_used = a.bytes_used +ℤ pos s.size;
  shard_count = a.shard_count +ℤ pos 1;
  first_seen = min put_at a.first_seen;
})

-- The account that `recomputeAccounts` gives an owner.
unfoldable pub group : Map ShardId ShardRow → Owner → List OwnerRow → Option Account
group shards o [] = none
group shards o (r ∷ rows) =
    let rest = group shards o rows in
    if r.owner == o then join_row (shards r.shard_id) r.put_at rest else rest

unfoldable pub recompute_accounts : Db → Db
recompute_accounts db = record db { accounts = λ o. group db.shards o db.owners }

-- The loop of `Reconcile` over the shards that the ledger lists.
unfoldable pub drop_absent : (ShardId → Bool) → List ShardId → Db → Db
drop_absent on_disk [] db = db
drop_absent on_disk (id ∷ ids) db =
    drop_absent on_disk ids (if on_disk id then db else (drop_record db id).1)

unfoldable pub count_absent : (ShardId → Bool) → List ShardId → ℕ
count_absent there [] = 0
count_absent there (id ∷ ids) = (if there id then 0 else 1) + count_absent there ids

abbrev pub member : ShardId → List ShardId → Bool
member id [] = false
member id (j ∷ ids) = if j == id then true else member id ids

-- `Reconcile`: the numbers of dropped records and of orphan blobs, and the new tables. `ledger_ids`
-- is what the query of the shards table returns, `disk_ids` what the store lists.
unfoldable pub reconcile : Db → List ShardId → List ShardId → (ℕ × ℕ) × Db
unfolding drop_absent recompute_accounts count_absent
reconcile db ledger_ids disk_ids =
    let on_disk : ShardId → Bool = λ id. member id disk_ids in
    let in_ledger : ShardId → Bool = λ id. member id ledger_ids in
    (
      (count_absent on_disk ledger_ids, count_absent in_ledger disk_ids),
      recompute_accounts (drop_absent on_disk ledger_ids db),
    )
