-- ===== src/Ledger.antt =====
-- internal/ledger/ledger.go: the tables of the ledger, and its operations as transactions on them.
-- A table is a function from its primary key, but for `owners`, which is the list of its rows.
-- Times are Unix seconds. An error of the database engine rolls the transaction back, and is not
-- modelled; nor are the schema migrations and the queries that only fill a page of the browser.
pub mod Quota
pub mod Accounts
pub mod Claims
pub mod Consistent
pub mod Collect
pub mod History
pub mod Usage
pub mod Removal
pub mod Others
pub mod Addition
pub mod Upkeep
use revika.Base.{
  ℕ, ◌+◌, ◌-◌, ◌*◌, ◌/◌, Bool, true, false, not, ◌&&◌, ◌||◌, Option, none, some, List, [], ◌∷◌, ltb,
  leb, eqb, if◌then◌else◌, Eq, bytes_eq, ◌==◌, Bytes, Map, empty_map, put, remove, keep, max,
}
use revika.Base.Int.{ℤ, pos, ◌+ℤ◌, ◌-ℤ◌, leb_ℤ, ltb_ℤ}

abbrev pub ShardId : Type 0
ShardId = Bytes

abbrev pub Owner : Type 0
Owner = Bytes

-- `quota_ramp` is in seconds; the initial fraction is the quotient of two numbers.
pub record Options : Type 0 where
  pub quota_bytes : ℕ
  pub lease_ttl : ℕ
  pub quota_ramp : ℕ
  pub fraction_num : ℕ
  pub fraction_den : ℕ

pub record ShardRow : Type 0 where
  pub size : ℕ
  pub created : ℕ

pub record OwnerRow : Type 0 where
  pub shard_id : ShardId
  pub owner : Owner
  pub put_at : ℕ
  pub expiry : ℕ

pub record Account : Type 0 where
  pub bytes_used : ℤ
  pub shard_count : ℤ
  pub first_seen : ℕ

pub record StripeRow : Type 0 where
  pub k : ℕ
  pub m : ℕ
  pub siblings : List ShardId
  pub grant : Bytes

pub record Db : Type 0 where
  pub shards : Map ShardId ShardRow
  pub owners : List OwnerRow
  pub accounts : Map Owner Account
  pub stripes : Map ShardId StripeRow
  pub revoked : Map Bytes (Owner × ℕ)

abbrev pub empty_db : Db
empty_db = record {
  shards = empty_map;
  owners = [];
  accounts = empty_map;
  stripes = empty_map;
  revoked = empty_map;
}

pub data LedgerError : Type 0 where
  quota_exceeded unauthorized empty_grant unknown_shard : LedgerError

pub data Result (A : Type 0) : Type 0 where
  ok : A → Result A
  err : LedgerError → Result A

-- `WHERE shard_id=? AND owner=?`
abbrev pub is_claim : ShardId → Owner → OwnerRow → Bool
is_claim id owner r = (r.shard_id == id) && (r.owner == owner)

unfoldable pub has_claim : ShardId → Owner → List OwnerRow → Bool
has_claim id owner [] = false
has_claim id owner (r ∷ rows) = is_claim id owner r || has_claim id owner rows

-- `UPDATE owners SET put_at=?, expiry=? WHERE shard_id=? AND owner=?`
unfoldable pub renew : ShardId → Owner → ℕ → ℕ → List OwnerRow → List OwnerRow
renew id owner now expiry [] = []
renew id owner now expiry (r ∷ rows) =
    (if is_claim id owner r then record r { put_at = now; expiry = expiry } else r)
    ∷ renew id owner now expiry rows

-- The expiry of a lease that starts now; 0 stands for no expiry.
unfoldable pub lease_expiry : Options → ℕ → ℕ
lease_expiry opts now = if ltb 0 opts.lease_ttl then now + opts.lease_ttl else 0

-- `effectiveQuota`. The code computes full * (frac + (1 - frac) * age / ramp) in floating point and
-- cuts it to an integer; here it is the exact quotient.
unfoldable pub effective_quota : Options → ℕ → ℕ → ℕ
effective_quota opts first_seen now =
    let full = opts.quota_bytes in
    let num = opts.fraction_num in
    let den = opts.fraction_den in
    let ramp = opts.quota_ramp in
    let age = now - first_seen in
    if leb ramp 0
    then full
    else if leb num 0 || leb den num
    then full
    else if leb ramp age
    then full
    else max (full * (num * ramp + (den - num) * age) / (den * ramp)) 1

-- The usage and the first claim of an owner; one with no account starts now.
abbrev pub usage_of : Option Account → ℕ → ℤ × ℕ
usage_of none now = (pos 0, now)
usage_of (some a) now = (a.bytes_used, a.first_seen)

-- The quota test on a new claim. The first shard of an owner is always admitted.
unfoldable pub over_quota : Options → Option Account → ℕ → ℕ → Bool
unfolding effective_quota
over_quota opts account size now =
    let u = usage_of account now in
    ltb 0 opts.quota_bytes
    && (ltb_ℤ (pos 0) u.0 && ltb_ℤ (pos (effective_quota opts u.1 now)) (u.0 +ℤ pos size))

-- `INSERT INTO shards … ON CONFLICT(id) DO NOTHING`
abbrev pub insert_new : Option ShardRow → ShardRow → ShardRow
insert_new none row = row
insert_new (some old) row = old

-- `INSERT INTO accounts … ON CONFLICT(owner) DO UPDATE …`
unfoldable pub charge_up : Option Account → ℕ → ℕ → Account
charge_up none size now = record { bytes_used = pos size; shard_count = pos 1; first_seen = now }
charge_up (some a) size now = record a {
  bytes_used = a.bytes_used +ℤ pos size;
  shard_count = a.shard_count +ℤ pos 1;
}

-- `AddOwner`: whether the claim is new, and the new tables.
unfoldable pub add_owner : Options → Db → ShardId → Owner → ℕ → ℕ → Result (Bool × Db)
unfolding lease_expiry
add_owner opts db id owner size now =
    if has_claim id owner db.owners
    then ok (false, record db { owners = renew id owner now (lease_expiry opts now) db.owners })
    else if over_quota opts (db.accounts owner) size now
    then err quota_exceeded
    else ok (
      true,
      record db {
        shards =
            put db.shards id (insert_new (db.shards id) (record { size = size; created = now }));
        owners =
            record { shard_id = id; owner = owner; put_at = now; expiry = lease_expiry opts now }
            ∷ db.owners;
        accounts = put db.accounts owner (charge_up (db.accounts owner) size now);
      },
    )

-- `RenewLease`
unfoldable pub renew_lease : Options → Db → ShardId → Owner → ℕ → Result Db
renew_lease opts db id owner now =
    if eqb opts.lease_ttl 0
    then ok db
    else if has_claim id owner db.owners
    then ok (record db { owners = renew id owner now (now + opts.lease_ttl) db.owners })
    else err unauthorized

-- `chargeDown` on the account of one owner: the row goes when no shard is left.
unfoldable pub charge_down : Option Account → ℕ → Option Account
charge_down none size = none
charge_down (some a) size =
    let left = a.shard_count -ℤ pos 1 in
    if leb_ℤ left (pos 0)
    then none
    else some (record a { bytes_used = a.bytes_used -ℤ pos size; shard_count = left })

abbrev pub set_account : Map Owner Account → Owner → Option Account → Map Owner Account
set_account accounts owner a o = if owner == o then a else accounts o

-- `DELETE FROM owners WHERE shard_id=? AND owner=?`
unfoldable pub drop_claim : ShardId → Owner → List OwnerRow → List OwnerRow
drop_claim id owner [] = []
drop_claim id owner (r ∷ rows) =
    let rest = drop_claim id owner rows in if is_claim id owner r then rest else r ∷ rest

-- `SELECT COUNT(*) FROM owners WHERE shard_id=?`
unfoldable pub count_owners : ShardId → List OwnerRow → ℕ
count_owners id [] = 0
count_owners id (r ∷ rows) = (if r.shard_id == id then 1 else 0) + count_owners id rows

-- The part of `RemoveOwner` behind the join of the claim with its shard.
abbrev pub remove_claim : Option ShardRow → Db → ShardId → Owner → Result (ℕ × Db)
remove_claim none db id owner = err unauthorized
remove_claim (some s) db id owner =
    let rows = drop_claim id owner db.owners in
    ok (
      count_owners id rows,
      record db {
        owners = rows;
        accounts = set_account db.accounts owner (charge_down (db.accounts owner) s.size);
      },
    )

-- `RemoveOwner`: how many owners remain, and the new tables.
unfoldable pub remove_owner : Db → ShardId → Owner → Result (ℕ × Db)
remove_owner db id owner =
    if has_claim id owner db.owners
    then remove_claim (db.shards id) db id owner
    else err unauthorized

-- The loop of `dropRecordTx` over the owners of the shard.
unfoldable pub credit_all : ShardId → ℕ → List OwnerRow → Map Owner Account → Map Owner Account
credit_all id size [] accounts = accounts
credit_all id size (r ∷ rows) accounts = credit_all id size rows (
    if r.shard_id == id
    then set_account accounts r.owner (charge_down (accounts r.owner) size)
    else accounts)

-- `DELETE FROM owners WHERE shard_id=?`
unfoldable pub drop_shard : ShardId → List OwnerRow → List OwnerRow
drop_shard id [] = []
drop_shard id (r ∷ rows) =
    let rest = drop_shard id rows in if r.shard_id == id then rest else r ∷ rest

abbrev pub drop_row : Option ShardRow → Db → ShardId → Bool × Db
drop_row none db id = (false, db)
drop_row (some s) db id = (
  true,
  record db {
    shards = remove db.shards id;
    owners = drop_shard id db.owners;
    accounts = credit_all id s.size db.owners db.accounts;
    stripes = remove db.stripes id;
  },
)

-- `dropRecordTx`, and so `DropRecord`. The stripe row goes by the foreign key's cascade.
unfoldable pub drop_record : Db → ShardId → Bool × Db
drop_record db id = drop_row (db.shards id) db id

-- `expiry = 0 OR expiry >= ?`
abbrev pub is_live : Bool → ℕ → OwnerRow → Bool
is_live expire_leases now r = not expire_leases || (eqb r.expiry 0 || leb now r.expiry)

unfoldable pub count_live : ShardId → Bool → ℕ → List OwnerRow → ℕ
count_live id expire_leases now [] = 0
count_live id expire_leases now (r ∷ rows) =
    (if (r.shard_id == id) && is_live expire_leases now r then 1 else 0)
    + count_live id expire_leases now rows

-- `CollectRecord`
unfoldable pub collect_record : Db → ShardId → ℕ → Bool → Bool × Db
unfolding drop_record
collect_record db id now expire_leases =
    if ltb 0 (count_live id expire_leases now db.owners) then (false, db) else drop_record db id

-- `Collectible`, as a test of one shard.
abbrev pub is_known : Option ShardRow → Bool
is_known none = false
is_known (some s) = true

unfoldable pub collectible : Db → ShardId → ℕ → Bool → Bool
collectible db id now expire_leases =
    is_known (db.shards id) && eqb (count_live id expire_leases now db.owners) 0
