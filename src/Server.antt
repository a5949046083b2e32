-- ===== src/Server.antt =====
-- internal/net/server.go: the handlers of a Node's requests, as steps on the state of its `Server`:
-- the store, the ledger, the replay cache, the limiter of owners and the abuse monitor. A handler
-- takes the request that was read from the stream and answers with what it writes there. Go's nil
-- pointers are `none`. The proof-of-work puzzle, the hash and the signatures are parameters.
-- Announcements, contexts, deadlines and logging are left out.
pub mod Handle
pub mod Sound
pub mod Authority
pub mod Gc
pub mod Races
use revika.Base.{
  ℕ, zero, suc, ◌/◌, ◌+◌, Bool, true, false, ◌&&◌, ◌||◌, not, Option, none, some, List, [], ◌∷◌,
  ◌++◌, ltb, eqb, if◌then◌else◌, Bytes, length, ◌>>=◌, bytes_eq,
}
use revika.Cap.{Signatures}
use revika.Store.{ShardId, DiskStore, disk_put, disk_get, disk_has, disk_delete}
use revika.Store
use revika.Ledger.{
  Owner, Options, Db, LedgerError, Result, add_owner, renew_lease, remove_owner, drop_record,
}
use revika.Ledger
use revika.Ledger.Upkeep.{put_stripe, revoke_grant, is_grant_revoked}
use revika.Stripe.{Descriptor, contains, unmarshal, verify_grant, nonce_of}
use revika.Net.AuthCache.{second, Cache, seen}
use revika.Net.Bucket.{Limiter}
use revika.Net.RateLimit.{allow}
use revika.Net.Abuse.{AbuseMonitor, record_rebalance_move}
use revika.Net.Token.{token_signature, verify_token}
use revika.Net.Wire.{
  Op, op_put, op_delete, op_renew, op_revoke_grant, reason_rebalance, NetError, not_found, corrupt,
  unauthorized, quota_exceeded, rate_limited, other,
}
use revika.Net.Wire.Frame.{
  Request, put_request, get_request, has_request, delete_request, renew_request,
  revoke_grant_request,
}

-- What does not change while the Node serves.
pub record Config : Type 0 where
  pub node : Bytes
  pub options : Options
  pub pow_min : ℕ

-- `free_slots` is the room that is left in `putSem` when a request comes in.
pub record Server : Type 0 where
  pub store : DiskStore
  pub ledger : Option Db
  pub tokens : Cache Bytes
  pub limiter : Option (Limiter Bytes)
  pub abuse : Option (AbuseMonitor Bytes)
  pub free_slots : Option ℕ

pub data Reply : Type 0 where
  done : Reply
  refused : NetError → Reply
  stored : ShardId → Reply
  blob proof : Bytes → Reply
  presence : Bool → Reply

-- How the checks of a request end: with the owner it is for, or with the error that is replied.
pub data Checked : Type 0 where
  admitted : Owner → Server → Checked
  denied : NetError → Server → Checked

-- `errToStatus` on the errors of the ledger and of the store.
abbrev pub of_ledger_error : LedgerError → NetError
of_ledger_error Ledger.quota_exceeded = quota_exceeded
of_ledger_error Ledger.unauthorized = unauthorized
of_ledger_error Ledger.empty_grant = other
of_ledger_error Ledger.unknown_shard = other

abbrev pub of_store_error : Store.StoreError → NetError
of_store_error Store.not_found = not_found
of_store_error Store.corrupt = corrupt

abbrev pub after_seen : Owner → Bool → Server → Checked
after_seen owner true srv = denied unauthorized srv
after_seen owner false srv = admitted owner srv

-- The replay check behind `verifyToken`.
abbrev pub check_owner : Option Owner → Bytes → ℕ → Server → Checked
check_owner none token now srv = denied unauthorized srv
check_owner (some owner) token now srv =
    let r = seen srv.tokens (token_signature token) now in
    after_seen owner r.0 (record srv { tokens = r.1 })

abbrev pub after_allow : Owner → Bool → Server → Checked
after_allow owner true srv = admitted owner srv
after_allow owner false srv = denied rate_limited srv

-- `srv.limiter.Allow`
abbrev pub meter : Checked → ℕ → Checked
meter (denied e srv) now = denied e srv
meter (admitted owner srv) now =
    let r = allow srv.limiter owner now in after_allow owner r.0 (record srv { limiter = r.1 })

-- `IsGrantRevoked` on the nonce of a grant that verified.
abbrev pub grant_refused : Db → Option (Descriptor × Owner) → Bytes → Bool
grant_refused db none grant = false
grant_refused db (some d) grant = is_grant_revoked db (nonce_of grant)

-- The step of the abuse monitor: no token, a verified grant, and a declared rebalance.
abbrev pub is_move : Bytes → Option (Descriptor × Owner) → ℕ → Bool
is_move [] (some d) reason = eqb reason reason_rebalance
is_move token s reason = false

abbrev pub record_move : Option (AbuseMonitor Bytes) → Bytes → ℕ → Option (AbuseMonitor Bytes)
record_move none peer now = none
record_move (some monitor) peer now = some (record_rebalance_move monitor peer now).1

-- `PutStripe` after a new claim; its error is only logged.
abbrev pub keep_stripe : Db → Result Db → Db
keep_stripe db (Ledger.ok db') = db'
keep_stripe db (Ledger.err e) = db

abbrev pub record_stripe : Bool → Option (Descriptor × Owner) → Db → ShardId → Bytes → Db
record_stripe true (some d) db id grant =
    keep_stripe db (put_stripe db id d.0.k d.0.m d.0.shards grant)
record_stripe added s db id grant = db

-- The end of `handlePut`, once `AddOwner` has answered.
abbrev pub put_reply :
    Result (Bool × Db) → Option (Descriptor × Owner) → ShardId → Bytes → Server → Reply × Server
put_reply (Ledger.err e) s id grant srv = (refused (of_ledger_error e), srv)
put_reply (Ledger.ok r) s id grant srv =
    (stored id, record srv { ledger = some (record_stripe r.0 s r.1 id grant) })

abbrev pub deleted_blob : Bool → Store.Outcome Unit × DiskStore → Reply × DiskStore
deleted_blob ignore_absent (Store.ok u, d) = (done, d)
deleted_blob true (Store.failed Store.not_found, d) = (done, d)
deleted_blob ignore_absent (Store.failed e, d) = (refused (of_store_error e), d)

-- The end of `handleDelete`: the blob and the record go with the last claim.
abbrev pub drop_last : Db → ShardId → Reply × DiskStore → Server → Reply × Server
drop_last db id (done, d) srv =
    (done, record srv { store = d; ledger = some (drop_record db id).1 })
drop_last db id (reply, d) srv = (reply, record srv { store = d; ledger = some db })

abbrev pub delete_reply : Result (ℕ × Db) → ShardId → Server → Reply × Server
delete_reply (Ledger.err e) id srv = (refused (of_ledger_error e), srv)
delete_reply (Ledger.ok (zero, db)) id srv =
    drop_last db id (deleted_blob true (disk_delete srv.store id)) srv
delete_reply (Ledger.ok (suc remaining, db)) id srv = (done, record srv { ledger = some db })

abbrev pub renew_reply : Result Db → Server → Reply × Server
renew_reply (Ledger.err e) srv = (refused (of_ledger_error e), srv)
renew_reply (Ledger.ok db) srv = (done, record srv { ledger = some db })

abbrev pub blob_reply : (Bytes → Bytes) → (Bytes → Reply) → Store.Outcome Bytes → Reply
blob_reply f make (Store.ok bytes) = make (f bytes)
blob_reply f make (Store.failed e) = refused (of_store_error e)
