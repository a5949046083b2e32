-- ===== src/Server/Authority/Replies.antt =====
-- What the last step of a handler does to the claims.
use revika.Base.{
  Option-cases, ℕ, zero, suc, ◌≡◌, refl, ap, sym, inl, inr, Bool, true, false, Option, none, some,
  List, [], arith, bytes_eq, Bytes, Bool-cases,
}
use revika.Store.{ShardId, DiskStore, disk_delete}
use revika.Ledger.{
  Owner, OwnerRow, Db, Result, has_claim, add_owner, remove_owner, renew_lease, drop_record,
  count_owners, drop_claim,
}
use revika.Ledger
use revika.Ledger.Upkeep.{put_stripe}
use revika.Ledger.Others.{rows_of}
use revika.Ledger.Addition.{drop_record-claims}
use revika.Ledger.History.{after_or}
use revika.Stripe.{Descriptor}
use revika.Server.{
  done, refused, stored, blob, proof, presence, Server, Reply, keep_stripe, record_stripe,
  delete_reply, drop_last, deleted_blob,
}

-- The rows of an owner's claim on a shard.
abbrev pub held : ShardId → Owner → Option Db → List OwnerRow
held j o none = []
held j o (some db) = rows_of j o db.owners

put_stripe-owners :
    (db : Db) (id : ShardId) (d : Descriptor) (grant : Bytes)
    → (keep_stripe db (put_stripe db id d.k d.m d.shards grant)).owners ≡ db.owners
unfolding put_stripe
put_stripe-owners db id d grant = ground arith

pub record_stripe-owners :
    (added : Bool) (s : Option (Descriptor × Owner)) (db : Db) (id : ShardId) (grant : Bytes)
    → (record_stripe added s db id grant).owners ≡ db.owners
record_stripe-owners true (some d) db id grant = put_stripe-owners db id d.0 grant
record_stripe-owners true none db id grant = refl
record_stripe-owners false s db id grant = refl

-- The number of owners that `RemoveOwner` answers with.
abbrev pub Counted : ShardId → Result (ℕ × Db) → Type 0
Counted id (Ledger.err e) = Unit
Counted id (Ledger.ok (n, db)) = n ≡ count_owners id db.owners

pub remove_owner-Counted :
    (db : Db) (id : ShardId) (owner : Owner) → Counted id (remove_owner db id owner)
unfolding remove_owner
remove_owner-Counted db id owner = elim (Bool-cases (has_claim id owner db.owners)) [
  | inr absent ↦ rw absent tt
  | inl mine ↦ elim (Option-cases (db.shards id)) [
    | inl gone ↦ rw (mine, gone) tt
    | inr (s, e) ↦ rw (mine, e) refl
  ]
]

drop_last-held :
    (j : ShardId) (o : Owner) (db : Db) (srv : Server) (id : ShardId) (r : Reply × DiskStore)
    → count_owners id db.owners ≡ 0
    → held j o (drop_last db id r srv).1.ledger ≡ rows_of j o db.owners
drop_last-held j o db srv id (done, d) h = ap (rows_of j o) (drop_record-claims db id h)
drop_last-held j o db srv id (refused e, d) h = refl
drop_last-held j o db srv id (stored i, d) h = refl
drop_last-held j o db srv id (blob b, d) h = refl
drop_last-held j o db srv id (proof b, d) h = refl
drop_last-held j o db srv id (presence b, d) h = refl

pub delete_reply-held :
    (j : ShardId) (o : Owner) (db : Db) (srv : Server) (id : ShardId) (r : Result (ℕ × Db))
    → Counted id r
    → srv.ledger ≡ some db
    → held j o (delete_reply r id srv).1.ledger ≡ rows_of j o (after_or db r).owners
delete_reply-held j o db srv id (Ledger.err e) c h = ap (held j o) h
delete_reply-held j o db srv id (Ledger.ok (zero, db')) c h =
    drop_last-held j o db' srv id (deleted_blob true (disk_delete srv.store id)) (sym c)
delete_reply-held j o db srv id (Ledger.ok (suc n, db')) c h = refl
