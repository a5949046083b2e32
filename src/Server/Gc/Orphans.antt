-- ===== src/Server/Gc/Orphans.antt =====
-- What a cycle of the collector leaves alone.
use revika.Base.{
  ◌≢◌, subst, if_neg, ℕ, ◌/◌, ◌≡◌, refl, ap, sym, ◌∙◌, inl, inr, Bool, true, false, some, List, [],
  ◌∷◌, arith, ltb, bytes_eq, Bytes, length, Bool-cases, Option-cases,
}
use revika.Cap.{Signatures}
use revika.Store.{ShardId, DiskStore, is_held, disk_put, disk_delete}
use revika.Ledger.{
  Owner, Db, LedgerError, err, is_known, add_owner, collect_record, drop_record, count_live,
}
use revika.Ledger.Upkeep.{member}
use revika.Net.AuthCache.{second}
use revika.Server.{Config, Server, Reply, refused, admitted, of_ledger_error, grant_refused}
use revika.Server.Handle.{has_slot, put_authority, handle_put, put_with, stripe_of}
use revika.Server.Authority.Passed.{Passes, PutAuthority, PutAuthority-Passes}
use revika.Server.Sound.{disk_put-held}
use revika.Server.Gc.{delete_dropped, collect_one, collect, run_gc}

collect_unknown :
    (db : Db) (id : ShardId) (now : ℕ) (expire : Bool)
    → is_known (db.shards id) ≡ false
    → collect_record db id now expire ≡ (false, db)
unfolding collect_record drop_record
collect_unknown db id now expire h = elim (Option-cases (db.shards id)) [
  | inr (row, e) ↦ absurd (let k : true ≡ false = rw e at h in cc)
  | inl gone ↦ elim (Bool-cases (ltb 0 (count_live id expire now db.owners))) [
    | inl live ↦ rw live refl
    | inr dead ↦ rw (dead, gone) refl
  ]
]

collect-shards :
    (db : Db) (id j : ShardId) (now : ℕ) (expire : Bool)
    → is_known (db.shards j) ≡ false
    → is_known ((collect_record db id now expire).1.shards j) ≡ false
unfolding collect_record drop_record
collect-shards db id j now expire h =
    elim (Bool-cases (ltb 0 (count_live id expire now db.owners))) [
      | inl live ↦ rw live h
      | inr dead ↦ elim (Option-cases (db.shards id)) [
        | inl gone ↦ rw (dead, gone) h
        | inr (row, e) ↦ rw (dead, e) (ground (arith, h))
      ]
    ]

disk_delete-other : (d : DiskStore) (id j : ShardId) → id ≢ j → (disk_delete d id).1 j ≡ d j
unfolding disk_delete
disk_delete-other d id j other = elim (Bool-cases (is_held (d id))) [
  | inl there ↦ rw (there, if_neg (bytes_eq.dec id j) other true false) refl
  | inr absent ↦ rw absent refl
]

delete_dropped-unknown :
    (db : Db) (d : DiskStore) (id j : ShardId) (now : ℕ) (expire : Bool)
    → is_known (db.shards j) ≡ false
    → (delete_dropped (collect_record db id now expire) d id).0 j ≡ d j
unfolding disk_delete
delete_dropped-unknown db d id j now expire h = elim (bytes_eq.dec id j) [
  | yes same ↦
      rw (collect_unknown db id now expire (ap (λ i. is_known (db.shards i)) same ∙ h)) refl
  | no other ↦ by_answer other (collect_record db id now expire)
]
  where
    by_answer : id ≢ j → (r : Bool × Db) → (delete_dropped r d id).0 j ≡ d j
    by_answer other (true, after) = disk_delete-other d id j other
    by_answer other (false, after) = refl

delete_dropped-shards :
    (r : Bool × Db) (d : DiskStore) (id : ShardId) → (delete_dropped r d id).1 ≡ r.1
delete_dropped-shards (true, db) d id = refl
delete_dropped-shards (false, db) d id = refl

collect_one-unknown :
    (prev : List ShardId) (now : ℕ) (expire : Bool) (id j : ShardId) (s : DiskStore × Db)
    → is_known (s.1.shards j) ≡ false
    → let s' = collect_one prev now expire id s in
      (s'.0 j ≡ s.0 j) × (is_known (s'.1.shards j) ≡ false)
collect_one-unknown prev now expire id j s h = elim (Bool-cases (member id prev)) [
  | inr young ↦ rw young (refl, h)
  | inl old ↦ rw old (
    delete_dropped-unknown s.1 s.0 id j now expire h,
    ap (λ db. is_known (db.shards j))
          (delete_dropped-shards (collect_record s.1 id now expire) s.0 id)
        ∙ collect-shards s.1 id j now expire h,
  )
]

collect-unknown :
    (prev ids : List ShardId) (now : ℕ) (expire : Bool) (s : DiskStore × Db) (j : ShardId)
    → is_known (s.1.shards j) ≡ false
    → (collect prev now expire ids s).0 j ≡ s.0 j
unfolding collect
collect-unknown prev [] now expire s j h = refl
collect-unknown prev (id ∷ ids) now expire s j h =
    let one = collect_one-unknown prev now expire id j s h in
    collect-unknown prev ids now expire (collect_one prev now expire id s) j one.1 ∙ one.0

module _ (hash_of : Bytes → ShardId) (sigs : Signatures) (meets_pow : Bytes → ℕ → Bool)
    (conf : Config) where
  -- What becomes of the bytes of a refused PUT.
  abbrev Orphaned : LedgerError → Db → ShardId → (DiskStore → DiskStore) → Reply × Server → Type 0
  Orphaned e db id cycle r =
      (r.0 ≡ refused (of_ledger_error e))
      × ((r.1.ledger ≡ some db) × (is_held (cycle r.1.store id) ≡ true))

  pub refused_put-orphan :
      (srv srv' : Server) (db : Db) (owner : Owner) (e : LedgerError)
      (peer shard token stripe grant : Bytes) (reason now : ℕ)
      (prev ids ledger_ids disk_ids : List ShardId) (later : ℕ) (expire : Bool)
      → has_slot hash_of sigs meets_pow conf srv.free_slots ≡ true
      → srv.ledger ≡ some db
      → grant_refused db
          (stripe_of hash_of sigs meets_pow conf (hash_of shard) stripe grant now)
          grant
        ≡ false
      → put_authority hash_of sigs meets_pow conf srv
          (hash_of shard)
          token
          (stripe_of hash_of sigs meets_pow conf (hash_of shard) stripe grant now)
          now
        ≡ admitted owner srv'
      → add_owner conf.options db (hash_of shard) owner (length shard) (now / second) ≡ err e
      → is_known (db.shards (hash_of shard)) ≡ false
      → Orphaned e db
          (hash_of shard)
          (λ d. (run_gc prev later expire ids ledger_ids disk_ids (d, db)).1.0)
          (handle_put hash_of sigs meets_pow conf srv peer shard token stripe grant reason now)
  unfolding handle_put run_gc
  refused_put-orphan srv srv' db owner e peer shard token stripe grant reason now prev ids
        ledger_ids disk_ids later expire slot ledger live passed full unknown =
      let id = hash_of shard in
      let s = stripe_of hash_of sigs meets_pow conf id stripe grant now in
      let cycle : DiskStore → DiskStore =
        λ d. (run_gc prev later expire ids ledger_ids disk_ids (d, db)).1.0 in
      let store' = (disk_put hash_of srv'.store shard).1 in
      let checked =
        subst (Passes (PutAuthority hash_of sigs meets_pow conf id token stripe grant now) srv)
          passed (PutAuthority-Passes hash_of sigs meets_pow conf srv id token stripe grant now) in
      let ledger' = checked.1.0 ∙ ledger in
      let stays : is_held (cycle store' id) ≡ true =
        ap is_held (collect-unknown prev ids later expire (store', db) id unknown)
        ∙ disk_put-held hash_of srv'.store shard in
      rw slot (
        subst
          (λ l.
            Orphaned e db id cycle
              (put_with hash_of sigs meets_pow conf l srv peer shard token s grant reason now))
          (sym ledger) (rw (live, passed, full) (refl, (ledger', stays))))
