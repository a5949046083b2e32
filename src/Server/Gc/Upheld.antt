-- ===== src/Server/Gc/Upheld.antt =====
-- After a cycle of the collector the store still holds what the ledger knows.
use revika.Base.{ℕ, inl, inr, Bool, List, [], ◌∷◌, arith, ltb, Bool-cases, Option-cases}
use revika.Store.{ShardId, DiskStore, is_held, disk_delete}
use revika.Ledger.{Options, Db, collect_record, drop_record, count_live}
use revika.Ledger.Upkeep.{member, reconcile, recompute_accounts}
use revika.Ledger.Upkeep.Reconciled.{drop_absent-known}
use revika.Server.Sound.{Backed, drop_record-Backed, drop_record-Backed_store}
use revika.Server.Gc.{collect_one, collect, run_gc}

-- `drop_record` keeps the invariant with the blob deleted, whether or not it was there.
module _ (opts : Options) where
  deleted-Backed :
      (d : DiskStore) (db : Db) (id : ShardId)
      → Backed d db
      → Backed (disk_delete d id).1 (drop_record db id).1
  unfolding disk_delete
  deleted-Backed d db id b = elim (Bool-cases (is_held (d id))) [
    | inl there ↦ rw there (drop_record-Backed opts d db id b)
    | inr absent ↦ rw absent (drop_record-Backed_store opts d db id b)
  ]

  collect_one-Backed :
      (prev : List ShardId) (now : ℕ) (expire : Bool) (id : ShardId) (s : DiskStore × Db)
      → Backed s.0 s.1
      → let s' = collect_one prev now expire id s in Backed s'.0 s'.1
  unfolding collect_record drop_record
  collect_one-Backed prev now expire id s b = elim (Bool-cases (member id prev)) [
    | inr young ↦ rw young b
    | inl old ↦ elim (Bool-cases (ltb 0 (count_live id expire now s.1.owners))) [
      | inl live ↦ rw (old, live) b
      | inr dead ↦ elim (Option-cases (s.1.shards id)) [
        | inl gone ↦ rw (old, dead, gone) b
        | inr (row, e) ↦
            let deleted = rw e at (deleted-Backed s.0 s.1 id b) in rw (old, dead, e) deleted
      ]
    ]
  ]

  collect-Backed :
      (prev ids : List ShardId) (now : ℕ) (expire : Bool) (s : DiskStore × Db)
      → Backed s.0 s.1
      → let s' = collect prev now expire ids s in Backed s'.0 s'.1
  unfolding collect
  collect-Backed prev [] now expire s b = b
  collect-Backed prev (id ∷ ids) now expire s b =
      collect-Backed prev ids now expire (collect_one prev now expire id s)
        (collect_one-Backed prev now expire id s b)

  reconcile-Backed :
      (d : DiskStore) (db : Db) (ledger_ids disk_ids : List ShardId)
      → Backed d db
      → Backed d (reconcile db ledger_ids disk_ids).1
  unfolding reconcile recompute_accounts
  reconcile-Backed d db ledger_ids disk_ids b j =
      ground (arith, b j, drop_absent-known (λ id. member id disk_ids) ledger_ids db j)

  -- If a store has the bytes of every shard that the ledger knows, a cycle of the collector, whatever
  -- its queries list, leaves it with the bytes of every shard that the ledger knows afterwards.
  pub run_gc-Backed :
      (prev ids ledger_ids disk_ids : List ShardId) (now : ℕ) (expire : Bool) (d : DiskStore)
      (db : Db)
      → Backed d db
      → let s = (run_gc prev now expire ids ledger_ids disk_ids (d, db)).1 in Backed s.0 s.1
  unfolding run_gc
  run_gc-Backed prev ids ledger_ids disk_ids now expire d db b =
      reconcile-Backed _ _ ledger_ids disk_ids (collect-Backed prev ids now expire (d, db) b)
