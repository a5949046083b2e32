-- ===== src/Server/Gc.antt =====
-- The garbage collector of the Node (`runGC` in cmd/revika-node/main.go) on the store and the ledger that
-- the handlers share. What the queries of the ledger and the listing of the store return are arguments.
pub mod Orphans
pub mod Upheld
use revika.Base.{ℕ, Bool, true, false, List, [], ◌∷◌, if◌then◌else◌}
use revika.Store.{ShardId, DiskStore, disk_delete}
use revika.Ledger.{Db, collect_record}
use revika.Ledger.Upkeep.{member, reconcile}

-- What follows the answer of `CollectRecord`: the blob goes only if the record was dropped.
abbrev pub delete_dropped : Bool × Db → DiskStore → ShardId → DiskStore × Db
delete_dropped (true, db) d id = ((disk_delete d id).1, db)
delete_dropped (false, db) d id = (d, db)

-- One round of the loop over the collectible shards; `prev` are those of the cycle before.
abbrev pub collect_one : List ShardId → ℕ → Bool → ShardId → DiskStore × Db → DiskStore × Db
collect_one prev now expire id s =
    if member id prev then delete_dropped (collect_record s.1 id now expire) s.0 id else s

unfoldable pub collect : List ShardId → ℕ → Bool → List ShardId → DiskStore × Db → DiskStore × Db
collect prev now expire [] s = s
collect prev now expire (id ∷ ids) s =
    collect prev now expire ids (collect_one prev now expire id s)

-- One cycle: the store and the ledger after it, and the baseline for the next.
unfoldable pub run_gc :
    List ShardId
    → ℕ
    → Bool
    → List ShardId
    → List ShardId
    → List ShardId
    → DiskStore × Db
    → List ShardId × (DiskStore × Db)
unfolding collect
run_gc prev now expire ids ledger_ids disk_ids s =
    let s' = collect prev now expire ids s in (ids, (s'.0, (reconcile s'.1 ledger_ids disk_ids).1))
