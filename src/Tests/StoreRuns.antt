-- ===== src/Tests/StoreRuns.antt =====
-- Runs of the stores, of repair, of reconciliation and of the round-robin selector. The hash is the
-- identity, or the first byte where two contents are to differ under one name.
use revika.Base.{
  ◌+◌, ℕ, ◌≤◌, ◌≡◌, ◌≢◌, refl, ap, Bool, true, false, Option, none, some, List, [], ◌∷◌, arith, All,
  length, if◌then◌else◌, bytes_eq, Bytes, empty_map, put, nat_eq,
}
use revika.Base.Int.{pos}
use revika.Store as Store
use revika.Store.{
  ShardId, Access, store_put, store_delete, new_mem_store, mem_run, disk_run, mem_get, mem_has,
  disk_get, disk_has, disk_put, ok, failed, DiskStore,
}
use revika.Repair.{Erasure, repair_chunk, repair}
use revika.Repair.Survey.{Survivors, lost, Held, alive}
use revika.Repair.Restored.{IsStripe, repair_chunk-restores}
use revika.Repair.Memory.{SoundStore, mem_ops, mem-StoreLaws}
use revika.Repair.Rotten.{disk_ops, repair-rotten}
use revika.Ledger.{OwnerRow, Db, empty_db, is_known, has_claim, drop_record, drop_shard}
use revika.Ledger.Consistent.{IsConsistent}
use revika.Ledger.Upkeep.{reconcile, member, group}
use revika.Ledger.Upkeep.Reconciled.{HasClaims, reconcile-IsConsistent}
use revika.Placement.{Node, usable_nodes}
use revika.Placement.RoundRobin.{IsDistinct}

abbrev name : Bytes → ShardId
name bytes = bytes

abbrev first_byte : Bytes → ShardId
first_byte [] = []
first_byte (b ∷ bytes) = b ∷ []

abbrev blob : Bytes
blob = 4 ∷ 2 ∷ []

abbrev accesses : List Access
accesses = store_put blob ∷ store_put (7 ∷ []) ∷ store_delete (7 ∷ []) ∷ []

accesses_lem : mem_get (mem_run first_byte new_mem_store accesses) (4 ∷ []) ≡ ok blob
unfolding mem_get mem_run Store.mem_delete Store.mem_put new_mem_store bytes_eq
accesses_lem = refl

-- A disk with one file, whose bytes do not hash to its name.
abbrev rotten_disk : DiskStore
rotten_disk = put empty_map blob (9 ∷ [])

rotten_lem : rotten_disk blob ≡ some (9 ∷ [])
unfolding bytes_eq
rotten_lem = refl

nine : name (9 ∷ []) ≢ blob
nine h = ground arith

-- A code of one data and one parity shard: the payload, and the payload behind a 0.
abbrev decoded : List (Option Bytes) → Option Bytes
decoded (some x ∷ shards) = some x
decoded (none ∷ some (b ∷ x) ∷ shards) = some x
decoded shards = none

abbrev copies : Erasure
copies = record { data_shards = 1; decode = decoded; encode = λ x. some (x ∷ (0 ∷ x) ∷ []) }

abbrev stripe : List Bytes
stripe = blob ∷ (0 ∷ blob) ∷ []

decoded-stripe :
    (shards : List (Option Bytes))
    → Survivors stripe shards
    → 1 + lost shards ≤ 2
    → decoded shards ≡ some blob
decoded-stripe [] v h = absurd v
decoded-stripe (none ∷ []) v h = absurd v
decoded-stripe (some x ∷ shards) v h = ap some v.0
decoded-stripe (none ∷ none ∷ []) v h = absurd (omega arith)
decoded-stripe (none ∷ none ∷ x ∷ shards) v h = absurd v
decoded-stripe (none ∷ some [] ∷ []) v h = ground (arith, v)
decoded-stripe (none ∷ some (b ∷ x) ∷ []) v h = ground (arith, v)
decoded-stripe (none ∷ some x ∷ y ∷ shards) v h = absurd v.1

stripe-IsStripe : IsStripe copies blob stripe
stripe-IsStripe = record { encoded = refl; decodes = decoded-stripe }

-- Only the parity shard is there.
abbrev half : SoundStore name
half = ((mem_ops name).put_shard (empty_map, (λ id. tt)) (0 ∷ blob)).1

half-alive : 1 ≤ alive (mem_ops name) half stripe
unfolding alive mem_get Store.mem_put bytes_eq
half-alive = omega arith

repair_chunk-restores_example :
    ((repair_chunk (mem_ops name) copies half stripe).0 ≡ none)
    × All (Held (mem_ops name) (repair_chunk (mem_ops name) copies half stripe).1) stripe
repair_chunk-restores_example =
    repair_chunk-restores (mem_ops name) name (mem-StoreLaws name) (λ a b h. h) copies blob stripe
      half stripe-IsStripe half-alive

-- The parity shard beside a corrupted file.
abbrev rotten_stripe : DiskStore
rotten_stripe = put rotten_disk (0 ∷ blob) (0 ∷ blob)

stripe_lem : rotten_stripe blob ≡ some (9 ∷ [])
unfolding bytes_eq
stripe_lem = refl

repair-rotten_example :
    (disk_get name (repair (disk_ops name) copies rotten_stripe (stripe ∷ [])).1 blob
      ≡ failed Store.corrupt)
    × (disk_has (repair (disk_ops name) copies rotten_stripe (stripe ∷ [])).1 blob ≡ true)
repair-rotten_example =
    repair-rotten name blob (9 ∷ []) copies rotten_stripe (stripe ∷ []) stripe_lem nine

-- That repair reports no error, and a chunk with nothing missing.
repair_run :
    (repair (disk_ops name) copies rotten_stripe (stripe ∷ [])).0
    ≡ ([], some (record { index = 0; present = 2; total = 2; missing = [] } ∷ []))
unfolding repair disk_get disk_has bytes_eq disk_put
repair_run = refl

abbrev row : ShardId → ℕ → OwnerRow
row id put_at = record { shard_id = id; owner = 1 ∷ []; put_at = put_at; expiry = 0 }

-- Two claims of one owner, and an account that shows something else.
abbrev drifted : Db
drifted = record empty_db {
  shards =
      put (put empty_map blob (record { size = 2; created = 5 })) (8 ∷ [])
        (record { size = 9; created = 6 });
  owners = row blob 50 ∷ row (8 ∷ []) 6 ∷ [];
  accounts =
      put empty_map (1 ∷ []) (record { bytes_used = pos 77; shard_count = pos 1; first_seen = 5 });
}

drifted-HasClaims : HasClaims drifted
unfolding bytes_eq has_claim
drifted-HasClaims = (((λ h. ground arith), ((λ h. ground arith), tt)), (refl, (refl, tt)))

drifted_lem : is_known (drifted.shards blob) ≡ member blob (blob ∷ (8 ∷ []) ∷ [])
unfolding bytes_eq
drifted_lem = refl

reconcile-IsConsistent_example :
    IsConsistent (reconcile drifted (blob ∷ (8 ∷ []) ∷ []) (blob ∷ [])).1
    × (is_known ((reconcile drifted (blob ∷ (8 ∷ []) ∷ []) (blob ∷ [])).1.shards blob)
        ≡ (if is_known (drifted.shards blob) then member blob (blob ∷ []) else false))
reconcile-IsConsistent_example =
    reconcile-IsConsistent drifted (blob ∷ (8 ∷ []) ∷ []) (blob ∷ []) blob drifted-HasClaims
      drifted_lem

-- The owner was first seen at 5, and the claim that stays was last renewed at 50.
reconcile_run :
    (reconcile drifted (blob ∷ (8 ∷ []) ∷ []) (blob ∷ [])).1.accounts (1 ∷ [])
    ≡ some (record { bytes_used = pos 2; shard_count = pos 1; first_seen = 50 })
unfolding reconcile group bytes_eq drop_record drop_shard
reconcile_run = refl

abbrev node : ℕ → Bool → Node
node n down = record { id = n ∷ []; domain = []; free = 0; weight = 0; down = down }

abbrev candidates : List Node
candidates = node 1 false ∷ node 2 true ∷ node 3 false ∷ node 4 false ∷ []

candidates-IsDistinct : IsDistinct (usable_nodes candidates)
unfolding usable_nodes
candidates-IsDistinct =
    (((λ h. ground arith), ((λ h. ground arith), tt)), (((λ h. ground arith), tt), (tt, tt)))

candidates_lem : 3 ≤ length (usable_nodes candidates)
unfolding usable_nodes
candidates_lem = omega arith
