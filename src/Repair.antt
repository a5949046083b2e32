-- ===== src/Repair.antt =====
-- internal/repair/repair.go: what a file's shards look like in the store (`Check`), and the
-- restoration of the missing ones (`Repair`). The erasure code is a parameter, and so is the store,
-- through the interface below; contexts and the texts of the errors are left out.
pub mod Survey
pub mod Restored
pub mod Memory
pub mod Rotten
use revika.Base.{
  ℕ, suc, ◌+◌, ◌-◌, Bool, true, false, Option, none, some, List, [], ◌∷◌, ltb, leb, eqb, length,
  get_elem?, if◌then◌else◌, bytes_eq, ◌==◌, Bytes,
}
use revika.Store.{ShardId}

pub data Fetched : Type 0 where
  shard : Bytes → Fetched
  not_found corrupt io_error : Fetched

-- `store.Store`, as far as repair uses it. A put that fails answers `none`.
pub record StoreOps (S : Type 0) : Type 0 where
  pub put_shard : S → Bytes → Option ShardId × S
  pub get_shard : S → ShardId → Fetched
  pub has_shard : S → ShardId → Option Bool

-- `erasure.Decode` and `erasure.Encode` at the parameters of a file, and K.
pub record Erasure : Type 0 where
  pub data_shards : ℕ
  pub decode : List (Option Bytes) → Option Bytes
  pub encode : Bytes → Option (List Bytes)

pub record ChunkStatus : Type 0 where
  pub index : ℕ
  pub present : ℕ
  pub total : ℕ
  pub missing : List ℕ

unfoldable pub recoverable : ChunkStatus → ℕ → Bool
recoverable c k = leb k c.present

unfoldable pub chunk_healthy : ChunkStatus → Bool
chunk_healthy c = eqb (length c.missing) 0

unfoldable pub report_healthy : List ChunkStatus → Bool
unfolding chunk_healthy
report_healthy [] = true
report_healthy (c ∷ cs) = let rest = report_healthy cs in if chunk_healthy c then rest else false

unfoldable pub missing_shards : List ChunkStatus → ℕ
missing_shards [] = 0
missing_shards (c ∷ cs) = length c.missing + missing_shards cs

pub data RepairError : Type 0 where
  get_failed unrecoverable decode_failed encode_failed put_failed regenerated_other : RepairError
  out_of_range : RepairError

abbrev pub seen_shard : Option Bool → ℕ → Option (ℕ × List ℕ) → Option (ℕ × List ℕ)
seen_shard none pos rest = none
seen_shard (some held) pos none = none
seen_shard (some true) pos (some (n, missing)) = some (suc n, missing)
seen_shard (some false) pos (some (n, missing)) = some (n, pos ∷ missing)

abbrev pub fetched :
    Fetched → ℕ → Option (List (Option Bytes) × List ℕ) → Option (List (Option Bytes) × List ℕ)
fetched io_error pos rest = none
fetched f pos none = none
fetched (shard bytes) pos (some (shards, missing)) = some (some bytes ∷ shards, missing)
fetched not_found pos (some (shards, missing)) = some (none ∷ shards, pos ∷ missing)
fetched corrupt pos (some (shards, missing)) = some (none ∷ shards, pos ∷ missing)

module _ {S : Type 0} (ops : StoreOps S) where
  -- The inner loop of `Check`: how many shards are there, and the positions of the others.
  unfoldable pub probe : S → ℕ → List ShardId → Option (ℕ × List ℕ)
  probe s pos [] = some (0, [])
  probe s pos (id ∷ ids) = seen_shard (ops.has_shard s id) pos (probe s (suc pos) ids)

  abbrev status : ℕ → ℕ → ℕ × List ℕ → ChunkStatus
  status index total p = record { index = index; present = p.0; total = total; missing = p.1 }

  abbrev pub add_status :
      ℕ → ℕ → Option (ℕ × List ℕ) → Option (List ChunkStatus) → Option (List ChunkStatus)
  add_status index total none rest = none
  add_status index total (some p) none = none
  add_status index total (some p) (some rest) = some (status index total p ∷ rest)

  -- `Check`, over the identifiers of each chunk's shards.
  unfoldable pub check : S → ℕ → List (List ShardId) → Option (List ChunkStatus)
  unfolding probe
  check s index [] = some []
  check s index (ids ∷ chunks) =
      add_status index (length ids) (probe s 0 ids) (check s (suc index) chunks)

  -- The first loop of `repairChunk`: what survives, and the positions of what does not.
  unfoldable pub fetch : S → ℕ → List ShardId → Option (List (Option Bytes) × List ℕ)
  fetch s pos [] = some ([], [])
  fetch s pos (id ∷ ids) = fetched (ops.get_shard s id) pos (fetch s (suc pos) ids)

  -- The end of one step of the last loop of `repairChunk`: the identifier that the put answered.
  abbrev pub same_id : Option ShardId → ShardId → Option RepairError
  same_id none want = some put_failed
  same_id (some got) want = if got == want then none else some regenerated_other

  -- One step of the last loop: an index out of range is a panic.
  abbrev pub put_regenerated : S → Option ShardId → Option Bytes → Option RepairError × S
  put_regenerated s none bytes = (some out_of_range, s)
  put_regenerated s (some want) none = (some out_of_range, s)
  put_regenerated s (some want) (some bytes) =
      let r = ops.put_shard s bytes in (same_id r.0 want, r.1)

  abbrev pub is_error : Option RepairError → Bool
  is_error none = false
  is_error (some e) = true

  unfoldable pub put_missing : List ShardId → List Bytes → S → List ℕ → Option RepairError × S
  put_missing ids regen s [] = (none, s)
  put_missing ids regen s (pos ∷ missing) =
      let r = put_regenerated s (get_elem? ids pos) (get_elem? regen pos) in
      let rest = put_missing ids regen r.1 missing in if is_error r.0 then r else rest

  abbrev pub put_encoded : List ShardId → S → List ℕ → Option (List Bytes) → Option RepairError × S
  put_encoded ids s missing none = (some encode_failed, s)
  put_encoded ids s missing (some regen) = put_missing ids regen s missing

  module _ (code : Erasure) where
    abbrev pub regenerate : List ShardId → S → List ℕ → Option Bytes → Option RepairError × S
    regenerate ids s missing none = (some decode_failed, s)
    regenerate ids s missing (some sealed) = put_encoded ids s missing (code.encode sealed)

    abbrev pub restore :
        List ShardId → S → Option (List (Option Bytes) × List ℕ) → Option RepairError × S
    restore ids s none = (some get_failed, s)
    restore ids s (some (shards, missing)) =
        if eqb (length missing) 0
        then (none, s)
        else if ltb (length ids - length missing) code.data_shards
        then (some unrecoverable, s)
        else regenerate ids s missing (code.decode shards)

    -- `repairChunk`
    unfoldable pub repair_chunk : S → List ShardId → Option RepairError × S
    unfolding fetch put_missing
    repair_chunk s ids = restore ids s (fetch s 0 ids)

    -- The loop of `Repair`: every chunk has its turn, whatever became of the others.
    unfoldable pub repair_chunks : S → List (List ShardId) → List RepairError × S
    unfolding repair_chunk
    repair_chunks s [] = ([], s)
    repair_chunks s (ids ∷ chunks) =
        let r = repair_chunk s ids in
        let rest = repair_chunks r.1 chunks in
        (elim r.0 [ none ↦ rest.0 | some e ↦ e ∷ rest.0 ], rest.1)

    -- `Repair`: the errors, and the report on what is there afterwards.
    unfoldable pub repair :
        S → List (List ShardId) → (List RepairError × Option (List ChunkStatus)) × S
    unfolding repair_chunks check
    repair s chunks = let r = repair_chunks s chunks in ((r.0, check r.1 0 chunks), r.1)
