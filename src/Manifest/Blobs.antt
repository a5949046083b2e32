-- ===== src/Manifest/Blobs.antt =====
-- internal/manifest: directories as blobs (manifest.go, dir.go). A blob is one chunk of the pipeline; JSON
-- is a parameter. A world is a store with what is left of the random source.
pub mod Codec
pub mod Filled
use revika.Base.{
  ℕ, zero, suc, map, ◌+◌, ◌<◌, ◌≤◌, ◌^◌, ◌≡◌, Bool, true, false, not, ◌||◌, Option, none, some,
  List, [], ◌∷◌, ltb, eqb, length, if◌then◌else◌, Bytes, ◌>>=◌,
}
use revika.Store.{ShardId}
use revika.Repair.{Fetched, shard, not_found, corrupt, io_error}
use revika.Erasure.{Params}
use revika.Pipeline.{Primitives, Config, ChunkRef, StripeStore, store_chunk, load_chunk}
use revika.Manifest.{Kind, file, dir, is_dir, ReadCap, StatCache, Entry, DirManifest, sort_by_name}

-- `hex.EncodeToString` and `hex.DecodeString`.
pub record Hex : Type 0 where
  pub encode_hex : Bytes → Bytes
  pub decode_hex : Bytes → Option Bytes

-- `readCapJSON`: the key and the names of the shards as hexadecimal texts.
pub record JsonCap : Type 0 where
  pub kind : Kind
  pub key : Bytes
  pub compressed : Bool
  pub k : ℕ
  pub m : ℕ
  pub shards : List Bytes

pub record JsonEntry : Type 0 where
  pub name : Bytes
  pub cap : JsonCap
  pub stat : StatCache

-- `json.Marshal` of a version, the attributes and the entries of a directory, and `json.Unmarshal`.
-- `M` is the attributes whose texts are valid UTF-8: JSON does not keep others.
pub record Json {ℓ} (M : Type ℓ) : Type ℓ where
  pub hex : Hex
  pub marshal : ℕ → M → List JsonEntry → Option Bytes
  pub unmarshal : Bytes → Option (ℕ × (M × List JsonEntry))

-- What a byte that goes on may be in UTF-8, and how many more go on after it.
pub record Pending : Type 0 where
  pub more : ℕ
  pub low : ℕ
  pub high : ℕ

abbrev pub pending : ℕ → ℕ → ℕ → Option Pending
pending more low high = some (record { more = more; low = low; high = high })

-- A first byte.
abbrev utf8_lead : ℕ → Option Pending
utf8_lead b =
    if ltb b 0x80
    then pending 0 0 0
    else if ltb b 0xc2
    then none
    else if ltb b 0xe0
    then pending 1 0x80 0xbf
    else if eqb b 0xe0
    then pending 2 0xa0 0xbf
    else if eqb b 0xed
    then pending 2 0x80 0x9f
    else if ltb b 0xf0
    then pending 2 0x80 0xbf
    else if eqb b 0xf0
    then pending 3 0x90 0xbf
    else if ltb b 0xf4
    then pending 3 0x80 0xbf
    else if eqb b 0xf4
    then pending 3 0x80 0x8f
    else none

abbrev utf8_step : Pending → ℕ → Option Pending
utf8_step st b = elim st.more [
  | zero ↦ utf8_lead b
  | suc more ↦ if ltb b st.low || ltb st.high b then none else pending more 0x80 0xbf
]

unfoldable pub utf8_from : Option Pending → Bytes → Bool
utf8_from none bs = false
utf8_from (some st) [] = eqb st.more 0
utf8_from (some st) (b ∷ bs) = utf8_from (utf8_step st b) bs

-- Go's `utf8.ValidString`: `json.Marshal` keeps the bytes of such a text, and writes U+FFFD for what is
-- not valid in another.
unfoldable pub is_utf8 : Bytes → Bool
unfolding utf8_from
is_utf8 bs = utf8_from (pending 0 0 0) bs

pub record VerifyCap : Type 0 where
  pub kind : Kind
  pub compressed : Bool
  pub k : ℕ
  pub m : ℕ
  pub shards : List ShardId

-- `ReadCap.VerifyCap`
unfoldable pub verify_cap : ReadCap → VerifyCap
verify_cap c = record {
  kind = c.kind;
  compressed = c.compressed;
  k = c.k;
  m = c.m;
  shards = c.shards;
}

-- `ReadCap.Params`
unfoldable pub cap_params : ReadCap → Params
cap_params c = record { k = c.k; m = c.m }

-- `chunkRef`
unfoldable pub chunk_ref : ReadCap → ChunkRef
chunk_ref c = record { key = c.key; compressed = c.compressed; shards = c.shards }

unfoldable pub cap_from_ref : Kind → ChunkRef → Params → ReadCap
cap_from_ref kind ref p = record {
  kind = kind;
  key = ref.key;
  compressed = ref.compressed;
  k = p.k;
  m = p.m;
  shards = ref.shards;
}

abbrev pub kind_eqb : Kind → Kind → Bool
kind_eqb file file = true
kind_eqb dir dir = true
kind_eqb a b = false

-- `maxManifestShardsPerChunk`
abbrev pub max_shards : ℕ
max_shards = 256

abbrev pub dir_version : ℕ
dir_version = 1

-- `decodeKey` and `decodeShardID`: 32 bytes.
abbrev pub of_width : Bytes → Option Bytes
of_width raw = if eqb (length raw) 32 then some raw else none

module _ (hex : Hex) where
  abbrev pub decode_width : Bytes → Option Bytes
  decode_width text = hex.decode_hex text >>= of_width

  -- `ReadCap.MarshalJSON`
  unfoldable pub marshal_cap : ReadCap → JsonCap
  marshal_cap c = record {
    kind = c.kind;
    key = hex.encode_hex c.key;
    compressed = c.compressed;
    k = c.k;
    m = c.m;
    shards = map hex.encode_hex c.shards;
  }

  abbrev pub decode_ids : List Bytes → Option (List ShardId)
  decode_ids [] = some []
  decode_ids (t ∷ texts) = decode_width t >>= (λ id. decode_ids texts >>= (λ ids. some (id ∷ ids)))

  -- `ReadCap.UnmarshalJSON`
  unfoldable pub unmarshal_cap : JsonCap → Option ReadCap
  unmarshal_cap j = decode_width j.key >>= (λ key.
      if ltb max_shards (length j.shards)
      then none
      else (decode_ids j.shards >>= (λ ids. some (record {
        kind = j.kind;
        key = key;
        compressed = j.compressed;
        k = j.k;
        m = j.m;
        shards = ids;
      }))))

  unfoldable pub marshal_entry : Entry → JsonEntry
  unfolding marshal_cap
  marshal_entry e = record { name = e.name; cap = marshal_cap e.cap; stat = e.stat }

  unfoldable pub unmarshal_entries : List JsonEntry → Option (List Entry)
  unfolding unmarshal_cap
  unmarshal_entries [] = some []
  unmarshal_entries (j ∷ js) = unmarshal_cap j.cap >>= (λ c.
      unmarshal_entries js >>= (λ es. some (record { name = j.name; cap = c; stat = j.stat } ∷ es)))

module _ {ℓ} {M : Type ℓ} (json : Json M) where
  -- `EncodeDir`
  unfoldable pub encode_dir : DirManifest M → Option Bytes
  unfolding marshal_entry
  encode_dir d =
      json.marshal dir_version d.attrs (map (marshal_entry json.hex) (sort_by_name d.entries))

  abbrev pub versioned : ℕ → M → List Entry → Option (DirManifest M)
  versioned version attrs entries =
      if ltb version 1 || ltb dir_version version
      then none
      else some (record { attrs = attrs; entries = sort_by_name entries })

  abbrev pub decoded : ℕ × (M × List JsonEntry) → Option (DirManifest M)
  decoded (version, (attrs, entries)) =
      unmarshal_entries json.hex entries >>= (λ es. versioned version attrs es)

  -- `DecodeDir`
  unfoldable pub decode_dir : Bytes → Option (DirManifest M)
  unfolding unmarshal_entries
  decode_dir bytes = json.unmarshal bytes >>= decoded

module _ (prims : Primitives) {S : Type 0} (store : StripeStore S) where
  abbrev pub as_cap : Kind → Params → Option (ChunkRef × Bytes) × S → Option (ReadCap × Bytes) × S
  as_cap kind p (none, s) = (none, s)
  as_cap kind p (some (ref, random), s) = (some (cap_from_ref kind ref p, random), s)

  unfoldable pub put_blob : Config → Kind → S → Bytes → Bytes → Option (ReadCap × Bytes) × S
  unfolding cap_from_ref
  put_blob cfg kind s random bytes =
      as_cap kind cfg.params (store_chunk prims store cfg s random bytes)

  unfoldable pub get_blob : S → ReadCap → Kind → Option Bytes
  unfolding cap_params chunk_ref
  get_blob s c want =
      if kind_eqb c.kind want then load_chunk prims store s (cap_params c) (chunk_ref c) else none

  -- The loop of `VerifyBlob`: how many shards can be fetched.
  abbrev pub one_more : Fetched → Option ℕ → Option ℕ
  one_more io_error rest = none
  one_more f none = none
  one_more (shard bytes) (some n) = some (suc n)
  one_more not_found (some n) = some n
  one_more corrupt (some n) = some n

  unfoldable pub count_shards : S → List ShardId → Option ℕ
  count_shards s [] = some 0
  count_shards s (id ∷ ids) = one_more (store.ops.get_shard s id) (count_shards s ids)

  abbrev pub enough_shards : ℕ → Option ℕ → Bool
  enough_shards k none = false
  enough_shards k (some n) = not (ltb n k)

  -- `VerifyBlob`: whether it answers no error.
  unfoldable pub verify_blob : S → VerifyCap → Bool
  unfolding count_shards
  verify_blob s v = if eqb v.k 0 then false else enough_shards v.k (count_shards s v.shards)

  module _ {ℓ} {M : Type ℓ} (json : Json M) where
    abbrev pub World : Type 0
    World = S × Bytes

    -- The world after a blob was put; a put that fails ends the operation, and its caller.
    abbrev pub world_after : Bytes → Option (ReadCap × Bytes) × S → Option ReadCap × World
    world_after random (none, s) = (none, (s, random))
    world_after random (some (c, left), s) = (some c, (s, left))

    abbrev pub put_encoded : Config → World → Option Bytes → Option ReadCap × World
    put_encoded cfg w none = (none, w)
    put_encoded cfg (s, random) (some bytes) = world_after random (put_blob cfg dir s random bytes)

    -- `StoreDir`
    unfoldable pub store_dir : Config → World → DirManifest M → Option ReadCap × World
    unfolding encode_dir put_blob
    store_dir cfg w d = put_encoded cfg w (encode_dir json d)

    -- `LoadDir`
    unfoldable pub load_dir : World → ReadCap → Option (DirManifest M)
    unfolding get_blob decode_dir
    load_dir w c = get_blob w.0 c dir >>= decode_dir json
