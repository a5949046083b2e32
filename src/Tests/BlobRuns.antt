-- ===== src/Tests/BlobRuns.antt =====
-- A directory through a blob, with a hash that gives 32 numbers and a JSON that is a list of fields.
use mathlib.Core.Option.{some-injective}
use revika.Base.{
  ℕ, zero, suc, ◌+◌, ◌*◌, ◌^◌, ◌<◌, ◌≡◌, refl, sym, ap, ◌∙◌, subst, true, false, Bool, Option, some,
  none, List, [], ◌∷◌, ◌++◌, Bytes, arith, length, eqb, ltb, if◌then◌else◌, read_full,
  read_full-append, ◌>>=◌, take, Bool-cases, inl, inr, bytes_eq, be_bytes,
}
use revika.Store.Integrity.{IsAddressed}
use revika.Store.{new_mem_store, mem_put, mem_get}
use revika.Repair.Memory.{SoundStore, mem_ops, mem-StoreLaws}
use revika.Erasure.{encode}
use revika.Pipeline.{store_chunk, Primitives, StripeStore, plain_store}
use revika.Pipeline.Laws.{PrimitiveLaws, StripeLaws, plain-StripeLaws}
use revika.Manifest.{sort_by_name, insert_by_name, Kind, StatCache, Entry, DirManifest, ReadCap}
use revika.Manifest.Blobs.{
  Json, JsonCap, JsonEntry, is_utf8, utf8_from, store_dir, load_dir, verify_blob, verify_cap,
}
use revika.Manifest.Blobs.Codec.{FitsEntry, JsonLaws}
use revika.Manifest.Blobs.Filled.{load_dir-verified}
use revika.Tests.ChunkRuns.{make-laws}
use revika.Tests.PipelineRuns.{zeros, length-zeros, toy, toy-laws, small}

-- A list of numbers as one number.
unfoldable twos : ℕ → ℕ → ℕ
twos zero c = 1 + 2 * c
twos (suc x) c = 2 * twos x c

unfoldable code : Bytes → ℕ
unfolding twos
code [] = 0
code (x ∷ xs) = twos x (code xs)

twos-injective : (x y c d : ℕ) → twos x c ≡ twos y d → (x ≡ y) × (c ≡ d)
unfolding twos
twos-injective zero zero c d h = (refl, omega (arith, h))
twos-injective zero (suc y) c d h = absurd (omega (arith, h))
twos-injective (suc x) zero c d h = absurd (omega (arith, h))
twos-injective (suc x) (suc y) c d h =
    let same = twos-injective x y c d (omega (arith, h)) in (ap suc same.0, same.1)

twos-positive : (x c : ℕ) → 0 < twos x c
unfolding twos
twos-positive zero c = omega arith
twos-positive (suc x) c = omega (arith, twos-positive x c)

code-injective : (a b : Bytes) → code a ≡ code b → a ≡ b
unfolding code
code-injective [] [] h = refl
code-injective [] (y ∷ b) h = absurd (omega (arith, h, twos-positive y (code b)))
code-injective (x ∷ a) [] h = absurd (omega (arith, h, twos-positive x (code a)))
code-injective (x ∷ a) (y ∷ b) h =
    let same = twos-injective x y (code a) (code b) h in
    ground (arith, same.0, code-injective a b same.1)

unfoldable wide_hash : Bytes → Bytes
unfolding code
wide_hash bytes = code bytes ∷ zeros 31

wide_hash-injective : (a b : Bytes) → wide_hash a ≡ wide_hash b → a ≡ b
unfolding wide_hash
wide_hash-injective a b h = code-injective a b (ground (arith, ap (take 1) h))

length-wide_hash : (bytes : Bytes) → length (wide_hash bytes) ≡ 32
unfolding wide_hash
length-wide_hash bytes = ap suc (length-zeros 31)

abbrev wide : Primitives
wide = record toy { hash_of = wide_hash }

wide-laws : PrimitiveLaws wide
wide-laws = record {
  opens = toy-laws.opens;
  tag = toy-laws.tag;
  inflates = toy-laws.inflates;
  codecs = make-laws;
  no_collision = wide_hash-injective;
}

abbrev memory : StripeStore (SoundStore wide_hash)
memory = plain_store (mem_ops wide_hash)

memory-laws : StripeLaws memory wide_hash
memory-laws = plain-StripeLaws (mem_ops wide_hash) wide_hash (mem-StoreLaws wide_hash)

-- A text of ones and zeros: as many ones as each number says, and a zero after them.
unfoldable ones_before : ℕ → Bytes → Bytes
ones_before zero bs = 48 ∷ bs
ones_before (suc n) bs = 49 ∷ ones_before n bs

unfoldable ones : Bytes → Bytes
unfolding ones_before
ones [] = []
ones (n ∷ ns) = ones_before n (ones ns)

unfoldable count_ones : ℕ → Bytes → Option Bytes
count_ones n [] = if eqb n 0 then some [] else none
count_ones n (b ∷ bs) =
    let more = count_ones (suc n) bs in
    let next = count_ones 0 bs in if eqb b 49 then more else next >>= (λ ns. some (n ∷ ns))

count_ones-before :
    (m n : ℕ) (bs ns : Bytes)
    → count_ones 0 bs ≡ some ns
    → count_ones m (ones_before n bs) ≡ some ((m + n) ∷ ns)
unfolding count_ones ones_before
count_ones-before m zero bs ns h = rw h (ap (λ k. some (k ∷ ns)) (omega arith))
count_ones-before m (suc n) bs ns h =
    count_ones-before (suc m) n bs ns h ∙ ap (λ k. some (k ∷ ns)) (omega arith)

count_ones-ones : (ns : Bytes) → count_ones 0 (ones ns) ≡ some ns
unfolding count_ones ones
count_ones-ones [] = refl
count_ones-ones (n ∷ ns) =
    count_ones-before 0 n (ones ns) ns (count_ones-ones ns) ∙ ap (λ k. some (k ∷ ns)) (omega arith)

is_utf8-before : (n : ℕ) (bs : Bytes) → is_utf8 (ones_before n bs) ≡ is_utf8 bs
unfolding ones_before is_utf8 utf8_from
is_utf8-before zero bs = refl
is_utf8-before (suc n) bs = is_utf8-before n bs

is_utf8-ones : (ns : Bytes) → is_utf8 (ones ns) ≡ true
unfolding ones is_utf8 utf8_from
is_utf8-ones [] = refl
is_utf8-ones (n ∷ ns) = is_utf8-before n (ones ns) ∙ is_utf8-ones ns

-- Fields in front of what follows.
abbrev put_text : Bytes → Bytes → Bytes
put_text t rest = length t ∷ (t ++ rest)

abbrev put_texts : List Bytes → Bytes → Bytes
put_texts [] rest = rest
put_texts (t ∷ ts) rest = put_text t (put_texts ts rest)

abbrev kind_code : Kind → ℕ
kind_code Kind.file = 0
kind_code Kind.dir = 1

abbrev flag_code : Bool → ℕ
flag_code false = 0
flag_code true = 1

abbrev put_cap : JsonCap → Bytes → Bytes
put_cap c rest =
    kind_code c.kind
    ∷ flag_code c.compressed
    ∷ c.k
    ∷ c.m
    ∷ length c.shards
    ∷ put_text c.key (put_texts c.shards rest)

abbrev put_stat : StatCache → Bytes → Bytes
put_stat s rest =
    kind_code s.kind
    ∷ s.size
    ∷ s.mode
    ∷ s.mod_time_ns
    ∷ put_text s.content_version (put_text s.meta_version rest)

abbrev put_entries : List JsonEntry → Bytes → Bytes
put_entries [] rest = rest
put_entries (e ∷ es) rest = put_text e.name (put_cap e.cap (put_stat e.stat (put_entries es rest)))

abbrev get_text : Bytes → Option (Bytes × Bytes)
get_text [] = none
get_text (n ∷ bs) = read_full n bs

abbrev get_texts : ℕ → Bytes → Option (List Bytes × Bytes)
get_texts zero bs = some ([], bs)
get_texts (suc n) bs = get_text bs >>= (λ t. get_texts n t.1 >>= (λ ts. some (t.0 ∷ ts.0, ts.1)))

abbrev kind_of_code : ℕ → Kind
kind_of_code zero = Kind.file
kind_of_code (suc n) = Kind.dir

abbrev flag_of_code : ℕ → Bool
flag_of_code zero = false
flag_of_code (suc n) = true

abbrev get_cap : Bytes → Option (JsonCap × Bytes)
get_cap (kind ∷ compressed ∷ k ∷ m ∷ n ∷ bs) = get_text bs >>= (λ key. get_texts n key.1 >>= (λ ids.
    some (
      record {
        kind = kind_of_code kind;
        key = key.0;
        compressed = flag_of_code compressed;
        k = k;
        m = m;
        shards = ids.0;
      },
      ids.1,
    )))
get_cap bs = none

abbrev get_stat : Bytes → Option (StatCache × Bytes)
get_stat (kind ∷ size ∷ mode ∷ time ∷ bs) = get_text bs >>= (λ content.
    get_text content.1 >>= (λ meta. some (
      record {
        kind = kind_of_code kind;
        size = size;
        mode = mode;
        mod_time_ns = time;
        content_version = content.0;
        meta_version = meta.0;
      },
      meta.1,
    )))
get_stat bs = none

abbrev get_entries : ℕ → Bytes → Option (List JsonEntry)
get_entries zero bs = some []
get_entries (suc n) bs = get_text bs >>= (λ name. get_cap name.1 >>= (λ cap.
    get_stat cap.1 >>= (λ stat.
      get_entries n stat.1
      >>= (λ es. some (record { name = name.0; cap = cap.0; stat = stat.0 } ∷ es)))))

get_text-put : (t rest : Bytes) → get_text (put_text t rest) ≡ some (t, rest)
get_text-put t rest = read_full-append (length t) t rest refl

get_texts-put :
    (ts : List Bytes) (rest : Bytes) → get_texts (length ts) (put_texts ts rest) ≡ some (ts, rest)
get_texts-put [] rest = refl
get_texts-put (t ∷ ts) rest = rw (get_text-put t (put_texts ts rest), get_texts-put ts rest) refl

kind-code : (k : Kind) → kind_of_code (kind_code k) ≡ k
kind-code Kind.file = refl
kind-code Kind.dir = refl

flag-code : (b : Bool) → flag_of_code (flag_code b) ≡ b
flag-code false = refl
flag-code true = refl

get_cap-put : (c : JsonCap) (rest : Bytes) → get_cap (put_cap c rest) ≡ some (c, rest)
get_cap-put c rest =
    rw
      (
        get_text-put c.key (put_texts c.shards rest),
        get_texts-put c.shards rest,
        kind-code c.kind,
        flag-code c.compressed,
      )
      refl

get_stat-put : (s : StatCache) (rest : Bytes) → get_stat (put_stat s rest) ≡ some (s, rest)
get_stat-put s rest =
    rw
      (
        get_text-put s.content_version (put_text s.meta_version rest),
        get_text-put s.meta_version rest,
        kind-code s.kind,
      )
      refl

get_entries-put :
    (es : List JsonEntry) (rest : Bytes) → get_entries (length es) (put_entries es rest) ≡ some es
get_entries-put [] rest = refl
get_entries-put (e ∷ es) rest =
    rw
      (
        get_text-put e.name (put_cap e.cap (put_stat e.stat (put_entries es rest))),
        get_cap-put e.cap (put_stat e.stat (put_entries es rest)),
        get_stat-put e.stat (put_entries es rest),
        get_entries-put es rest,
      )
      refl

-- At most 2 ^ 63 fields.
abbrev within_slice : Bytes → Option Bytes
within_slice bytes = if ltb (length bytes) (2 ^ 63) then some bytes else none

abbrev marshal_fields : ℕ → ℕ → List JsonEntry → Option Bytes
marshal_fields v a es = within_slice (v ∷ a ∷ length es ∷ put_entries es [])

abbrev unmarshal_fields : Bytes → Option (ℕ × (ℕ × List JsonEntry))
unmarshal_fields (v ∷ a ∷ n ∷ bs) = get_entries n bs >>= (λ es. some (v, (a, es)))
unmarshal_fields bs = none

abbrev fields : Json ℕ
fields = record {
  hex = record { encode_hex = ones; decode_hex = count_ones 0 };
  marshal = marshal_fields;
  unmarshal = unmarshal_fields;
}

within_slice-own :
    (bytes b : Bytes) → within_slice bytes ≡ some b → (bytes ≡ b) × (length bytes < 2 ^ 63)
within_slice-own bytes b h = elim (Bool-cases (ltb (length bytes) (2 ^ 63))) [
  | inl fits ↦ (some-injective _ _ (rw fits at h), ground (arith, fits))
  | inr long ↦ absurd (let e : none ≡ some b = rw long at h in cc)
]

fields-laws : JsonLaws fields
fields-laws = record {
  hex_back = count_ones-ones;
  hex_text = is_utf8-ones;
  reads_back = λ v a es bytes texts h.
      let own = within_slice-own (v ∷ a ∷ length es ∷ put_entries es []) bytes h in
      ap unmarshal_fields (sym own.0)
      ∙ ap (λ r. r >>= (λ xs. some (v, (a, xs)))) (get_entries-put es []);
  short = λ v a es bytes h.
      let own = within_slice-own (v ∷ a ∷ length es ∷ put_entries es []) bytes h in
      subst (λ b. length b < 2 ^ 63) own.0 own.1;
}

new_mem_store-IsAddressed : IsAddressed wide_hash new_mem_store
unfolding new_mem_store
new_mem_store-IsAddressed = λ id. tt

abbrev empty_memory : SoundStore wide_hash
empty_memory = (new_mem_store, new_mem_store-IsAddressed)

-- A directory with one file, whose name has a byte above 127.
abbrev child : Entry
child = record {
  name = 0xc3 ∷ 0xa9 ∷ [];
  cap = record {
    kind = Kind.file;
    key = zeros 32;
    compressed = true;
    k = 1;
    m = 1;
    shards = zeros 32 ∷ zeros 32 ∷ [];
  };
  stat = record {
    kind = Kind.file;
    size = 3;
    mode = 0o644;
    mod_time_ns = 7;
    content_version = 1 ∷ [];
    meta_version = [];
  };
}

abbrev folder : DirManifest ℕ
folder = record { attrs = 5; entries = child ∷ [] }

child-fits : FitsEntry child
unfolding is_utf8 utf8_from
child-fits = ((refl, ((refl, (refl, tt)), omega arith)), refl)

abbrev or_empty : Option ReadCap → ReadCap
or_empty none = child.cap
or_empty (some c) = c

abbrev stored : Option ReadCap × (SoundStore wide_hash × Bytes)
stored = store_dir wide memory fields small (empty_memory, zeros 44) folder

folder_stored : stored.0 ≡ some (or_empty stored.0)
unfolding store_dir sort_by_name store_chunk read_full encode bytes_eq mem_put be_bytes wide_hash
    ones insert_by_name
folder_stored = refl

folder_verified : verify_blob wide memory stored.1.0 (verify_cap (or_empty stored.0)) ≡ true
unfolding verify_blob verify_cap store_dir sort_by_name store_chunk read_full encode bytes_eq
    new_mem_store mem_put mem_get be_bytes wide_hash ones insert_by_name
folder_verified = refl

load_dir-verified_example :
    load_dir wide memory fields (stored.1.0, []) (or_empty stored.0) ≡ some folder
load_dir-verified_example =
    load_dir-verified wide wide-laws memory memory-laws fields fields-laws length-wide_hash small
      (empty_memory, zeros 44) folder (or_empty stored.0) stored.1.0 [] (tt, tt) (child-fits, tt)
      folder_stored folder_verified
