-- ===== src/Tests/PipelineRuns.antt =====
-- A file through the pipeline, with a copy for the code.
use revika.Base.{
  ℕ, zero, suc, ◌+◌, ◌-◌, ◌≡◌, refl, sym, ap, true, some, List, [], ◌∷◌, ◌++◌, Bytes, arith, All,
  length, take, length-append, take-append_left, bytes_eq,
}
use revika.Store.{new_mem_store}
use revika.Store.Integrity.{IsAddressed}
use revika.Repair.Memory.{SoundStore, mem_ops, mem-StoreLaws}
use revika.Erasure.{encode}
use revika.Chunk.{eof}
use revika.Pipeline.{
  Primitives, Config, FileManifest, StripeStore, plain_store, store_file, load_file,
}
use revika.Pipeline.Laws.{PrimitiveLaws, StripeLaws, plain-StripeLaws}
use revika.Pipeline.Files.{CanLoad, store_file-AllSaved}
use revika.Pipeline.Recovered.{Works, load_file-store_file, store_file-recovers}
use revika.Tests.ChunkRuns.{make, make-laws, one_one}

abbrev pub zeros : ℕ → Bytes
zeros zero = []
zeros (suc n) = 0 ∷ zeros n

pub length-zeros : (n : ℕ) → length (zeros n) ≡ n
length-zeros zero = refl
length-zeros (suc n) = ap suc (length-zeros n)

-- A cipher that adds a tag, no compression, and names that are the bytes.
abbrev pub toy : Primitives
toy = record {
  gcm_seal = λ key nonce plain. plain ++ zeros 16;
  gcm_open = λ key nonce sealed. some (take (length sealed - 16) sealed);
  deflate = λ plain. some plain;
  inflate = λ packed. some packed;
  new_codec = make;
  hash_of = λ bytes. bytes;
}

pub toy_tag : (plain : Bytes) → length (plain ++ zeros 16) ≡ length plain + 16
toy_tag plain = length-append plain (zeros 16)

pub toy-laws : PrimitiveLaws toy
toy-laws = record {
  opens = λ key nonce plain. ap some (
      take-append_left (length (plain ++ zeros 16) - 16) plain (zeros 16)
        (omega (arith, toy_tag plain)));
  tag = λ key nonce plain. toy_tag plain;
  inflates = λ plain packed h. sym h;
  codecs = make-laws;
  no_collision = λ a b h. h;
}

abbrev memory : StripeStore (SoundStore (λ bytes. bytes))
memory = plain_store (mem_ops (λ bytes. bytes))

memory-laws : StripeLaws memory (λ bytes. bytes)
memory-laws =
    plain-StripeLaws (mem_ops (λ bytes. bytes)) (λ bytes. bytes) (mem-StoreLaws (λ bytes. bytes))

abbrev pub small : Config
small = record { chunk_size = 2; params = one_one; compress = true }

one_one_encodes :
    (sealed : Bytes) → (coded : List Bytes) × (encode make one_one sealed ≡ some coded)
unfolding encode
one_one_encodes sealed = (_, refl)

small-Works : Works toy small
small-Works = record {
  deflates = λ plain. (plain, refl);
  encodes = λ sealed. one_one_encodes sealed;
}

new_mem_store-IsAddressed : IsAddressed (λ bytes. bytes) new_mem_store
unfolding new_mem_store
new_mem_store-IsAddressed = λ id. tt

abbrev attrs : ℕ
attrs = 5

abbrev empty_memory : SoundStore (λ bytes. bytes)
empty_memory = (new_mem_store, new_mem_store-IsAddressed)

abbrev word : Bytes
word = 7 ∷ 8 ∷ 9 ∷ []

store_file-recovers_example :
    (m : FileManifest ℕ) × ((left : Bytes) × (((store_file toy memory small attrs empty_memory
            (zeros 132)
            word
            eof).0
          ≡ some (m, left))
        × (load_file toy memory
              (store_file toy memory small attrs empty_memory (zeros 132) word eof).1
              m
            ≡ (word, true))))
store_file-recovers_example =
    store_file-recovers toy toy-laws memory memory-laws small attrs empty_memory (zeros 132) word
      small-Works (omega arith) (omega arith) (omega arith)

abbrev saved : FileManifest ℕ
saved =
    (store_file-recovers toy toy-laws memory memory-laws small attrs empty_memory (zeros 132) word
      small-Works (omega arith) (omega arith) (omega arith)).0

abbrev after_saved : SoundStore (λ bytes. bytes)
after_saved = (store_file toy memory small attrs empty_memory (zeros 132) word eof).1

abbrev left_random : Bytes
left_random =
    (store_file-recovers toy toy-laws memory memory-laws small attrs empty_memory (zeros 132) word
      small-Works (omega arith) (omega arith) (omega arith)).1.0

saved_lem :
    (store_file toy memory small attrs empty_memory (zeros 132) word eof).0
    ≡ some (saved, left_random)
saved_lem =
    (store_file-recovers toy toy-laws memory memory-laws small attrs empty_memory (zeros 132) word
      small-Works (omega arith) (omega arith) (omega arith)).1.1.0

saved-CanLoad : All (CanLoad toy toy-laws memory memory-laws small after_saved) saved.chunks
saved-CanLoad =
    (store_file-AllSaved toy toy-laws memory memory-laws small attrs empty_memory (zeros 132) word
        saved left_random (omega arith) (omega arith) saved_lem).0.there
      after_saved (λ id h. h)

load_file-store_file_example :
    (load_file toy memory after_saved saved ≡ (word, true)) × (saved.size ≡ 3)
load_file-store_file_example =
    load_file-store_file toy toy-laws memory memory-laws small attrs empty_memory (zeros 132) word
      saved left_random after_saved (omega arith) (omega arith) saved_lem saved-CanLoad
