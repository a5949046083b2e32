-- ===== src/Lib.antt =====
-- revika is a distributed store: a User cuts a file into chunks, seals them, spreads the shards of an
-- erasure code over Nodes, and keeps a signed tree of manifests. This library models the parts of it
-- that decide: how content is cut into chunks and shards, how requests, tokens and grants are written
-- and checked, what a Node does with a request, who may write how much and how often, what a Node
-- records of a shard and keeps of its bytes, where shards go and how they are repaired, which root
-- record counts, what a directory holds under a name, and what a synchronised folder does with a path.
--
-- Parts and files (paths are from the repository's root):
--   internal/net/ratelimit.go, subnetlimit.go   Net/Bucket, Net/RateLimit, Net/SubnetLimit
--   internal/net/authcache.go, auth.go          Net/AuthCache
--   internal/net/abuse.go                       Net/Abuse
--   internal/net/proto.go, client.go            Net/Wire: verbs, statuses, frames of requests
--   internal/net/auth.go                        Net/Token
--   internal/net/root.go                        Net/RootSelect
--   internal/net/server.go                      Server: its state, Server/Handle: the handlers,
--                                               Server/Races: the steps of two requests at once
--   cmd/revika-node/main.go (runGC)             Server/Gc
--   internal/stripe/stripe.go                   Stripe
--   internal/chunk/*.go                         Chunk
--   internal/erasure/erasure.go                 Erasure
--   internal/ledger/ledger.go                   Ledger
--   internal/sync/*.go                          Sync/State, Sync/Decide, Sync/Plan
--   internal/store/mem.go, disk.go              Store
--   internal/manifest/dir.go, manifest.go       Manifest: a directory and its edits, Manifest/Walk:
--                                               paths through a tree, Manifest/Paths: their components,
--                                               Manifest/Blobs: directories in a store
--   internal/manifest/merge.go                  Manifest/Merge
--   internal/pipeline/pipeline.go,
--   internal/crypto/crypto.go                   Pipeline
--   internal/repair/repair.go                   Repair
--   internal/placement/placement.go,
--   internal/placement/roundrobin.go            Placement
--   Base holds what they share: Boolean tests on numbers, equality as an instance, maps, integers.
--   Tests holds runs of the definitions and the theorems at concrete inputs.
--
-- A Node reads a request from a stream (Net/Wire/Frame), runs it through the limiters, the token check
-- and the replay cache, and then changes the ledger and the store (`serve`, in Server/Handle, on the
-- record `Server` that joins the models of these parts). The collector works on the same store and
-- ledger. Server/Authority proves whose word a change of a claim needs, Server/Sound what every request
-- leaves true. Repair works on a store through the interface `StoreOps`; its laws `StoreLaws` are proved
-- of the memory store, and `repair_chunk` is proved correct from them, over a code that Erasure/RoundTrip
-- supplies. The pipeline stores the chunks of a file through the same interface, with the same code; the
-- blobs of Manifest are chunks of the pipeline, and fill the interface `DirStore` (its laws `DirLaws`) that
-- the walks of paths are proved over. The folder engine runs at the User, over what the scans return.
--
-- State and operations. A limiter, a cache, a monitor and the tables of a ledger are records; an
-- operation takes the state and returns its answer with the new state, as the code does under its
-- mutex or in its transaction. A Go map is a function from keys to options. A call of
-- `OwnerRateLimiter.Allow` is `Net.RateLimit.allow`, of `authCache.seen` `seen`, of `Ledger.AddOwner`
-- `add_owner`, of `decide` `decide`; the names of the other operations are theirs in snake case.
-- Interleavings are lists of calls in the order in which the lock or the transaction lets them in.
--
-- Numbers. Times and sizes are natural numbers: nanoseconds in Net, Unix seconds in Ledger. A
-- difference of times is cut at 0 only where the code tests the order first or the test gives the same
-- answer. The balances of an account are integers, since the code can in principle take them below 0.
-- A rate is a number of units per nanosecond and a token is a number of units, so that the
-- floating-point tokens become exact; rounding is not modelled, and neither is 64-bit overflow.
--
-- Fuel. The loops of the chunkers run on fuel, one round more than the stream has bytes, since a chunk
-- takes a byte at least. The loop that finds the bits of the mask has 64 rounds, which is enough for a
-- target of at most 2 ^ 62; above it the loop of the code never ends, since 1 << 63 is negative and 1
-- shifted further is 0, and the model runs out of rounds. A chunker that is out of fuel says `stuck`,
-- which is no value of the code. The binary search of a directory runs one round for each entry, and a round takes an entry off its range at least. The
-- merge of two trees runs on fuel, a unit for each level of directories, and answers nothing if it runs
-- out; one unit more than the trees have levels is enough. Every other loop runs over a
-- list.
--
-- Randomness. What the random source will give is a stream of bytes; a key takes 32 of them and a nonce
-- 12. An operation that fails gives none back.
--
-- Bytes. A stream is the list of the bytes that are left of it. A machine word is a number, wrapped
-- where the code wraps it: words in big-endian order (`be_bytes`), 16 bits of K + M in a descriptor, 64
-- bits in the step of the rolling hash.
--
-- Not modelled: network and disk I/O, errors of the database engine, the schema migrations, ciphers,
-- logging and metrics, the commands but for one function. What the code takes
-- from another package is a parameter: `to_ip` for the parser of multiaddresses, `hash_of` for
-- SHA-256, `Signatures` for Ed25519, `meets_pow` for the Argon2 puzzle, `Codec` and `Erasure` for the
-- Reed-Solomon code, `Primitives` for the cipher and DEFLATE, `Json` and `Hex` for JSON and hexadecimal texts, `M` for the
-- attributes of a file, with texts that JSON keeps. The choice of a root record is over any way to read a record, `read`. What a theorem
-- needs of a parameter is a hypothesis: that the hash has no collisions or that a name fixes a size,
-- that keys and signatures have their sizes and an honest signature verifies, and that the code gives
-- a payload back from enough shards of its stripe.
pub mod Base
pub mod Net
pub mod Ledger
pub mod Sync
pub mod Store
pub mod Placement
pub mod Repair
pub mod Tests
pub mod Cap
pub mod Chunk
pub mod Erasure
pub mod Manifest
pub mod Pipeline
pub mod Server
pub mod Stripe
