-- ===== src/Server/Sound.antt =====
-- The Node's invariant: the tables of the ledger are sound, and of every shard that the ledger knows
-- the store holds the bytes.
pub mod Served
use revika.Base.{
  ℕ, zero, suc, ◌/◌, ◌≡◌, refl, ap, sym, ◌∙◌, subst, inl, inr, Bool, true, false, not, ◌||◌, Option,
  none, some, List, [], ◌∷◌, arith, eqb, if◌then◌else◌, if_pos, if_neg, bytes_eq, Bytes, length,
  Map, put, remove, Bool-cases, Option-cases,
}
use revika.Cap.{Signatures}
use revika.Store.{ShardId, DiskStore, is_held, disk_put, disk_delete}
use revika.Ledger.{
  Owner, Options, ShardRow, Db, Result, is_known, has_claim, over_quota, add_owner, remove_owner,
  renew_lease, drop_record, insert_new,
}
use revika.Ledger
use revika.Ledger.Upkeep.{put_stripe, revoke_grant}
use revika.Ledger.History.{
  IsSound, call, call-IsSound, put_shard, renew_claim, delete_claim, drop_shard_record, after_or,
  state_or,
}
use revika.Stripe.{Descriptor}
use revika.Server.{keep_stripe, record_stripe}

abbrev pub Backed : DiskStore → Db → Type 0
Backed store db = (j : ShardId) → not (is_known (db.shards j)) || is_held (store j) ≡ true

-- A store that holds what another holds.
abbrev pub Extends : DiskStore → DiskStore → Type 0
Extends store store' = (j : ShardId) → not (is_held (store j)) || is_held (store' j) ≡ true

Backed-Extends :
    (store store' : DiskStore) (db : Db) → Extends store store' → Backed store db → Backed store' db
Backed-Extends store store' db e b j = ground (arith, e j, b j)

is_held-put :
    (store : DiskStore) (id j : ShardId) (bytes : Bytes)
    → not (is_held (store j)) || is_held (put store id bytes j) ≡ true
is_held-put store id j bytes = ground arith

module _ (hash_of : Bytes → ShardId) (store : DiskStore) (shard : Bytes) where
  pub disk_put-Extends : Extends store (disk_put hash_of store shard).1
  unfolding disk_put
  disk_put-Extends j = ground arith

  pub disk_put-held : is_held ((disk_put hash_of store shard).1 (hash_of shard)) ≡ true
  unfolding disk_put
  disk_put-held = ground arith

module _ (opts : Options) (store : DiskStore) (db : Db) (id : ShardId) where
  pub add_owner-Backed :
      (owner : Owner) (size now : ℕ)
      → is_held (store id) ≡ true
      → Backed store db
      → Backed store (after_or db (add_owner opts db id owner size now))
  unfolding add_owner
  add_owner-Backed owner size now held b j = elim (Bool-cases (has_claim id owner db.owners)) [
    | inl mine ↦ rw mine (b j)
    | inr new ↦ elim (Bool-cases (over_quota opts (db.accounts owner) size now)) [
      | inl over ↦ rw (new, over) (b j)
      | inr fits ↦ rw (new, fits) (ground (arith, b j, held))
    ]
  ]

  pub remove_owner-Backed :
      (owner : Owner) → Backed store db → Backed store (after_or db (remove_owner db id owner))
  unfolding remove_owner
  remove_owner-Backed owner b = elim (Bool-cases (has_claim id owner db.owners)) [
    | inr absent ↦ rw absent b
    | inl mine ↦ elim (Option-cases (db.shards id)) [
      | inl gone ↦ rw (mine, gone) b
      | inr (s, e) ↦ rw (mine, e) b
    ]
  ]

  pub renew_lease-Backed :
      (owner : Owner) (now : ℕ)
      → Backed store db
      → Backed store (state_or db (renew_lease opts db id owner now))
  unfolding renew_lease
  renew_lease-Backed owner now b = elim (Bool-cases (eqb opts.lease_ttl 0)) [
    | inl perpetual ↦ rw perpetual b
    | inr ends ↦ elim (Bool-cases (has_claim id owner db.owners)) [
      | inl mine ↦ rw (ends, mine) b
      | inr absent ↦ rw (ends, absent) b
    ]
  ]

  pub drop_record-Backed : Backed store db → Backed (remove store id) (drop_record db id).1
  unfolding drop_record
  drop_record-Backed b j = elim (Option-cases (db.shards id)) [
    | inl gone ↦ rw gone (ground (arith, b j, gone))
    | inr (s, e) ↦ rw e (ground (arith, b j))
  ]

  pub drop_record-Backed_store : Backed store db → Backed store (drop_record db id).1
  unfolding drop_record
  drop_record-Backed_store b j = elim (Option-cases (db.shards id)) [
    | inl gone ↦ rw gone (b j)
    | inr (s, e) ↦ rw e (ground (arith, b j))
  ]

-- Recording a stripe leaves the tables of shards, claims and accounts alone.
pub record_stripe-keeps :
    (P : Db → Type 0) (added : Bool) (s : Option (Descriptor × Owner)) (db : Db) (id : ShardId)
    (grant : Bytes)
    → P db
    → ((d : Descriptor) → P (keep_stripe db (put_stripe db id d.k d.m d.shards grant)))
    → P (record_stripe added s db id grant)
record_stripe-keeps P true (some d) db id grant h k = k d.0
record_stripe-keeps P true none db id grant h k = h
record_stripe-keeps P false s db id grant h k = h
