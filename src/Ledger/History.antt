-- ===== src/Ledger/History.antt =====
-- Histories of calls on a ledger that starts empty, the calls in the order in which their transactions
-- commit, and what holds after every one of them.
use revika.Base.{
  ℕ, ◌≡◌, refl, ap, ◌∙◌, Bool, true, false, Option, none, some, List, [], ◌∷◌, ltb, eqb, if_pos,
  if_neg, bytes_eq, Map, put, remove, Bool-cases, Option-cases, inl, inr,
}
use revika.Ledger.{
  ShardId, Owner, Options, ShardRow, Db, Result, ok, err, empty_db, has_claim, insert_new,
  add_owner, renew_lease, remove_owner, drop_record, collect_record, over_quota, count_live,
}
use revika.Ledger.Consistent.{
  IsConsistent, IsConsistent-empty, Keeps, SizeAgrees, add_owner-IsConsistent,
  remove_owner-IsConsistent, drop_record-IsConsistent, collect_record-IsConsistent,
  renew_lease-IsConsistent, KeepsDb,
}

-- The calls of the server and of the collector that write the tables of claims and accounts.
pub data Call : Type 0 where
  put_shard : ShardId → Owner → ℕ → Call
  renew_claim : ShardId → Owner → ℕ → Call
  delete_claim : ShardId → Owner → Call
  drop_shard_record : ShardId → Call
  collect_shard : ShardId → ℕ → Bool → Call

-- A call that fails is rolled back.
abbrev pub after_or : {A : Type 0} → Db → Result (A × Db) → Db
after_or db (ok (a, db')) = db'
after_or db (err e) = db

abbrev pub state_or : Db → Result Db → Db
state_or db (ok db') = db'
state_or db (err e) = db

-- A shard's name is the hash of its bytes, so its size is a function of its name.
unfoldable pub call : (ShardId → ℕ) → Options → Db → Call → Db
call sizes opts db (put_shard id owner now) =
    after_or db (add_owner opts db id owner (sizes id) now)
call sizes opts db (renew_claim id owner now) = state_or db (renew_lease opts db id owner now)
call sizes opts db (delete_claim id owner) = after_or db (remove_owner db id owner)
call sizes opts db (drop_shard_record id) = (drop_record db id).1
call sizes opts db (collect_shard id now expire) = (collect_record db id now expire).1

unfoldable pub run : (ShardId → ℕ) → Options → Db → List Call → Db
run sizes opts db [] = db
run sizes opts db (c ∷ calls) = run sizes opts (call sizes opts db c) calls

-- Every shard in the tables has the size that its name gives it.
abbrev pub Sized : (ShardId → ℕ) → Db → Type 0
Sized sizes db = (id : ShardId) → SizeAgrees (db.shards id) (sizes id)

module _ (sizes : ShardId → ℕ) where
  SizeAgrees-insert_new :
      (old : Option ShardRow) (id : ShardId) (now : ℕ)
      → SizeAgrees old (sizes id)
      → (insert_new old (record { size = sizes id; created = now })).size ≡ sizes id
  SizeAgrees-insert_new none id now s = refl
  SizeAgrees-insert_new (some row) id now s = s

  added-Sized :
      (shards : Map ShardId ShardRow) (id : ShardId) (now : ℕ)
      → ((j : ShardId) → SizeAgrees (shards j) (sizes j))
      → (j : ShardId)
      → SizeAgrees
          (put shards id (insert_new (shards id) (record { size = sizes id; created = now })) j)
          (sizes j)
  added-Sized shards id now s j = elim (bytes_eq.dec id j) [
    | yes same ↦
        rw (if_pos (bytes_eq.dec id j) same true false)
          (SizeAgrees-insert_new (shards id) id now (s id) ∙ ap sizes same)
    | no other ↦ rw (if_neg (bytes_eq.dec id j) other true false) (s j)
  ]

  removed-Sized :
      (shards : Map ShardId ShardRow) (id : ShardId)
      → ((j : ShardId) → SizeAgrees (shards j) (sizes j))
      → (j : ShardId) → SizeAgrees (remove shards id j) (sizes j)
  removed-Sized shards id s j = elim (bytes_eq.dec id j) [
    | yes same ↦ rw (if_pos (bytes_eq.dec id j) same true false) tt
    | no other ↦ rw (if_neg (bytes_eq.dec id j) other true false) (s j)
  ]

module _ (sizes : ShardId → ℕ) (opts : Options) where
  add_owner-Sized :
      (db : Db) (id : ShardId) (owner : Owner) (now : ℕ)
      → Sized sizes db
      → Keeps (Sized sizes) (add_owner opts db id owner (sizes id) now)
  unfolding add_owner
  add_owner-Sized db id owner now s = elim (Bool-cases (has_claim id owner db.owners)) [
    | inl held ↦ rw held s
    | inr new ↦ elim (Bool-cases (over_quota opts (db.accounts owner) (sizes id) now)) [
      | inl over ↦ rw (new, over) tt
      | inr fits ↦ rw (new, fits) (added-Sized sizes db.shards id now s)
    ]
  ]

  renew_lease-Sized :
      (db : Db) (id : ShardId) (owner : Owner) (now : ℕ)
      → Sized sizes db
      → KeepsDb (Sized sizes) (renew_lease opts db id owner now)
  unfolding renew_lease
  renew_lease-Sized db id owner now s = elim (Bool-cases (eqb opts.lease_ttl 0)) [
    | inl perpetual ↦ rw perpetual s
    | inr ends ↦ elim (Bool-cases (has_claim id owner db.owners)) [
      | inl held ↦ rw (ends, held) s
      | inr absent ↦ rw (ends, absent) tt
    ]
  ]

  remove_owner-Sized :
      (db : Db) (id : ShardId) (owner : Owner)
      → Sized sizes db
      → Keeps (Sized sizes) (remove_owner db id owner)
  unfolding remove_owner
  remove_owner-Sized db id owner s = elim (Bool-cases (has_claim id owner db.owners)) [
    | inr absent ↦ rw absent tt
    | inl held ↦ elim (Option-cases (db.shards id)) [
      | inl gone ↦ rw (held, gone) tt
      | inr (row, e) ↦ rw (held, e) s
    ]
  ]

  drop_record-Sized : (db : Db) (id : ShardId) → Sized sizes db → Sized sizes (drop_record db id).1
  unfolding drop_record
  drop_record-Sized db id s = elim (Option-cases (db.shards id)) [
    | inl gone ↦ rw gone s
    | inr (row, e) ↦ rw e (removed-Sized sizes db.shards id s)
  ]

  collect_record-Sized :
      (db : Db) (id : ShardId) (now : ℕ) (expire : Bool)
      → Sized sizes db
      → Sized sizes (collect_record db id now expire).1
  unfolding collect_record
  collect_record-Sized db id now expire s =
      elim (Bool-cases (ltb 0 (count_live id expire now db.owners))) [
        | inl live ↦ rw live s
        | inr dead ↦ rw dead (drop_record-Sized db id s)
      ]

  abbrev pub IsSound : Db → Type 0
  IsSound db = IsConsistent db × Sized sizes db

  pub Keeps-after :
      {A : Type 0} (P : Db → Type 0) (db : Db) (r : Result (A × Db))
      → P db
      → Keeps P r
      → P (after_or db r)
  Keeps-after P db (ok (a, db')) h k = k
  Keeps-after P db (err e) h k = h

  pub KeepsDb-state :
      (P : Db → Type 0) (db : Db) (r : Result Db) → P db → KeepsDb P r → P (state_or db r)
  KeepsDb-state P db (ok db') h k = k
  KeepsDb-state P db (err e) h k = h

  pub call-IsSound : (db : Db) (c : Call) → IsSound db → IsSound (call sizes opts db c)
  unfolding call
  call-IsSound db (put_shard id owner now) s =
      let r = add_owner opts db id owner (sizes id) now in
      (
        Keeps-after IsConsistent db r s.0
            (add_owner-IsConsistent opts db id owner (sizes id) now s.0 (s.1 id)),
        Keeps-after (Sized sizes) db r s.1 (add_owner-Sized db id owner now s.1),
      )
  call-IsSound db (renew_claim id owner now) s =
      let r = renew_lease opts db id owner now in
      (
        KeepsDb-state IsConsistent db r s.0 (renew_lease-IsConsistent opts db id owner now s.0),
        KeepsDb-state (Sized sizes) db r s.1 (renew_lease-Sized db id owner now s.1),
      )
  call-IsSound db (delete_claim id owner) s =
      let r = remove_owner db id owner in
      (
        Keeps-after IsConsistent db r s.0 (remove_owner-IsConsistent db id owner s.0),
        Keeps-after (Sized sizes) db r s.1 (remove_owner-Sized db id owner s.1),
      )
  call-IsSound db (drop_shard_record id) s =
      (drop_record-IsConsistent db id s.0, drop_record-Sized db id s.1)
  call-IsSound db (collect_shard id now expire) s =
      (collect_record-IsConsistent db id now expire s.0, collect_record-Sized db id now expire s.1)

  run-IsSound : (db : Db) (calls : List Call) → IsSound db → IsSound (run sizes opts db calls)
  unfolding run
  run-IsSound db [] s = s
  run-IsSound db (c ∷ calls) s = run-IsSound (call sizes opts db c) calls (call-IsSound db c s)

  pub empty-IsSound : IsSound empty_db
  empty-IsSound = (IsConsistent-empty, λ id. tt)

-- After any history of puts, renewals, deletions, record drops and collections, failed ones
-- included, the account of every owner shows exactly the number of shards that it claims and the
-- sum of their sizes, and an owner with no claim has no account; every claim is on a shard that the
-- ledger knows; and no owner has two claims on one shard.
pub history-IsConsistent :
    (sizes : ShardId → ℕ) (opts : Options) (calls : List Call)
    → IsConsistent (run sizes opts empty_db calls)
history-IsConsistent sizes opts calls =
    (run-IsSound sizes opts empty_db calls (empty-IsSound sizes opts)).0
