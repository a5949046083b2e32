-- ===== src/Ledger/Usage.antt =====
-- The quota over a history of calls: what an owner can have stored at any moment.
use native.Mathlib.Nat.{le_trans}
use revika.Base.{
  ℕ, ◌+◌, ◌<◌, ◌≤◌, ◌≡◌, ◌⊎◌, refl, ap, sym, Bool, true, false, Option, none, some, List, [], ◌∷◌,
  arith, ltb, eqb, max, if_pos, if_neg, bytes_eq, Map, remove, Bool-cases, Option-cases, inl, inr,
}
use revika.Base.Int.{pos-add}
use revika.Ledger.{
  ShardId, Owner, Options, ShardRow, OwnerRow, Account, Db, empty_db, has_claim, add_owner,
  renew_lease, remove_owner, drop_record, collect_record, over_quota, lease_expiry, count_live,
  drop_shard,
}
use revika.Ledger.Quota.{quota-le}
use revika.Ledger.Accounts.{Shows, used, used_of_claims, used_congr}
use revika.Ledger.Claims.{used-renew, used-drop_claim}
use revika.Ledger.Consistent.{Keeps, KeepsDb, added, All-added, size-added, All-dropped}
use revika.Ledger.History.{
  Call, put_shard, renew_claim, delete_claim, drop_shard_record, collect_shard, call, run, IsSound,
  call-IsSound, empty-IsSound, Keeps-after, KeepsDb-state,
}

-- A claim that passes the quota test is the owner's first bytes, or stays in the quota.
pub fits-bound :
    (opts : Options) (a : Option Account) (size now b c : ℕ)
    → 0 < opts.quota_bytes
    → Shows a b c
    → (c ≡ 0 → b ≡ 0)
    → over_quota opts a size now ≡ false
    → (b ≡ 0) ⊎ (b + size ≤ opts.quota_bytes)
unfolding over_quota
fits-bound opts none size now b c p s z h = inl (z s)
fits-bound opts (some a) size now b c p s z h =
    let full = quota-le opts a.first_seen now p in
    let test = rw (s.1, pos-add b size) at h in ground (arith, full, test)

-- DropRecord takes claims away and adds none.
used-drop_shard :
    (shards : Map ShardId ShardRow) (id : ShardId) (o : Owner) (rows : List OwnerRow)
    → used shards o (drop_shard id rows) ≤ used shards o rows
unfolding used drop_shard
used-drop_shard shards id o [] = omega arith
used-drop_shard shards id o (r ∷ rows) = ground (arith, used-drop_shard shards id o rows)

module _ (sizes : ShardId → ℕ) (opts : Options) (limit : ℕ) where
  -- No owner claims more bytes than its quota, or than one shard.
  abbrev pub InLimit : Db → Type 0
  InLimit db = (o : Owner) → used db.shards o db.owners ≤ max limit opts.quota_bytes

  within :
      (db : Db) (owner o : Owner) (size : ℕ)
      → owner ≡ o
      → size ≤ limit
      → (used db.shards owner db.owners ≡ 0)
        ⊎ (used db.shards owner db.owners + size ≤ opts.quota_bytes)
      → size + used db.shards o db.owners ≤ max limit opts.quota_bytes
  within db owner o size same small (inl first) =
      rw (sym (ap (λ x. used db.shards x db.owners) same), first) (omega arith)
  within db owner o size same small (inr fits) =
      rw (sym (ap (λ x. used db.shards x db.owners) same)) (omega arith)

  module _ (p : 0 < opts.quota_bytes) (small : (id : ShardId) → sizes id ≤ limit) where
    add_owner-InLimit :
        (db : Db) (id : ShardId) (owner : Owner) (now : ℕ)
        → IsSound sizes opts db
        → InLimit db
        → Keeps InLimit (add_owner opts db id owner (sizes id) now)
    unfolding add_owner used
    add_owner-InLimit db id owner now s q = elim (Bool-cases (has_claim id owner db.owners)) [
      | inl held ↦
          rw held
            (λ o. rw (used-renew id owner now (lease_expiry opts now) db.shards o db.owners) (q o))
      | inr new ↦ elim (Bool-cases (over_quota opts (db.accounts owner) (sizes id) now)) [
        | inl over ↦ rw (new, over) tt
        | inr fits ↦
            rw (new, fits)
              (λ o.
                let row : ShardRow = record { size = sizes id; created = now } in
                let rest =
                  used_congr db.shards (added db.shards id row) o db.owners
                    (All-added db.shards id row db.owners s.0.known) in
                let new_size = size-added db.shards id row (sizes id) refl (s.1 id) in
                let bound =
                  fits-bound opts (db.accounts owner) (sizes id) now _ _ p (s.0.matched owner)
                    (used_of_claims db.shards owner db.owners) fits in
                rw (rest, new_size)
                  (elim (bytes_eq.dec owner o) [
                    | yes same ↦
                        rw (if_pos (bytes_eq.dec owner o) same true false)
                          (within db owner o (sizes id) same (small id) bound)
                    | no other ↦
                        rw (if_neg (bytes_eq.dec owner o) other true false) (omega (arith, q o))
                  ]))
      ]
    ]

    renew_lease-InLimit :
        (db : Db) (id : ShardId) (owner : Owner) (now : ℕ)
        → InLimit db
        → KeepsDb InLimit (renew_lease opts db id owner now)
    unfolding renew_lease
    renew_lease-InLimit db id owner now q = elim (Bool-cases (eqb opts.lease_ttl 0)) [
      | inl perpetual ↦ rw perpetual q
      | inr ends ↦ elim (Bool-cases (has_claim id owner db.owners)) [
        | inl held ↦
            rw (ends, held)
              (λ o. rw (used-renew id owner now (now + opts.lease_ttl) db.shards o db.owners) (q o))
        | inr absent ↦ rw (ends, absent) tt
      ]
    ]

    remove_owner-InLimit :
        (db : Db) (id : ShardId) (owner : Owner)
        → IsSound sizes opts db
        → InLimit db
        → Keeps InLimit (remove_owner db id owner)
    unfolding remove_owner
    remove_owner-InLimit db id owner s q = elim (Bool-cases (has_claim id owner db.owners)) [
      | inr absent ↦ rw absent tt
      | inl held ↦ elim (Option-cases (db.shards id)) [
        | inl gone ↦ rw (held, gone) tt
        | inr (row, e) ↦
            rw (held, e)
              (λ o.
                omega (arith, q o, used-drop_claim id owner db.shards o db.owners s.0.unique held))
      ]
    ]

    drop_record-InLimit : (db : Db) (id : ShardId) → InLimit db → InLimit (drop_record db id).1
    unfolding drop_record
    drop_record-InLimit db id q = elim (Option-cases (db.shards id)) [
      | inl gone ↦ rw gone q
      | inr (row, e) ↦ rw e (λ o.
          rw
            (used_congr db.shards (remove db.shards id) o (drop_shard id db.owners)
              (All-dropped db.shards id db.owners))
            (le_trans (used-drop_shard db.shards id o db.owners) (q o)))
    ]

    collect_record-InLimit :
        (db : Db) (id : ShardId) (now : ℕ) (expire : Bool)
        → InLimit db
        → InLimit (collect_record db id now expire).1
    unfolding collect_record
    collect_record-InLimit db id now expire q =
        elim (Bool-cases (ltb 0 (count_live id expire now db.owners))) [
          | inl live ↦ rw live q
          | inr dead ↦ rw dead (drop_record-InLimit db id q)
        ]

    call-InLimit :
        (db : Db) (c : Call) → IsSound sizes opts db → InLimit db → InLimit (call sizes opts db c)
    unfolding call
    call-InLimit db (put_shard id owner now) s q =
        Keeps-after sizes opts InLimit db (add_owner opts db id owner (sizes id) now) q
          (add_owner-InLimit db id owner now s q)
    call-InLimit db (renew_claim id owner now) s q =
        KeepsDb-state sizes opts InLimit db (renew_lease opts db id owner now) q
          (renew_lease-InLimit db id owner now q)
    call-InLimit db (delete_claim id owner) s q =
        Keeps-after sizes opts InLimit db (remove_owner db id owner) q
          (remove_owner-InLimit db id owner s q)
    call-InLimit db (drop_shard_record id) s q = drop_record-InLimit db id q
    call-InLimit db (collect_shard id now expire) s q = collect_record-InLimit db id now expire q

    run-InLimit :
        (db : Db) (calls : List Call)
        → IsSound sizes opts db
        → InLimit db
        → InLimit (run sizes opts db calls)
    unfolding run
    run-InLimit db [] s q = q
    run-InLimit db (c ∷ calls) s q =
        run-InLimit (call sizes opts db c) calls (call-IsSound sizes opts db c s)
          (call-InLimit db c s q)

empty-InLimit :
    (opts : Options) (limit : ℕ) (o : Owner)
    → used empty_db.shards o empty_db.owners ≤ max limit opts.quota_bytes
unfolding used
empty-InLimit opts limit o = omega arith

-- At every moment of every history of calls, the shards that an owner claims have in all no more
-- bytes than the configured quota, or than the largest shard where that is more: the first shard of an owner is
-- admitted whatever its size. Nothing is assumed of the clock.
pub history-bound :
    (sizes : ShardId → ℕ) (opts : Options) (limit : ℕ) (calls : List Call) (o : Owner)
    → 0 < opts.quota_bytes
    → ((id : ShardId) → sizes id ≤ limit)
    → let db = run sizes opts empty_db calls in
      used db.shards o db.owners ≤ max limit opts.quota_bytes
history-bound sizes opts limit calls o p small =
    run-InLimit sizes opts limit p small empty_db calls (empty-IsSound sizes opts)
      (empty-InLimit opts limit) o
