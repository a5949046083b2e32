-- ===== src/Ledger/Collect.antt =====
-- Garbage collection against claims: `CollectRecord`, `Collectible`, and a PUT that races with them.
use revika.Base.{
  ℕ, ◌+◌, ◌<◌, ◌≤◌, ◌≡◌, refl, subst, Bool, true, false, not, ◌&&◌, ◌||◌, List, [], ◌∷◌, arith, ltb,
  leb, eqb, lt→ltb, if◌then◌else◌, if_pos, bytes_eq, ◌==◌, Bool-cases, Option-cases, inl, inr,
}
use revika.Ledger.{
  ShardId, Owner, Options, OwnerRow, Db, Result, ok, err, has_claim, renew, lease_expiry,
  over_quota, add_owner, drop_record, drop_shard, count_live, collect_record, collectible,
}

renewed-live :
    (id : ShardId) (owner : Owner) (now expiry t : ℕ) (e : Bool) (rows : List OwnerRow)
    → has_claim id owner rows ≡ true
    → (not e || (eqb expiry 0 || leb t expiry)) ≡ true
    → 0 < count_live id e t (renew id owner now expiry rows)
unfolding has_claim renew count_live
renewed-live id owner now expiry t e [] h live = cc
renewed-live id owner now expiry t e (r ∷ rows) h live =
    ground (arith, renewed-live id owner now expiry t e rows)

lease-live :
    (opts : Options) (now t : ℕ) (e : Bool)
    → t ≤ now + opts.lease_ttl
    → (not e || (eqb (lease_expiry opts now) 0 || leb t (lease_expiry opts now))) ≡ true
unfolding lease_expiry
lease-live opts now t e h = ground arith

some_live : (n : ℕ) → ltb 0 n ≡ true → eqb n 0 ≡ false
some_live n h = ground arith

none_live : (n : ℕ) → ltb 0 n ≡ false → eqb n 0 ≡ true
none_live n h = ground arith

-- The claim that AddOwner has recorded or renewed is live for the length of a lease.
abbrev pub HoldsLive : ShardId → Bool → ℕ → Result (Bool × Db) → Type 0
HoldsLive id e t (ok (added, db)) = collect_record db id t e ≡ (false, db)
HoldsLive id e t (err x) = Unit

collect-live :
    (db : Db) (id : ShardId) (t : ℕ) (e : Bool)
    → 0 < count_live id e t db.owners
    → collect_record db id t e ≡ (false, db)
unfolding collect_record
collect-live db id t e h = rw (lt→ltb 0 (count_live id e t db.owners) h) refl

new-live :
    (id : ShardId) (owner : Owner) (now expiry t : ℕ) (e : Bool) (rows : List OwnerRow)
    → (not e || (eqb expiry 0 || leb t expiry)) ≡ true
    → 0
      < count_live id e t
          (record { shard_id = id; owner = owner; put_at = now; expiry = expiry } ∷ rows)
unfolding count_live
new-live id owner now expiry t e rows h =
    rw (if_pos (bytes_eq.dec id id) refl true false, h) (omega arith)

add_owner-HoldsLive :
    (opts : Options) (db : Db) (id : ShardId) (owner : Owner) (size now t : ℕ) (e : Bool)
    → t ≤ now + opts.lease_ttl
    → HoldsLive id e t (add_owner opts db id owner size now)
unfolding add_owner
add_owner-HoldsLive opts db id owner size now t e h =
    let live = lease-live opts now t e h in
    elim (Bool-cases (has_claim id owner db.owners)) [
      | inl held ↦ rw held (
          collect-live _ id t e
            (renewed-live id owner now (lease_expiry opts now) t e db.owners held live))
      | inr new ↦ elim (Bool-cases (over_quota opts (db.accounts owner) size now)) [
        | inl over ↦ rw (new, over) tt
        | inr fits ↦
            rw (new, fits)
              (collect-live _ id t e
                (new-live id owner now (lease_expiry opts now) t e db.owners live))
      ]
    ]

pub put_survives_collect :
    (opts : Options) (db after : Db) (id : ShardId) (owner : Owner) (size now t : ℕ)
    (added e : Bool)
    → t ≤ now + opts.lease_ttl
    → add_owner opts db id owner size now ≡ ok (added, after)
    → collect_record after id t e ≡ (false, after)
put_survives_collect opts db after id owner size now t added e h done =
    subst (HoldsLive id e t) done (add_owner-HoldsLive opts db id owner size now t e h)

pub has_claim-drop_shard :
    (id j : ShardId) (o : Owner) (rows : List OwnerRow)
    → has_claim j o (drop_shard id rows) ≡ (if id == j then false else has_claim j o rows)
unfolding has_claim drop_shard
has_claim-drop_shard id j o [] = ground arith
has_claim-drop_shard id j o (r ∷ rows) = ground (arith, has_claim-drop_shard id j o rows)

-- CollectRecord drops the record of exactly the shards that Collectible lists: it answers what
-- Collectible would; on such a shard it leaves the tables of DropRecord, and on another the tables
-- as they were; and the claims on a shard that it drops are gone, while all other claims stay.
pub collect-collectible :
    (db : Db) (id j : ShardId) (o : Owner) (now : ℕ) (e : Bool)
    → (collect_record db id now e
        ≡ (if collectible db id now e then (true, (drop_record db id).1) else (false, db)))
      × (has_claim j o (collect_record db id now e).1.owners
          ≡ (if collectible db id now e && (id == j) then false else has_claim j o db.owners))
unfolding collect_record collectible drop_record
collect-collectible db id j o now e = elim (Bool-cases (ltb 0 (count_live id e now db.owners))) [
  | inl live ↦ elim (Option-cases (db.shards id)) [
    | inl gone ↦ rw (live, gone) (refl, refl)
    | inr (s, f) ↦ rw (live, f, some_live (count_live id e now db.owners) live) (refl, refl)
  ]
  | inr dead ↦ elim (Option-cases (db.shards id)) [
    | inl gone ↦ rw (dead, gone) (refl, refl)
    | inr (s, f) ↦
        rw (dead, f, none_live (count_live id e now db.owners) dead)
          (refl, has_claim-drop_shard id j o db.owners)
  ]
]
