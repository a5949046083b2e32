-- ===== src/Ledger/Consistent.antt =====
-- The ledger's invariant, and that every operation keeps it.
use revika.Base.{
  ℕ, ◌+◌, ◌≡◌, ◌≢◌, refl, ap, sym, ◌∙◌, inl, inr, Bool, true, false, Option, none, some, List, [],
  ◌∷◌, ltb, eqb, arith, if◌then◌else◌, if_pos, if_neg, bytes_eq, ◌==◌, Map, put, remove, All,
  Bool-cases, Option-cases,
}
use revika.Ledger.{
  ShardId, Owner, Options, ShardRow, OwnerRow, Db, Result, ok, err, has_claim, insert_new,
  add_owner, Account, renew_lease, remove_owner, drop_record, collect_record, empty_db, over_quota,
  lease_expiry, drop_shard, drop_claim, renew, charge_up, count_live,
}
use revika.Ledger.Accounts.{
  Shows-eq, Matches, Known, used, claims, size_of, used_congr, used_of_claims, charge_up-Shows,
  credit-Shows, credit_all-Shows,
}
use revika.Ledger.Claims.{
  IsUnique, used-renew, claims-renew, renew-Known, renew-IsUnique, used-drop_claim,
  claims-drop_claim, drop_claim-Known, drop_claim-IsUnique,
}

pub record IsConsistent (db : Db) : Type 0 where
  pub known : Known db.shards db.owners
  pub unique : IsUnique db.owners
  pub matched : Matches db.shards db.owners db.accounts

pub IsConsistent-empty : IsConsistent empty_db
unfolding claims
IsConsistent-empty = record { known = tt; unique = tt; matched = λ o. refl }

-- The tables that a call returns satisfy `P`; a call that fails leaves them as they are.
abbrev pub Keeps : {A : Type 0} → (Db → Type 0) → Result (A × Db) → Type 0
Keeps P (ok (a, db)) = P db
Keeps P (err e) = Unit

-- Content addressing: a shard has one size.
abbrev pub SizeAgrees : Option ShardRow → ℕ → Type 0
SizeAgrees none size = Unit
SizeAgrees (some s) size = s.size ≡ size

module _ (shards : Map ShardId ShardRow) (id : ShardId) (row : ShardRow) where
  abbrev pub added : Map ShardId ShardRow
  added = put shards id (insert_new (shards id) row)

  added-old : (j : ShardId) → shards j ≢ none → added j ≡ shards j
  added-old j known = elim (bytes_eq.dec id j) [
    | yes same ↦ elim (Option-cases (shards j)) [
      | inl gone ↦ absurd (known gone)
      | inr (s, e) ↦ rw (if_pos (bytes_eq.dec id j) same true false, same, e) refl
    ]
    | no other ↦ rw (if_neg (bytes_eq.dec id j) other true false) refl
  ]

  added-new : added id ≡ some (insert_new (shards id) row)
  added-new = rw (if_pos (bytes_eq.dec id id) refl true false) refl

  known-new : added id ≢ none
  known-new gone = cc (gone, added-new)

  pub All-added :
      (rows : List OwnerRow)
      → Known shards rows
      → All (λ r. added r.shard_id ≡ shards r.shard_id) rows
  All-added [] k = tt
  All-added (r ∷ rows) k = (added-old r.shard_id k.0, All-added rows k.1)

  Known-added : (rows : List OwnerRow) → Known shards rows → Known added rows
  Known-added [] k = tt
  Known-added (r ∷ rows) k =
      (λ gone. k.0 (sym (added-old r.shard_id k.0) ∙ gone), Known-added rows k.1)

  size-insert_new :
      (old : Option ShardRow) (size : ℕ)
      → row.size ≡ size
      → SizeAgrees old size
      → (insert_new old row).size ≡ size
  size-insert_new none size e h = e
  size-insert_new (some s) size e h = h

  pub size-added :
      (size : ℕ) → row.size ≡ size → SizeAgrees (shards id) size → size_of (added id) ≡ size
  size-added size e h = ap size_of added-new ∙ size-insert_new (shards id) size e h

  module _ (rows : List OwnerRow) (accounts : Map Owner Account) (r : OwnerRow) (size now : ℕ) where
    -- The new claim is charged to its owner, and to nobody else.
    charged :
        row.size ≡ size
        → SizeAgrees (shards id) size
        → r.shard_id ≡ id
        → Known shards rows
        → Matches shards rows accounts
        → Matches added (r ∷ rows) (put accounts r.owner (charge_up (accounts r.owner) size now))
    unfolding used claims
    charged e h same k m o =
        let size_r : size_of (added r.shard_id) ≡ size =
          ap (λ j. size_of (added j)) same ∙ size-added size e h in
        let rest = used_congr shards added o rows (All-added rows k) in
        elim (bytes_eq.dec r.owner o) [
          | yes mine ↦
              rw (if_pos (bytes_eq.dec r.owner o) mine true false, rest, size_r, ap accounts mine)
                (charge_up-Shows (accounts o) size now _ _ (used_of_claims shards o rows) (m o))
          | no other ↦
              rw (if_neg (bytes_eq.dec r.owner o) other true false, rest)
                (Shows-eq (accounts o) _ _ _ _ (omega arith) (omega arith) (m o))
        ]

renewed-IsConsistent :
    (db : Db) (id : ShardId) (owner : Owner) (now expiry : ℕ)
    → IsConsistent db
    → IsConsistent (record db { owners = renew id owner now expiry db.owners })
renewed-IsConsistent db id owner now expiry c = record {
  known = renew-Known id owner now expiry db.shards db.owners c.known;
  unique = renew-IsUnique id owner now expiry db.owners c.unique;
  matched = λ o.
      rw
        (
          used-renew id owner now expiry db.shards o db.owners,
          claims-renew id owner now expiry o db.owners,
        )
        (c.matched o);
}

-- AddOwner keeps the tables consistent, whether it renews, admits or refuses.
pub add_owner-IsConsistent :
    (opts : Options) (db : Db) (id : ShardId) (owner : Owner) (size now : ℕ)
    → IsConsistent db
    → SizeAgrees (db.shards id) size
    → Keeps IsConsistent (add_owner opts db id owner size now)
unfolding add_owner
add_owner-IsConsistent opts db id owner size now c h =
    elim (Bool-cases (has_claim id owner db.owners)) [
      | inl held ↦ rw held (renewed-IsConsistent db id owner now (lease_expiry opts now) c)
      | inr new ↦ elim (Bool-cases (over_quota opts (db.accounts owner) size now)) [
        | inl over ↦ rw (new, over) tt
        | inr fits ↦
            let row : ShardRow = record { size = size; created = now } in
            let r : OwnerRow = record {
              shard_id = id;
              owner = owner;
              put_at = now;
              expiry = lease_expiry opts now;
            } in
            rw (new, fits)
              (record {
                known =
                    (known-new db.shards id row, Known-added db.shards id row db.owners c.known);
                unique = (new, c.unique);
                matched =
                    charged db.shards id row db.owners db.accounts r size now refl h refl c.known
                      c.matched;
              })
      ]
    ]

-- RemoveOwner keeps the tables consistent: the owner gets back what the claim cost it.
pub remove_owner-IsConsistent :
    (db : Db) (id : ShardId) (owner : Owner)
    → IsConsistent db
    → Keeps IsConsistent (remove_owner db id owner)
unfolding remove_owner
remove_owner-IsConsistent db id owner c = elim (Bool-cases (has_claim id owner db.owners)) [
  | inr absent ↦ rw absent tt
  | inl held ↦ elim (Option-cases (db.shards id)) [
    | inl gone ↦ rw (held, gone) tt
    | inr (s, e) ↦
        rw (held, e)
          (record {
            known = drop_claim-Known id owner db.shards db.owners c.known;
            unique = drop_claim-IsUnique id owner db.owners c.unique;
            matched = λ o. credit-Shows db.accounts owner o s.size _ _ (
                Shows-eq (db.accounts o) _ _ _ _
                  (used-drop_claim id owner db.shards o db.owners c.unique held
                    ∙ ap
                        (λ z.
                          (if owner == o then z else 0)
                          + used db.shards o (drop_claim id owner db.owners))
                        (ap size_of e))
                  (claims-drop_claim id owner o db.owners c.unique held) (c.matched o));
          })
  ]
]

module _ (shards : Map ShardId ShardRow) (id : ShardId) where
  -- No row of the shard is left, so the rows that are left do not read its size.
  pub All-dropped :
      (rows : List OwnerRow)
      → All (λ r. remove shards id r.shard_id ≡ shards r.shard_id) (drop_shard id rows)
  unfolding drop_shard
  All-dropped [] = tt
  All-dropped (r ∷ rows) = elim (bytes_eq.dec r.shard_id id) [
    | yes same ↦ rw (if_pos (bytes_eq.dec r.shard_id id) same true false) (All-dropped rows)
    | no other ↦
        rw (if_neg (bytes_eq.dec r.shard_id id) other true false) (ground arith, All-dropped rows)
  ]

  pub drop_shard-Known :
      (rows : List OwnerRow) → Known shards rows → Known (remove shards id) (drop_shard id rows)
  unfolding drop_shard
  drop_shard-Known [] k = tt
  drop_shard-Known (r ∷ rows) k = elim (bytes_eq.dec r.shard_id id) [
    | yes same ↦
        rw (if_pos (bytes_eq.dec r.shard_id id) same true false) (drop_shard-Known rows k.1)
    | no other ↦
        rw (if_neg (bytes_eq.dec r.shard_id id) other true false)
          (ground (arith, k.0), drop_shard-Known rows k.1)
  ]

has_claim-drop_shard :
    (id j : ShardId) (o : Owner) (rows : List OwnerRow)
    → has_claim j o rows ≡ false
    → has_claim j o (drop_shard id rows) ≡ false
unfolding has_claim drop_shard
has_claim-drop_shard id j o [] h = refl
has_claim-drop_shard id j o (r ∷ rows) h = ground (arith, has_claim-drop_shard id j o rows)

pub drop_shard-IsUnique :
    (id : ShardId) (rows : List OwnerRow) → IsUnique rows → IsUnique (drop_shard id rows)
unfolding drop_shard
drop_shard-IsUnique id [] u = tt
drop_shard-IsUnique id (r ∷ rows) u = elim (bytes_eq.dec r.shard_id id) [
  | yes same ↦
      rw (if_pos (bytes_eq.dec r.shard_id id) same true false) (drop_shard-IsUnique id rows u.1)
  | no other ↦
      rw (if_neg (bytes_eq.dec r.shard_id id) other true false)
        (has_claim-drop_shard id r.shard_id r.owner rows u.0, drop_shard-IsUnique id rows u.1)
]

-- DropRecord keeps the tables consistent: every owner of the shard gets back what it cost.
pub drop_record-IsConsistent :
    (db : Db) (id : ShardId) → IsConsistent db → IsConsistent (drop_record db id).1
unfolding drop_record
drop_record-IsConsistent db id c = elim (Option-cases (db.shards id)) [
  | inl gone ↦ rw gone c
  | inr (s, e) ↦ rw e (record {
    known = drop_shard-Known db.shards id db.owners c.known;
    unique = drop_shard-IsUnique id db.owners c.unique;
    matched = λ o.
        Shows-eq _ _ _ _ _
          (omega (
            arith,
            used_congr db.shards (remove db.shards id) o (drop_shard id db.owners)
                (All-dropped db.shards id db.owners),
          ))
          (omega arith)
          (credit_all-Shows db.shards id s.size o db.owners db.accounts 0 0 (ap size_of e)
            (Shows-eq (db.accounts o) _ _ _ _ (omega arith) (omega arith) (c.matched o)));
  })
]

pub collect_record-IsConsistent :
    (db : Db) (id : ShardId) (now : ℕ) (expire_leases : Bool)
    → IsConsistent db
    → IsConsistent (collect_record db id now expire_leases).1
unfolding collect_record
collect_record-IsConsistent db id now expire_leases c =
    elim (Bool-cases (ltb 0 (count_live id expire_leases now db.owners))) [
      | inl live ↦ rw live c
      | inr dead ↦ rw dead (drop_record-IsConsistent db id c)
    ]

abbrev pub KeepsDb : (Db → Type 0) → Result Db → Type 0
KeepsDb P (ok db) = P db
KeepsDb P (err e) = Unit

pub renew_lease-IsConsistent :
    (opts : Options) (db : Db) (id : ShardId) (owner : Owner) (now : ℕ)
    → IsConsistent db
    → KeepsDb IsConsistent (renew_lease opts db id owner now)
unfolding renew_lease
renew_lease-IsConsistent opts db id owner now c = elim (Bool-cases (eqb opts.lease_ttl 0)) [
  | inl perpetual ↦ rw perpetual c
  | inr ends ↦ elim (Bool-cases (has_claim id owner db.owners)) [
    | inl held ↦ rw (ends, held) (renewed-IsConsistent db id owner now (now + opts.lease_ttl) c)
    | inr absent ↦ rw (ends, absent) tt
  ]
]
