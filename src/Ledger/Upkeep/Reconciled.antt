-- ===== src/Ledger/Upkeep/Reconciled.antt =====
-- What a reconciliation leaves: accounts that agree with the claims, whatever they were before, and
-- no record of a shard that is not on the disk.
use revika.Base.{
  ℕ, ◌+◌, ◌≡◌, ◌≢◌, refl, ap, ◌∙◌, Bool, true, false, Option, none, some, List, [], ◌∷◌, arith,
  if◌then◌else◌, if_pos, if_neg, bytes_eq, ◌==◌, Map, Bool-cases, Option-cases, inl, inr,
}
use revika.Base.Int.{pos, pos-add}
use revika.Ledger.{ShardId, Owner, ShardRow, OwnerRow, Account, Db, drop_record, is_known}
use revika.Ledger.Accounts.{Shows, Shows-eq, Known, used, claims, size_of, used_of_claims}
use revika.Ledger.Claims.{IsUnique}
use revika.Ledger.Consistent.{IsConsistent, drop_shard-Known, drop_shard-IsUnique}
use revika.Ledger.Upkeep.{join_row, group, recompute_accounts, drop_absent, member, reconcile}

join-Shows :
    (s : Option ShardRow) (put_at : ℕ) (rest : Option Account) (b c : ℕ)
    → s ≢ none
    → (c ≡ 0 → b ≡ 0)
    → Shows rest b c
    → Shows (join_row s put_at rest) (size_of s + b) (1 + c)
join-Shows none put_at rest b c k z h = absurd (k refl)
join-Shows (some s) put_at none b c k z h =
    (omega arith, ap pos (omega (arith, z h)), ap pos (omega arith))
join-Shows (some s) put_at (some a) b c k z h = (
  omega arith,
  rw h.1 (pos-add b s.size ∙ ap pos (omega arith)),
  rw h.2 (pos-add c 1 ∙ ap pos (omega arith)),
)

group-Shows :
    (shards : Map ShardId ShardRow) (o : Owner) (rows : List OwnerRow)
    → Known shards rows
    → Shows (group shards o rows) (used shards o rows) (claims o rows)
unfolding group used claims
group-Shows shards o [] k = refl
group-Shows shards o (r ∷ rows) k = elim (bytes_eq.dec r.owner o) [
  | yes mine ↦ rw (if_pos (bytes_eq.dec r.owner o) mine true false) (
      join-Shows (shards r.shard_id) r.put_at (group shards o rows) _ _ k.0
        (used_of_claims shards o rows) (group-Shows shards o rows k.1))
  | no other ↦ rw (if_neg (bytes_eq.dec r.owner o) other true false) (
      Shows-eq (group shards o rows) _ _ _ _ (omega arith) (omega arith)
        (group-Shows shards o rows k.1))
]

-- The claims are on known shards, each once.
abbrev pub HasClaims : Db → Type 0
HasClaims db = Known db.shards db.owners × IsUnique db.owners

drop_record-HasClaims : (db : Db) (id : ShardId) → HasClaims db → HasClaims (drop_record db id).1
unfolding drop_record
drop_record-HasClaims db id c = elim (Option-cases (db.shards id)) [
  | inl gone ↦ rw gone c
  | inr (s, e) ↦
      rw e (drop_shard-Known db.shards id db.owners c.0, drop_shard-IsUnique id db.owners c.1)
]

either-HasClaims :
    (b : Bool) (db db' : Db) → HasClaims db → HasClaims db' → HasClaims (if b then db else db')
either-HasClaims true db db' c c' = c
either-HasClaims false db db' c c' = c'

module _ (on_disk : ShardId → Bool) where
  drop_absent-HasClaims :
      (ids : List ShardId) (db : Db) → HasClaims db → HasClaims (drop_absent on_disk ids db)
  unfolding drop_absent
  drop_absent-HasClaims [] db c = c
  drop_absent-HasClaims (id ∷ ids) db c =
      drop_absent-HasClaims ids _
        (either-HasClaims (on_disk id) db (drop_record db id).1 c (drop_record-HasClaims db id c))

  drop_record-known :
      (db : Db) (id j : ShardId)
      → is_known ((drop_record db id).1.shards j)
        ≡ (if id == j then false else is_known (db.shards j))
  unfolding drop_record
  drop_record-known db id j = elim (bytes_eq.dec id j) [
    | yes same ↦ elim (Option-cases (db.shards id)) [
      | inl gone ↦ rw (gone, if_pos (bytes_eq.dec id j) same true false, ← same, gone) refl
      | inr (s, e) ↦ rw (e, if_pos (bytes_eq.dec id j) same true false) refl
    ]
    | no other ↦ elim (Option-cases (db.shards id)) [
      | inl gone ↦ rw (gone, if_neg (bytes_eq.dec id j) other true false) refl
      | inr (s, e) ↦ rw (e, if_neg (bytes_eq.dec id j) other true false) refl
    ]
  ]

  step-known :
      (db : Db) (id j : ShardId)
      → is_known ((if on_disk id then db else (drop_record db id).1).shards j) ≡ (
          if id == j
          then (if on_disk j then is_known (db.shards j) else false)
          else is_known (db.shards j))
  step-known db id j = elim (bytes_eq.dec id j) [
    | yes same ↦ elim (Bool-cases (on_disk j)) [
      | inl there ↦ rw (if_pos (bytes_eq.dec id j) same true false, same, there) refl
      | inr gone ↦
          rw (same, gone, drop_record-known db j j, if_pos (bytes_eq.dec j j) refl true false) refl
    ]
    | no other ↦ elim (Bool-cases (on_disk id)) [
      | inl there ↦ rw (if_neg (bytes_eq.dec id j) other true false, there) refl
      | inr gone ↦
          rw (gone, drop_record-known db id j, if_neg (bytes_eq.dec id j) other true false) refl
    ]
  ]

  -- The loop drops the listed shards that are not on the disk, and no other.
  pub drop_absent-known :
      (ids : List ShardId) (db : Db) (j : ShardId)
      → is_known ((drop_absent on_disk ids db).shards j) ≡ (
          if member j ids
          then (if on_disk j then is_known (db.shards j) else false)
          else is_known (db.shards j))
  unfolding drop_absent
  drop_absent-known [] db j = refl
  drop_absent-known (id ∷ ids) db j =
      drop_absent-known ids (if on_disk id then db else (drop_record db id).1) j
      ∙ ground (arith, step-known db id j)

-- Where claims are on known shards, each once, Reconcile makes the tables consistent whatever the
-- accounts were before; and a shard that the query lists exactly if the ledger knows it is known
-- afterwards exactly if it was known and is on the disk.
pub reconcile-IsConsistent :
    (db : Db) (ledger_ids disk_ids : List ShardId) (j : ShardId)
    → HasClaims db
    → (is_known (db.shards j) ≡ member j ledger_ids)
    → IsConsistent (reconcile db ledger_ids disk_ids).1
      × (is_known ((reconcile db ledger_ids disk_ids).1.shards j)
          ≡ (if is_known (db.shards j) then member j disk_ids else false))
unfolding reconcile recompute_accounts
reconcile-IsConsistent db ledger_ids disk_ids j c listed =
    let on_disk : ShardId → Bool = λ id. member id disk_ids in
    let kept = drop_absent-HasClaims on_disk ledger_ids db c in
    (
      record {
        known = kept.0;
        unique = kept.1;
        matched = λ o.
            group-Shows (drop_absent on_disk ledger_ids db).shards o
              (drop_absent on_disk ledger_ids db).owners kept.0;
      },
      drop_absent-known on_disk ledger_ids db j ∙ ground (arith, listed),
    )
