-- ===== src/Server/Races.antt =====
-- The handlers of a Node run at the same time: each call on the store or on the ledger is atomic, and
-- the calls of two requests interleave. Here the calls of `handlePut` and of `handleDelete` in
-- internal/net/server.go are steps on the store and the ledger that the handlers share.
use revika.Base.{
  subst, Map, ◌&&◌, ◌||◌, ℕ, ◌≡◌, refl, sym, ◌∙◌, inl, inr, Bool, true, false, none, List, [], ◌∷◌,
  arith, if_pos, bytes_eq, ◌==◌, Bytes, length, Bool-cases, Option-cases,
}
use revika.Store.{ShardId, DiskStore, is_held, disk_put, disk_delete}
use revika.Ledger.{
  ShardRow, OwnerRow, Result, ok, err, Owner, Options, Db, has_claim, add_owner, remove_owner,
  drop_record,
}
use revika.Ledger.Consistent.{
  IsConsistent, Keeps, SizeAgrees, add_owner-IsConsistent, remove_owner-IsConsistent,
}
use revika.Ledger.Accounts.{Known}
use revika.Ledger.Addition.{add_owner-claims}
use revika.Server.Sound.{disk_put-held}
use revika.Ledger.History.{after_or}
use revika.Ledger.Removal.{claim-Known, is_ok}
use revika.Ledger.Collect.{has_claim-drop_shard}

pub data Step : Type 0 where
  store_put : Bytes → Step
  claim : ShardId → Owner → ℕ → ℕ → Step
  unclaim : ShardId → Owner → Step
  store_delete : ShardId → Step
  drop : ShardId → Step

module _ (hash_of : Bytes → ShardId) (opts : Options) where
  unfoldable pub step : DiskStore × Db → Step → DiskStore × Db
  step (d, db) (store_put shard) = ((disk_put hash_of d shard).1, db)
  step (d, db) (claim id owner size now) = (d, after_or db (add_owner opts db id owner size now))
  step (d, db) (unclaim id owner) = (d, after_or db (remove_owner db id owner))
  step (d, db) (store_delete id) = ((disk_delete d id).1, db)
  step (d, db) (drop id) = (d, (drop_record db id).1)

  unfoldable pub run : DiskStore × Db → List Step → DiskStore × Db
  unfolding step
  run s [] = s
  run s (x ∷ xs) = run (step s x) xs

  -- The steps of an acknowledged PUT, and those of a DELETE of the last claim.
  abbrev pub put_steps : Bytes → Owner → ℕ → List Step
  put_steps shard owner now = store_put shard ∷ claim (hash_of shard) owner (length shard) now ∷ []

  abbrev pub delete_steps : ShardId → Owner → List Step
  delete_steps id owner = unclaim id owner ∷ store_delete id ∷ drop id ∷ []

disk_delete-gone : (d : DiskStore) (id : ShardId) → is_held ((disk_delete d id).1 id) ≡ false
unfolding disk_delete
disk_delete-gone d id = elim (Bool-cases (is_held (d id))) [
  | inl there ↦ rw (there, if_pos (bytes_eq.dec id id) refl true false) refl
  | inr absent ↦ rw absent absent
]

no_claim :
    (shards : Map ShardId ShardRow) (id : ShardId) (owner : Owner) (rows : List OwnerRow)
    → Known shards rows
    → shards id ≡ none
    → has_claim id owner rows ≡ false
no_claim shards id owner rows known gone = elim (Bool-cases (has_claim id owner rows)) [
  | inl held ↦ absurd (claim-Known shards id owner rows known held gone)
  | inr absent ↦ absent
]

drop_record-gone :
    (db : Db) (id : ShardId) (owner : Owner)
    → IsConsistent db
    → has_claim id owner (drop_record db id).1.owners ≡ false
unfolding drop_record
drop_record-gone db id owner c = elim (Option-cases (db.shards id)) [
  | inl gone ↦ rw gone (no_claim db.shards id owner db.owners c.known gone)
  | inr (row, e) ↦
      rw
        (e, has_claim-drop_shard id id owner db.owners, if_pos (bytes_eq.dec id id) refl true false)
        refl
]

remove_owner-shards :
    (db : Db) (id : ShardId) (owner : Owner)
    → (after_or db (remove_owner db id owner)).shards ≡ db.shards
unfolding remove_owner
remove_owner-shards db id owner = elim (Bool-cases (has_claim id owner db.owners)) [
  | inr absent ↦ rw absent refl
  | inl held ↦ elim (Option-cases (db.shards id)) [
    | inl gone ↦ rw (held, gone) refl
    | inr (s, e) ↦ rw (held, e) refl
  ]
]

Keeps-IsConsistent :
    {A : Type 0} (db : Db) (r : Result (A × Db))
    → IsConsistent db
    → Keeps IsConsistent r
    → IsConsistent (after_or db r)
Keeps-IsConsistent db (ok (x, db')) c k = k
Keeps-IsConsistent db (err e) c k = c

claimed :
    (id : ShardId) (b : Owner) (h x : Bool) → x ≡ true → h || (x && ((id == id) && (b == b))) ≡ true
claimed id b h x e = ground (arith, e)

-- A PUT that is acknowledged between the moment a DELETE found that its claim was the last one and
-- the moment it deletes the blob is lost: after both, its owner has no claim and the store has no
-- bytes, although between them the owner had the claim.
pub put_during_delete-lost :
    (hash_of : Bytes → ShardId) (opts : Options) (d : DiskStore) (db : Db) (shard : Bytes)
    (a b : Owner) (now : ℕ)
    → IsConsistent db
    → SizeAgrees (db.shards (hash_of shard)) (length shard)
    → is_ok (
        add_owner opts
          (after_or db (remove_owner db (hash_of shard) a))
          (hash_of shard)
          b
          (length shard)
          now)
      ≡ true
    → let id = hash_of shard in
      let put_done = run hash_of opts (d, db) (unclaim id a ∷ put_steps hash_of opts shard b now) in
      let end = run hash_of opts put_done (store_delete id ∷ drop id ∷ []) in
      ((has_claim id b put_done.1.owners ≡ true) × (is_held (put_done.0 id) ≡ true))
      × ((has_claim id b end.1.owners ≡ false) × (is_held (end.0 id) ≡ false))
unfolding run step
put_during_delete-lost hash_of opts d db shard a b now c sized answered =
    let id = hash_of shard in
    let db1 = after_or db (remove_owner db id a) in
    let r = add_owner opts db1 id b (length shard) now in
    let c1 : IsConsistent db1 =
      Keeps-IsConsistent db (remove_owner db id a) c (remove_owner-IsConsistent db id a c) in
    let sized1 =
      subst (λ m. SizeAgrees (m id) (length shard)) (sym (remove_owner-shards db id a)) sized in
    let c2 =
      Keeps-IsConsistent db1 r c1
        (add_owner-IsConsistent opts db1 id b (length shard) now c1 sized1) in
    (
      (
        add_owner-claims opts db1 id id b b (length shard) now
            ∙ claimed id b (has_claim id b db1.owners) _ answered,
        disk_put-held hash_of d shard,
      ),
      (drop_record-gone (after_or db1 r) id b c2, disk_delete-gone _ id),
    )
