-- ===== src/Ledger/Others.antt =====
-- What the operations of the ledger leave of a claim that they are not called for.
use revika.Base.{
  ℕ, ◌+◌, ◌≡◌, refl, false, ◌&&◌, List, [], ◌∷◌, arith, bytes_eq, ◌==◌, eqb, keep, Bool-cases,
  Option-cases, inl, inr,
}
use revika.Ledger.{
  ShardId, Owner, Options, OwnerRow, Db, is_claim, renew, drop_claim, has_claim, add_owner,
  over_quota, remove_owner, renew_lease, lease_expiry,
}
use revika.Ledger.History.{after_or, state_or}

-- The rows of an owner's claim on a shard, with their times.
abbrev pub rows_of : ShardId → Owner → List OwnerRow → List OwnerRow
rows_of j o rows = keep (is_claim j o) rows

-- Another claim: of another shard, or of another owner.
module _ (id j : ShardId) (owner o : Owner) (other : (id == j) && (owner == o) ≡ false) where
  rows_of-renew :
      (now expiry : ℕ) (rows : List OwnerRow)
      → rows_of j o (renew id owner now expiry rows) ≡ rows_of j o rows
  unfolding renew keep
  rows_of-renew now expiry [] = refl
  rows_of-renew now expiry (r ∷ rows) = ground (arith, other, rows_of-renew now expiry rows)

  rows_of-drop_claim :
      (rows : List OwnerRow) → rows_of j o (drop_claim id owner rows) ≡ rows_of j o rows
  unfolding drop_claim keep
  rows_of-drop_claim [] = refl
  rows_of-drop_claim (r ∷ rows) = ground (arith, other, rows_of-drop_claim rows)

  pub rows_of-add_owner :
      (opts : Options) (db : Db) (size now : ℕ)
      → rows_of j o (after_or db (add_owner opts db id owner size now)).owners
        ≡ rows_of j o db.owners
  unfolding add_owner keep
  rows_of-add_owner opts db size now = elim (Bool-cases (has_claim id owner db.owners)) [
    | inl held ↦ rw held (rows_of-renew now (lease_expiry opts now) db.owners)
    | inr new ↦ elim (Bool-cases (over_quota opts (db.accounts owner) size now)) [
      | inl over ↦ rw (new, over) refl
      | inr fits ↦ rw (new, fits) (ground (arith, other))
    ]
  ]

  pub rows_of-remove_owner :
      (db : Db)
      → rows_of j o (after_or db (remove_owner db id owner)).owners ≡ rows_of j o db.owners
  unfolding remove_owner
  rows_of-remove_owner db = elim (Bool-cases (has_claim id owner db.owners)) [
    | inr absent ↦ rw absent refl
    | inl held ↦ elim (Option-cases (db.shards id)) [
      | inl gone ↦ rw (held, gone) refl
      | inr (s, e) ↦ rw (held, e) (rows_of-drop_claim db.owners)
    ]
  ]

  pub rows_of-renew_lease :
      (opts : Options) (db : Db) (now : ℕ)
      → rows_of j o (state_or db (renew_lease opts db id owner now)).owners ≡ rows_of j o db.owners
  unfolding renew_lease
  rows_of-renew_lease opts db now = elim (Bool-cases (eqb opts.lease_ttl 0)) [
    | inl perpetual ↦ rw perpetual refl
    | inr ends ↦ elim (Bool-cases (has_claim id owner db.owners)) [
      | inl mine ↦ rw (ends, mine) (rows_of-renew now (now + opts.lease_ttl) db.owners)
      | inr absent ↦ rw (ends, absent) refl
    ]
  ]
