-- ===== src/Ledger/Removal.antt =====
-- Who can remove a claim: `RemoveOwner` against the claims of all owners.
use revika.Base.{
  ◌≡◌, ◌≢◌, refl, ap, ◌∙◌, Bool, true, false, ◌&&◌, none, List, [], ◌∷◌, arith, if◌then◌else◌,
  bytes_eq, ◌==◌, Map, Bool-cases, Option-cases, inl, inr,
}
use revika.Ledger.{ShardId, Owner, ShardRow, OwnerRow, Db, Result, ok, err, has_claim, remove_owner}
use revika.Ledger.Accounts.{Known}
use revika.Ledger.Claims.{has_claim-drop_claim}
use revika.Ledger.Consistent.{IsConsistent}
use revika.Ledger.History.{after_or}

pub claim-Known :
    (shards : Map ShardId ShardRow) (id : ShardId) (owner : Owner) (rows : List OwnerRow)
    → Known shards rows
    → has_claim id owner rows ≡ true
    → shards id ≢ none
unfolding has_claim
claim-Known shards id owner [] k h gone = ground (arith, h)
claim-Known shards id owner (r ∷ rows) k h gone = elim (bytes_eq.dec r.shard_id id) [
  | yes same ↦ k.0 (ap shards same ∙ gone)
  | no other ↦ claim-Known shards id owner rows k.1 (ground (arith, h)) gone
]

abbrev pub is_ok : {A : Type 0} → Result A → Bool
is_ok (ok a) = true
is_ok (err e) = false

absent_same :
    (id j : ShardId) (owner o : Owner) (rows : List OwnerRow)
    → has_claim id owner rows ≡ false
    → has_claim j o rows ≡ (if (id == j) && (owner == o) then false else has_claim j o rows)
absent_same id j owner o rows h = elim (bytes_eq.dec id j) [
  | yes same ↦ elim (bytes_eq.dec owner o) [
    | yes mine ↦ let e : has_claim j o rows ≡ false = rw (same, mine) at h in ground (arith, e)
    | no other ↦ ground arith
  ]
  | no other ↦ ground arith
]

-- On consistent tables RemoveOwner succeeds exactly for an owner that holds the shard, and
-- afterwards that claim is gone and every other claim of every owner is as it was.
pub remove_owner-claims :
    (db : Db) (id j : ShardId) (owner o : Owner)
    → IsConsistent db
    → (is_ok (remove_owner db id owner) ≡ has_claim id owner db.owners)
      × (has_claim j o (after_or db (remove_owner db id owner)).owners
          ≡ (if (id == j) && (owner == o) then false else has_claim j o db.owners))
unfolding remove_owner
remove_owner-claims db id j owner o c = elim (Bool-cases (has_claim id owner db.owners)) [
  | inr absent ↦ rw absent (refl, absent_same id j owner o db.owners absent)
  | inl held ↦ elim (Option-cases (db.shards id)) [
    | inl gone ↦ absurd (claim-Known db.shards id owner db.owners c.known held gone)
    | inr (s, e) ↦ rw (held, e) (refl, has_claim-drop_claim id owner j o db.owners)
  ]
]
