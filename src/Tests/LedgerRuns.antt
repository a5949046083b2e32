-- ===== src/Tests/LedgerRuns.antt =====
-- Runs of the ledger: two owners, two shards, a quota of 100 bytes and a lease of 50 seconds.
use revika.Base.{bytes_eq, ℕ, ◌≤◌, ◌≡◌, refl, Bool, true, false, List, [], ◌∷◌, arith, max}
use revika.Base.Int.{◌+ℤ◌}
use revika.Ledger.{
  ShardId, Owner, Options, Db, Result, ok, err, empty_db, add_owner, collect_record, collectible,
  has_claim, effective_quota, renew_lease, remove_owner, charge_up, count_live, drop_claim,
  over_quota, renew,
}
use revika.Ledger.Accounts.{used}
use revika.Ledger.Consistent.{IsConsistent}
use revika.Ledger.History.{
  Call, put_shard, renew_claim, delete_claim, collect_shard, run, history-IsConsistent, call,
}
use revika.Ledger.Usage.{history-bound}
use revika.Ledger.Collect.{put_survives_collect}

abbrev ada : Owner
ada = 1 ∷ 2 ∷ []

abbrev bob : Owner
bob = 3 ∷ []

abbrev red : ShardId
red = 10 ∷ []

abbrev blue : ShardId
blue = 20 ∷ 1 ∷ []

abbrev opts : Options
opts = record {
  quota_bytes = 100;
  lease_ttl = 50;
  quota_ramp = 1000;
  fraction_num = 1;
  fraction_den = 4;
}

-- Every shard has 60 bytes.
abbrev sizes : ShardId → ℕ
sizes id = 60

abbrev calls : List Call
calls =
    put_shard red ada 10
    ∷ put_shard blue ada 20
    ∷ put_shard red bob 30
    ∷ renew_claim red ada 40
    ∷ delete_claim red bob
    ∷ put_shard red ada 45
    ∷ collect_shard red 60 true
    ∷ []

-- The second shard of an owner is refused by the young quota; a re-PUT costs nothing.
used-run :
    used (run sizes opts empty_db calls).shards ada (run sizes opts empty_db calls).owners ≡ 60
unfolding run used call collect_record count_live add_owner has_claim remove_owner renew_lease
    over_quota bytes_eq charge_up ◌+ℤ◌ renew drop_claim
used-run = refl

history-IsConsistent_example : IsConsistent (run sizes opts empty_db calls)
history-IsConsistent_example = history-IsConsistent sizes opts calls

history-bound_example :
    used (run sizes opts empty_db calls).shards ada (run sizes opts empty_db calls).owners
    ≤ max 60 100
history-bound_example = history-bound sizes opts 60 calls ada (omega arith) (λ id. omega arith)

abbrev held : Db
held = run sizes opts empty_db (put_shard red ada 10 ∷ [])

-- The tables after the re-PUT at 40.
abbrev after_put : Result (Bool × Db) → Db
after_put (ok (added, db)) = db
after_put (err e) = empty_db

abbrev renewed : Db
renewed = after_put (add_owner opts held red ada 60 40)

renewed_lem : add_owner opts held red ada 60 40 ≡ ok (false, renewed)
unfolding add_owner run has_claim call over_quota bytes_eq
renewed_lem = refl

put_survives_collect_example : collect_record renewed red 85 true ≡ (false, renewed)
put_survives_collect_example =
    put_survives_collect opts held renewed red ada 60 40 85 false true (omega arith) renewed_lem

-- The lease of the one claim has run out by 61, and not by 60.
collect_after : collectible held red 61 true ≡ true
unfolding collectible run call add_owner has_claim over_quota bytes_eq count_live
collect_after = refl

collect_before : collectible held red 60 true ≡ false
unfolding collectible run call add_owner has_claim over_quota bytes_eq count_live
collect_before = refl

quota_run : effective_quota opts 10 110 ≡ 32
unfolding effective_quota
quota_run = refl
