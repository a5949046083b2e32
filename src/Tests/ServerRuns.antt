-- ===== src/Tests/ServerRuns.antt =====
-- Runs of a Node: two owners, and a shard whose name is its bytes.
use revika.Base.{
  of_be, ℕ, ◌*◌, ◌/◌, ◌≡◌, ◌⊎◌, refl, Bool, true, false, some, none, [], ◌∷◌, arith, Bytes,
  bytes_eq, length, empty_map, put, be_bytes,
}
use revika.Base.Int.{pos, ◌+ℤ◌}
use revika.Store.{ShardId, DiskStore, is_held}
use revika.Ledger.{
  Owner, Options, Db, Account, ShardRow, OwnerRow, empty_db, err, quota_exceeded, is_known,
  has_claim, add_owner, remove_owner,
}
use revika.Ledger
use revika.Ledger.History.{call, call-IsSound, put_shard, empty-IsSound, after_or}
use revika.Ledger.Removal.{is_ok}
use revika.Net.AuthCache.{in_window, second, new_cache, seen, sweep}
use revika.Net.Wire.{op_put, op_byte}
use revika.Net.RateLimit.{allow}
use revika.Net.Wire.Frame.{Request, put_request}
use revika.Net.Token.{token_payload, build_token, verify_token}
use revika.Server.{Config, Server, admitted, refused, of_ledger_error}
use revika.Server.Handle.{serve, handle_put, put_authority, stripe_of, check_token, enforce_pow}
use revika.Server.Authority.Replies.{held}
use revika.Server.Authority.{Word, serve-Word}
use revika.Server.Sound.{Backed}
use revika.Server.Sound.Served.{IsSoundServer, serve-IsSoundServer}
use revika.Server.Gc.{run_gc}
use revika.Server.Gc.Orphans.{refused_put-orphan}
use revika.Server.Gc.Upheld.{run_gc-Backed}
use revika.Server.Races.{unclaim, store_delete, drop, put_steps, run, put_during_delete-lost}
use revika.Tests.Signer.{zeros, toy}

abbrev same : Bytes → ShardId
same b = b

abbrev meets : Bytes → ℕ → Bool
meets owner n = true

abbrev conf : Config
conf = record {
  node = 4 ∷ [];
  options = record {
    quota_bytes = 10;
    lease_ttl = 0;
    quota_ramp = 0;
    fraction_num = 0;
    fraction_den = 1;
  };
  pow_min = 1;
}

abbrev fresh : Server
fresh = record {
  store = empty_map;
  ledger = some empty_db;
  tokens = new_cache;
  limiter = none;
  abuse = none;
  free_slots = some 1;
}

abbrev shard : Bytes
shard = 8 ∷ 9 ∷ 7 ∷ []

abbrev ada : Owner
ada = 1 ∷ zeros 31

abbrev bob : Owner
bob = 2 ∷ zeros 31

abbrev clock : ℕ
clock = 1000 * second

abbrev token : Bytes
token = build_token toy 1 op_put shard (4 ∷ []) 900

abbrev upload : Request
upload = put_request shard token [] [] 0

serve-IsSoundServer_example :
    IsSoundServer same toy meets conf length (serve same toy meets conf fresh [] clock upload).1
serve-IsSoundServer_example =
    serve-IsSoundServer same toy meets conf length (λ b. refl) fresh [] clock upload
      (empty-IsSound length conf.options, λ j. refl)

serve-Word_example :
    (held shard ada (serve same toy meets conf fresh [] clock upload).1.ledger
      ≡ held shard ada (some empty_db))
    ⊎ Word same toy meets conf upload shard ada clock
serve-Word_example = serve-Word same toy meets conf fresh [] clock upload shard ada

abbrev with_shard : DiskStore
with_shard = put empty_map shard shard

abbrev claimed : Db
claimed = call length conf.options empty_db (put_shard shard ada 5)

claimed-Backed : Backed with_shard claimed
unfolding call add_owner
claimed-Backed j = ground arith

run_gc-Backed_example :
    let s =
      (run_gc
        (shard ∷ [])
        9
        false
        (shard ∷ [])
        (shard ∷ [])
        (shard ∷ [])
        (with_shard, claimed)).1 in
    Backed s.0 s.1
run_gc-Backed_example =
    run_gc-Backed conf.options (shard ∷ []) (shard ∷ []) (shard ∷ []) (shard ∷ []) 9 false
      with_shard claimed claimed-Backed

-- Ada has used 9 of her 10 bytes.
abbrev nearly_full : Db
nearly_full = record empty_db {
  accounts = put empty_map ada (record { bytes_used = pos 9; shard_count = pos 1; first_seen = 0 });
}

abbrev busy : Server
busy = record fresh { ledger = some nearly_full }

abbrev after_checks : Server
after_checks = record busy { tokens = (seen busy.tokens (1 ∷ 13 ∷ zeros 62) clock).1 }

upload-admitted :
    put_authority same toy meets conf busy shard token
      (stripe_of same toy meets conf shard [] [] clock)
      clock
    ≡ admitted ada after_checks
unfolding put_authority build_token verify_token be_bytes in_window of_be token_payload seen sweep
    new_cache allow bytes_eq stripe_of check_token enforce_pow op_byte
upload-admitted = refl

upload-refused :
    add_owner conf.options nearly_full shard ada 3 (clock / second) ≡ err quota_exceeded
unfolding add_owner has_claim Ledger.over_quota bytes_eq ◌+ℤ◌
upload-refused = refl

refused_put-orphan_example :
    let r = handle_put same toy meets conf busy [] shard token [] [] 0 clock in
    (r.0 ≡ refused (of_ledger_error quota_exceeded))
    × ((r.1.ledger ≡ some nearly_full)
        × (is_held (
              (run_gc
                  (shard ∷ [])
                  2000
                  true
                  (shard ∷ [])
                  []
                  (shard ∷ [])
                  (r.1.store, nearly_full)).1.0
                shard)
            ≡ true))
unfolding stripe_of
refused_put-orphan_example =
    refused_put-orphan same toy meets conf busy after_checks nearly_full ada quota_exceeded [] shard
      token [] [] 0 clock (shard ∷ []) (shard ∷ []) [] (shard ∷ []) 2000 true refl refl refl
      upload-admitted upload-refused refl

bob-admitted :
    is_ok (add_owner conf.options (after_or claimed (remove_owner claimed shard ada)) shard bob 3 6)
    ≡ true
unfolding add_owner has_claim remove_owner call Ledger.over_quota bytes_eq Ledger.drop_claim
bob-admitted = refl

put_during_delete-lost_example :
    let put_done =
      run same conf.options
        (with_shard, claimed)
        (unclaim shard ada ∷ put_steps same conf.options shard bob 6) in
    let end = run same conf.options put_done (store_delete shard ∷ drop shard ∷ []) in
    ((has_claim shard bob put_done.1.owners ≡ true) × (is_held (put_done.0 shard) ≡ true))
    × ((has_claim shard bob end.1.owners ≡ false) × (is_held (end.0 shard) ≡ false))
put_during_delete-lost_example =
    let sound =
      call-IsSound length conf.options empty_db (put_shard shard ada 5)
        (empty-IsSound length conf.options) in
    put_during_delete-lost same conf.options with_shard claimed shard ada bob 6 sound.0
      (sound.1 shard) bob-admitted
