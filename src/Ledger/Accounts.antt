-- ===== src/Ledger/Accounts.antt =====
-- What an owner is to be charged, by the rows of the owners table, and the accounts against it.
use native.Mathlib.Nat.{add_comm}
use revika.Base.{
  ℕ, zero, suc, ◌+◌, ◌<◌, ◌≡◌, ◌≢◌, refl, ap, ◌∙◌, true, false, Option, none, some, List, [], ◌∷◌,
  arith, if◌then◌else◌, if_pos, if_neg, bytes_eq, ◌==◌, Map, All,
}
use revika.Base.Int.{pos, pos-add, pos-sub_add, ◌-ℤ◌}
use revika.Ledger.{
  ShardId, Owner, ShardRow, OwnerRow, Account, charge_up, charge_down, set_account, credit_all,
  drop_shard,
}

abbrev pub size_of : Option ShardRow → ℕ
size_of none = 0
size_of (some s) = s.size

-- The bytes of the shards that an owner claims.
unfoldable pub used : Map ShardId ShardRow → Owner → List OwnerRow → ℕ
used shards o [] = 0
used shards o (r ∷ rows) =
    (if r.owner == o then size_of (shards r.shard_id) else 0) + used shards o rows

-- The number of shards that an owner claims.
unfoldable pub claims : Owner → List OwnerRow → ℕ
claims o [] = 0
claims o (r ∷ rows) = (if r.owner == o then 1 else 0) + claims o rows

-- An account shows so many bytes and shards; there is none for no shard.
abbrev pub Shows : Option Account → ℕ → ℕ → Type 0
Shows none bytes count = count ≡ 0
Shows (some a) bytes count = (0 < count) × (a.bytes_used ≡ pos bytes) × (a.shard_count ≡ pos count)

pub Shows-eq : (a : Option Account) (b c b' c' : ℕ) → b ≡ b' → c ≡ c' → Shows a b c → Shows a b' c'
Shows-eq none b c b' c' p q h = omega arith
Shows-eq (some a) b c b' c' p q h = (omega arith, h.1 ∙ ap pos p, h.2 ∙ ap pos q)

pub charge_up-Shows :
    (a : Option Account) (size now b c : ℕ)
    → (c ≡ 0 → b ≡ 0)
    → Shows a b c
    → Shows (some (charge_up a size now)) (size + b) (1 + c)
unfolding charge_up
charge_up-Shows none size now b c z h =
    (omega arith, ap pos (omega (arith, z h)), ap pos (omega arith))
charge_up-Shows (some a) size now b c z h = (
  omega arith,
  rw h.1 (pos-add b size ∙ ap pos (omega arith)),
  rw h.2 (pos-add c 1 ∙ ap pos (omega arith)),
)

take_back : (n k : ℕ) → pos (n + k) -ℤ pos n ≡ pos k
take_back n k = ap (λ x. pos x -ℤ pos n) (add_comm n k) ∙ pos-sub_add k n

-- A charge is taken back exactly: the balance never falls below zero.
pub charge_down-Shows :
    (a : Option Account) (size b c : ℕ)
    → Shows a (size + b) (1 + c)
    → Shows (charge_down a size) b c
unfolding charge_down
charge_down-Shows none size b c h = absurd (omega arith)
charge_down-Shows (some a) size b zero h = rw (h.2, take_back 1 0) refl
charge_down-Shows (some a) size b (suc c) h =
    rw (h.2, take_back 1 (suc c), h.1, take_back size b) (ground arith)

pub used_of_claims :
    (shards : Map ShardId ShardRow) (o : Owner) (rows : List OwnerRow)
    → claims o rows ≡ 0
    → used shards o rows ≡ 0
unfolding used claims
used_of_claims shards o [] h = refl
used_of_claims shards o (r ∷ rows) h = ground (arith, used_of_claims shards o rows)

-- The account of every owner shows the bytes and the shards that it claims.
abbrev pub Matches : Map ShardId ShardRow → List OwnerRow → Map Owner Account → Type 0
Matches shards rows accounts = (o : Owner) → Shows (accounts o) (used shards o rows) (claims o rows)

-- Every claim is on a shard that the ledger knows.
abbrev pub Known : Map ShardId ShardRow → List OwnerRow → Type 0
Known shards rows = All (λ r. shards r.shard_id ≢ none) rows

-- Usage is read off the sizes of the shards that are claimed, and off nothing else.
pub used_congr :
    (shards shards' : Map ShardId ShardRow) (o : Owner) (rows : List OwnerRow)
    → All (λ r. shards' r.shard_id ≡ shards r.shard_id) rows
    → used shards' o rows ≡ used shards o rows
unfolding used
used_congr shards shards' o [] h = refl
used_congr shards shards' o (r ∷ rows) h = rw (h.0, used_congr shards shards' o rows h.1) refl

set_account-Shows_self :
    (accounts : Map Owner Account) (o : Owner) (a : Option Account) (b c : ℕ)
    → Shows a b c
    → Shows (set_account accounts o a o) b c
set_account-Shows_self accounts o a b c h = rw (if_pos (bytes_eq.dec o o) refl true false) h

-- Crediting one owner takes its charge back, and leaves the other accounts alone.
pub credit-Shows :
    (accounts : Map Owner Account) (w o : Owner) (size b c : ℕ)
    → Shows (accounts o) ((if w == o then size else 0) + b) ((if w == o then 1 else 0) + c)
    → Shows (set_account accounts w (charge_down (accounts w) size) o) b c
credit-Shows accounts w o size b c h = elim (bytes_eq.dec w o) [
  | yes same ↦
      let here = if_pos (bytes_eq.dec w o) same true false in
      rw (here, same) (charge_down-Shows (accounts o) size b c (rw here at h))
  | no other ↦
      let there = if_neg (bytes_eq.dec w o) other true false in
      rw there
        (Shows-eq (accounts o) (0 + b) (0 + c) b c (omega arith) (omega arith) (rw there at h))
]

-- `dropRecordTx` credits every owner of the shard for what it was charged.
pub credit_all-Shows :
    (shards : Map ShardId ShardRow) (id : ShardId) (size : ℕ) (o : Owner) (rows : List OwnerRow)
    (accounts : Map Owner Account) (b c : ℕ)
    → size_of (shards id) ≡ size
    → Shows (accounts o) (used shards o rows + b) (claims o rows + c)
    → Shows
        (credit_all id size rows accounts o)
        (used shards o (drop_shard id rows) + b)
        (claims o (drop_shard id rows) + c)
unfolding credit_all drop_shard used claims
credit_all-Shows shards id size o [] accounts b c e h = h
credit_all-Shows shards id size o (r ∷ rows) accounts b c e h = elim (bytes_eq.dec r.shard_id id) [
  | yes same ↦
      let here = if_pos (bytes_eq.dec r.shard_id id) same true false in
      let size_r : size_of (shards r.shard_id) ≡ size = ap (λ x. size_of (shards x)) same ∙ e in
      rw here (
        credit_all-Shows shards id size o rows _ b c e (
          credit-Shows accounts r.owner o size _ _
            (Shows-eq (accounts o) _ _ _ _ (rw size_r (omega arith)) (omega arith) h)))
  | no other ↦
      let there = if_neg (bytes_eq.dec r.shard_id id) other true false in
      rw there (
        Shows-eq _ _ _ _ _ (omega arith) (omega arith) (
          credit_all-Shows shards id size o rows accounts
            ((if r.owner == o then size_of (shards r.shard_id) else 0) + b)
            ((if r.owner == o then 1 else 0) + c) e
            (Shows-eq (accounts o) _ _ _ _ (omega arith) (omega arith) h)))
]
