-- ===== src/Net/RootSelect/Agreed.antt =====
-- Every reader that sees the same records selects the same one.
use mathlib.Core.Option.{some-injective}
use revika.Base.{
  subst, if_pos, leb, ℕ, suc, ◌≡◌, refl, ap, ap₂, sym, ◌∙◌, ◌⊎◌, inl, inr, Bool, true, false, ◌||◌,
  Option, none, some, List, [], ◌∷◌, arith, Bytes, bytes_eq, ◌==◌, Bool-cases, Option-cases,
}
use revika.Net.RootSelect.{bytes_ltb, Best, beats, consider, select_loop, select}

unfoldable pub lists : Bytes → List Bytes → Bool
lists v [] = false
lists v (w ∷ values) = (w == v) || lists v values

lists-head : (v : Bytes) (values : List Bytes) → lists v (v ∷ values) ≡ true
unfolding lists
lists-head v values = rw (if_pos (bytes_eq.dec v v) refl true false) refl

bytes_ltb_trans :
    (a b c : Bytes) → bytes_ltb a b ≡ false → bytes_ltb b c ≡ false → bytes_ltb a c ≡ false
unfolding bytes_ltb
bytes_ltb_trans [] [] c h h' = h'
bytes_ltb_trans [] (b ∷ ys) c h h' = absurd (cc h)
bytes_ltb_trans (a ∷ xs) b [] h h' = refl
bytes_ltb_trans (a ∷ xs) [] (c ∷ zs) h h' = absurd (cc h')
bytes_ltb_trans (a ∷ xs) (b ∷ ys) (c ∷ zs) h h' = ground (arith, h, h', bytes_ltb_trans xs ys zs)

pub bytes_ltb_total : (a b : Bytes) → bytes_ltb a b ≡ false → bytes_ltb b a ≡ false → a ≡ b
unfolding bytes_ltb
bytes_ltb_total [] [] h h' = refl
bytes_ltb_total [] (b ∷ ys) h h' = absurd (cc h)
bytes_ltb_total (a ∷ xs) [] h h' = absurd (cc h')
bytes_ltb_total (a ∷ xs) (b ∷ ys) h h' =
    let first : a ≡ b = ground (arith, h, h') in
    let rest : xs ≡ ys =
      bytes_ltb_total xs ys (ground (arith, h, first)) (ground (arith, h', first)) in
    ap₂ (λ x l. x ∷ l) first rest

pub bytes_ltb_irrefl : (a : Bytes) → bytes_ltb a a ≡ false
unfolding bytes_ltb
bytes_ltb_irrefl [] = refl
bytes_ltb_irrefl (a ∷ xs) = ground (arith, bytes_ltb_irrefl xs)

pub bytes_ltb_asym : (a b : Bytes) → bytes_ltb a b ≡ true → bytes_ltb b a ≡ false
unfolding bytes_ltb
bytes_ltb_asym [] [] h = absurd (cc h)
bytes_ltb_asym [] (b ∷ ys) h = refl
bytes_ltb_asym (a ∷ xs) [] h = absurd (cc h)
bytes_ltb_asym (a ∷ xs) (b ∷ ys) h = ground (arith, h, bytes_ltb_asym xs ys)

-- What no record that can be read does to the best.
abbrev pub Unbeaten : Best → Option ℕ → Bytes → Type 0
Unbeaten best none v = Unit
Unbeaten best (some seq) v = beats seq v best ≡ false

beats_trans :
    (s s' : ℕ) (v v' : Bytes) (best : Best)
    → beats s v (record { index = 0; seq = s'; value = v' }) ≡ false
    → beats s' v' best ≡ false
    → beats s v best ≡ false
unfolding beats
beats_trans s s' v v' best h h' = ground (arith, h, h', bytes_ltb_trans v v' best.value)

abbrev pub Passes : Option Best → Option ℕ → Bytes → Type 0
Passes none o v = o ≡ none
Passes (some best) o v = Unbeaten best o v

beats_self : (i s : ℕ) (v : Bytes) → beats s v (record { index = i; seq = s; value = v }) ≡ false
unfolding beats
beats_self i s v = ground (arith, bytes_ltb_irrefl v)

beaten-Unbeaten :
    (best : Best) (i s : ℕ) (v : Bytes) (o : Option ℕ) (w : Bytes)
    → beats s v best ≡ true
    → Unbeaten best o w
    → Unbeaten (record { index = i; seq = s; value = v }) o w
unfolding beats
beaten-Unbeaten best i s v none w h u = tt
beaten-Unbeaten best i s v (some s') w h u =
    ground (arith, h, u, bytes_ltb_asym v best.value, bytes_ltb_trans w best.value v)

consider-Passes :
    (best : Option Best) (i : ℕ) (o : Option ℕ) (v : Bytes) (p : Option ℕ) (w : Bytes)
    → Passes best p w
    → Passes (consider best i o v) p w
consider-Passes best i none v p w h = h
consider-Passes none i (some s) v none w h = tt
consider-Passes none i (some s) v (some s') w h = absurd (cc h)
consider-Passes (some best) i (some s) v p w h = elim (Bool-cases (beats s v best)) [
  | inl beaten ↦ rw beaten (beaten-Unbeaten best i s v p w beaten h)
  | inr stays ↦ rw stays h
]

consider_self :
    (best : Option Best) (i : ℕ) (o : Option ℕ) (v : Bytes) → Passes (consider best i o v) o v
consider_self none i none v = refl
consider_self (some best) i none v = tt
consider_self none i (some s) v = beats_self i s v
consider_self (some best) i (some s) v = elim (Bool-cases (beats s v best)) [
  | inl beaten ↦ rw beaten (beats_self i s v)
  | inr stays ↦ rw stays stays
]

module _ (read : Bytes → Option ℕ) where
  loop-Passes :
      (best : Option Best) (i : ℕ) (values : List Bytes) (w : Bytes)
      → Passes best (read w) w
      → Passes (select_loop read best i values) (read w) w
  unfolding select_loop
  loop-Passes best i [] w h = h
  loop-Passes best i (v ∷ values) w h =
      loop-Passes (consider best i (read v) v) (suc i) values w
        (consider-Passes best i (read v) v (read w) w h)

  loop-lists :
      (best : Option Best) (i : ℕ) (values : List Bytes) (w : Bytes)
      → lists w values ≡ true
      → Passes (select_loop read best i values) (read w) w
  unfolding select_loop lists
  loop-lists best i [] w h = absurd (cc h)
  loop-lists best i (v ∷ values) w h = elim (bytes_eq.dec v w) [
    | yes same ↦ loop-Passes (consider best i (read v) v) (suc i) values w (
        subst (λ x. Passes (consider best i (read v) v) (read x) x) same
          (consider_self best i (read v) v))
    | no other ↦ loop-lists (consider best i (read v) v) (suc i) values w (ground (arith, h))
  ]

  -- Where the best comes from.
  abbrev From : List Bytes → Best → Type 0
  From values best = (lists best.value values ≡ true) × (read best.value ≡ some best.seq)

  From-cons :
      (v : Bytes) (values : List Bytes) (best : Best) → From values best → From (v ∷ values) best
  unfolding lists
  From-cons v values best (here, r) = (ground (arith, here), r)

  consider-From :
      (best : Option Best) (i : ℕ) (o : Option ℕ) (v : Bytes) (b : Best)
      → read v ≡ o
      → consider best i o v ≡ some b
      → (best ≡ some b) ⊎ ((b.value ≡ v) × (read v ≡ some b.seq))
  consider-From best i none v b r h = inl h
  consider-From none i (some s) v b r h =
      let e = some-injective _ _ h in inr (sym (ap (λ x. x.value) e), r ∙ ap (λ x. some x.seq) e)
  consider-From (some best) i (some s) v b r h = elim (Bool-cases (beats s v best)) [
    | inl beaten ↦
        let g : some (record { index = i; seq = s; value = v }) ≡ some b = rw beaten at h in
        let e = some-injective _ _ g in inr (sym (ap (λ x. x.value) e), r ∙ ap (λ x. some x.seq) e)
    | inr stays ↦ inl (rw stays at h)
  ]

  loop-From :
      (best : Option Best) (i : ℕ) (values : List Bytes) (b : Best)
      → select_loop read best i values ≡ some b
      → (best ≡ some b) ⊎ From values b
  unfolding select_loop
  loop-From best i [] b h = inl h
  loop-From best i (v ∷ values) b h =
      elim (loop-From (consider best i (read v) v) (suc i) values b h) [
        | inr later ↦ inr (From-cons v values b later)
        | inl now ↦ elim (consider-From best i (read v) v b refl now) [
          | inl before ↦ inl before
          | inr (same, r) ↦
              inr (ap (λ x. lists x (v ∷ values)) same ∙ lists-head v values, ap read same ∙ r)
        ]
      ]

abbrev pub value_of : Option Best → Option Bytes
value_of none = none
value_of (some best) = some best.value

same_rank :
    (b c : Best) → beats c.seq c.value b ≡ false → beats b.seq b.value c ≡ false → b.value ≡ c.value
unfolding beats
same_rank b c h h' = bytes_ltb_total b.value c.value (ground (arith, h, h')) (ground (arith, h, h'))

newest : (b : Best) (s : ℕ) (w : Bytes) → beats s w b ≡ false → leb s b.seq ≡ true
unfolding beats
newest b s w h = ground (arith, h)

module _ (read : Bytes → Option ℕ) where
  selected : (values : List Bytes) (b : Best) → select read values ≡ some b → From read values b
  unfolding select
  selected values b h = elim (loop-From read none 0 values b h) [
    | inl before ↦ absurd (cc before)
    | inr from ↦ from
  ]

  unbeaten :
      (values : List Bytes) (w : Bytes)
      → lists w values ≡ true
      → Passes (select read values) (read w) w
  unfolding select
  unbeaten values w h = loop-lists read none 0 values w h

  -- The record that is selected is one of those that were found, and no record of them that can be read
  -- has a higher number.
  pub select-newest :
      (values : List Bytes) (b : Best) (w : Bytes) (s : ℕ)
      → select read values ≡ some b
      → lists w values ≡ true
      → read w ≡ some s
      → (lists b.value values ≡ true) × ((read b.value ≡ some b.seq) × (leb s b.seq ≡ true))
  select-newest values b w s h here r =
      let (from, seq) = selected values b h in
      let best : Unbeaten b (some s) w = rw (h, r) at (unbeaten values w here) in
      (from, (seq, newest b s w best))

  -- Two readers that find the same records, in any order and any number of times each, select records
  -- with the same bytes, or both none.
  pub select-agreed :
      (vs ws : List Bytes)
      → ((v : Bytes) → lists v vs ≡ lists v ws)
      → value_of (select read vs) ≡ value_of (select read ws)
  select-agreed vs ws same = elim (Option-cases (select read vs)) [
    | inl nothing ↦ elim (Option-cases (select read ws)) [
      | inl nothing' ↦ rw (nothing, nothing') refl
      | inr (c, h) ↦
          let (from, seq) = selected ws c h in
          let unread : read c.value ≡ none =
            rw nothing at (unbeaten vs c.value (same c.value ∙ from)) in
          absurd (let e : none ≡ some c.seq = sym unread ∙ seq in cc)
    ]
    | inr (b, h) ↦
        let (from, seq) = selected vs b h in
        elim (Option-cases (select read ws)) [
          | inl nothing ↦
              let unread : read b.value ≡ none =
                rw nothing at (unbeaten ws b.value (sym (same b.value) ∙ from)) in
              absurd (let e : none ≡ some b.seq = sym unread ∙ seq in cc)
          | inr (c, h') ↦
              let (from', seq') = selected ws c h' in
              let b_best : Unbeaten b (some c.seq) c.value =
                rw (h, seq') at (unbeaten vs c.value (same c.value ∙ from')) in
              let c_best : Unbeaten c (some b.seq) b.value =
                rw (h', seq) at (unbeaten ws b.value (sym (same b.value) ∙ from)) in
              rw (h, h') (ap some (same_rank b c b_best c_best))
        ]
  ]
