-- ===== src/Plan/Validate/Order.antt =====
-- The order of a token's steps that `validate` establishes (src/plan.rs).
use fstx.Base.{
  replicate, ℕ, zero, suc, ◌+◌, ◌-◌, ◌≤◌, ◌<◌, List, [], ◌∷◌, none, some, false, ◌==◌, nat_eq,
  list_eq, length, ◌≡◌, refl, sym, ap, ◌∙◌, inl, inr, arith, Bool-cases, Option-cases, ok, All,
  get_elem?, ok-injective, >>=-eq-ok, replicate, list_ord, nat_ord,
}
use fstx.Base.Map.{BTreeMap, get}
use fstx.Plan.{Token, Step, Plan, step_eq}
use fstx.Plan.Validate.{
  StepWave, steps_of, collect_waves, has_descent, check_tokens, scan_waves, validate,
}
use fstx.Plan.Validate.Steps.{
  recorded, IsInRange, wave_of, IsDisjoint, scan_waves-IsDisjoint, scan_waves-IsInRange,
  recorded-scan_waves,
}

-- The wave of the first step is below all the others'.
collect_waves_inv :
    (t : ℕ) (steps : BTreeMap ℕ ℕ) (from count : ℕ) (ws : List ℕ)
    → collect_waves t steps from (suc count) ≡ ok ws
    → (w : ℕ) × (rest : List ℕ) × (get from steps ≡ some w)
      × (collect_waves t steps (from + 1) count ≡ ok rest)
      × (ws ≡ w ∷ rest)
unfolding collect_waves
collect_waves_inv t steps from count ws h = elim (Option-cases (get from steps)) [
  | inl e ↦ absurd (ground arith)
  | inr (w, e) ↦
      let (rest, e', h') =
        >>=-eq-ok (collect_waves t steps (from + 1) count) (λ rest. ok (w ∷ rest)) (ground arith) in
      (w, rest, e, e', sym (ok-injective h'))
]

-- Each step of the token is there, and each is in an earlier wave than the next.
collect_waves-step :
    (t : ℕ) (steps : BTreeMap ℕ ℕ) (from count : ℕ) (ws : List ℕ) (f : ℕ)
    → collect_waves t steps from count ≡ ok ws
    → from ≤ f
    → f < from + count
    → (w : ℕ) × (get f steps ≡ some w)
collect_waves-step t steps from zero ws f h lo hi = absurd (omega arith)
collect_waves-step t steps from (suc count) ws f h lo hi =
    let (w, rest, here, later, _) = collect_waves_inv t steps from count ws h in
    elim (Bool-cases (f == from)) [
      | inl e ↦ (w, ground arith)
      | inr e ↦
          collect_waves-step t steps (from + 1) count rest f later (ground arith) (ground arith)
    ]

collect_waves_ordered :
    (t : ℕ) (steps : BTreeMap ℕ ℕ) (from count : ℕ) (ws : List ℕ) (f a b : ℕ)
    → collect_waves t steps from count ≡ ok ws
    → has_descent ws ≡ false
    → from ≤ f
    → f + 1 < from + count
    → get f steps ≡ some a
    → get (f + 1) steps ≡ some b
    → a < b
unfolding has_descent
collect_waves_ordered t steps from zero ws f a b h d lo hi ea eb = absurd (omega arith)
collect_waves_ordered t steps from (suc zero) ws f a b h d lo hi ea eb = absurd (omega arith)
collect_waves_ordered t steps from (suc (suc count)) ws f a b h d lo hi ea eb =
    let (w, rest, here, later, e1) = collect_waves_inv t steps from (suc count) ws h in
    let (w', rest', here', later', e2) = collect_waves_inv t steps (from + 1) count rest later in
    elim (Bool-cases (f == from)) [
      | inl e ↦ ground arith
      | inr e ↦
          collect_waves_ordered t steps (from + 1) (suc count) rest f a b later (ground arith)
            (ground arith) (ground arith) ea eb
    ]

check_tokens_inv :
    (t : ℕ) (tok : Token) (tokens : List Token) (sw : StepWave)
    → check_tokens t (tok ∷ tokens) sw ≡ ok tt
    → ((ws : List ℕ) × (collect_waves t (steps_of sw t) 0 (length tok.locs - 1) ≡ ok ws)
        × (has_descent ws ≡ false))
      × (check_tokens (t + 1) tokens sw ≡ ok tt)
unfolding check_tokens
check_tokens_inv t tok tokens sw h =
    let (ws, e, h1) = >>=-eq-ok (collect_waves t (steps_of sw t) 0 (length tok.locs - 1)) _ h in
    ((ws, e, ground arith), ground arith)

check_tokens_at :
    (t : ℕ) (tokens : List Token) (sw : StepWave) (i k : ℕ) {tok : Token}
    → k ≡ t + i
    → check_tokens t tokens sw ≡ ok tt
    → get_elem? tokens i ≡ some tok
    → (ws : List ℕ) × (collect_waves k (steps_of sw k) 0 (length tok.locs - 1) ≡ ok ws)
      × (has_descent ws ≡ false)
check_tokens_at t [] sw i k n h e = absurd (ground arith)
check_tokens_at t (tok ∷ tokens) sw zero k {tok = found} n h e =
    let same : tok ≡ found = ground arith in
    let at_t : k ≡ t = omega arith in rw (at_t, ← same) (check_tokens_inv t tok tokens sw h).0
check_tokens_at t (tok ∷ tokens) sw (suc i) k n h e =
    check_tokens_at (t + 1) tokens sw i k (omega arith) (check_tokens_inv t tok tokens sw h).1 e

-- The step that takes the token on from where this one leaves it.
abbrev pub next_step : Step → Step
next_step s = record { token = s.token; from = s.from + 1 }

-- The token has a step from the location.
abbrev pub HasStep : Plan → Step → Type 0
HasStep = IsInRange

steps_of_empty : (n t f : ℕ) → get f (steps_of (replicate n []) t) ≡ none
unfolding get
steps_of_empty zero t f = refl
steps_of_empty (suc n) zero f = refl
steps_of_empty (suc n) (suc t) f = steps_of_empty n t f

length-replicate : {A : Type 0} (n : ℕ) (a : A) → length (replicate n a) ≡ n
length-replicate zero a = refl
length-replicate (suc n) a = ap suc (length-replicate n a)

module _ (plan : Plan) where
  -- Every step that a token needs is in some wave, and in an earlier one than the token's next.
  pub record IsOrdered : Type 0 where
    pub scheduled : (s : Step) → HasStep plan s → (w : ℕ) × (wave_of 0 plan.waves s ≡ some w)
    pub increasing :
        (s : Step) (a b : ℕ)
        → HasStep plan (next_step s)
        → wave_of 0 plan.waves s ≡ some a
        → wave_of 0 plan.waves (next_step s) ≡ some b
        → a < b
    pub in_range : All (All (IsInRange plan)) plan.waves
    pub disjoint : IsDisjoint 0 plan.waves

  -- The table of a scan from the start is the plan's own order.
  table :
      (sw : StepWave) (s : Step)
      → scan_waves plan 0 plan.waves (replicate (length plan.tokens) []) ≡ ok sw
      → recorded sw s ≡ wave_of 0 plan.waves s
  table sw s h =
      let empty = replicate (length plan.tokens) [] in
      let found =
        (recorded-scan_waves plan 0 plan.waves empty sw s (length-replicate (length plan.tokens) [])
          h).0 in
      let blank = steps_of_empty (length plan.tokens) s.token s.from in ground arith

  tables_checked :
      validate plan ≡ ok tt
      → (sw : StepWave) × (scan_waves plan 0 plan.waves (replicate (length plan.tokens) []) ≡ ok sw)
        × (check_tokens 0 plan.tokens sw ≡ ok tt)
  unfolding validate
  tables_checked h =
      let (sw, scanned, h1) =
        >>=-eq-ok (scan_waves plan 0 plan.waves (replicate (length plan.tokens) [])) _ h in
      let (_, checked, _) = >>=-eq-ok (check_tokens 0 plan.tokens sw) _ h1 in (sw, scanned, checked)

  -- A validated plan has every step of each token in some wave, the later steps of a token in later
  -- waves, only steps that are in range, and no step in two waves.
  pub validate-IsOrdered : validate plan ≡ ok tt → IsOrdered
  validate-IsOrdered h =
      let (sw, scanned, checked) = tables_checked h in
      record {
        scheduled = λ s (tok, found, bound).
            let (ws, c, d) =
              check_tokens_at 0 plan.tokens sw s.token s.token (omega arith) checked found in
            let (w, e) =
              collect_waves-step s.token (steps_of sw s.token) 0 _ ws s.from c (omega arith)
                (omega arith) in
            (w, sym (table sw s scanned) ∙ e);
        increasing = λ s a b (tok, found, bound) ea eb.
            let (ws, c, d) =
              check_tokens_at 0 plan.tokens sw s.token s.token (omega arith) checked found in
            collect_waves_ordered s.token (steps_of sw s.token) 0 _ ws s.from a b c d (omega arith)
              (omega arith) (table sw s scanned ∙ ea) (table sw (next_step s) scanned ∙ eb);
        in_range = scan_waves-IsInRange plan 0 plan.waves _ sw scanned;
        disjoint =
            scan_waves-IsDisjoint plan 0 plan.waves _ sw (length-replicate (length plan.tokens) [])
              scanned;
      }
