-- ===== src/Plan/Validate/Steps.antt =====
-- What the first half of `validate` establishes: where each step is (src/plan.rs).
use fstx.Base.{
  length-set, ℕ, zero, suc, ◌+◌, ◌<◌, List, [], ◌∷◌, Option, none, some, true, ◌==◌, nat_eq,
  list_eq, if◌then◌else◌, length, contains, ◌≡◌, refl, ◌∙◌, ◌≢◌, inl, inr, arith, Option-cases, ok,
  All, get_elem?, >>=-eq-ok, set, list_ord, nat_ord,
}
use fstx.Base.Map.{BTreeMap, get, insert, get-insert}
use fstx.Plan.{Token, Step, Plan, step_eq}
use fstx.Plan.Validate.{StepWave, steps_of, record_steps, check_overlaps, scan_waves}

pub lt_of_get_elem? {ℓ} :
    {A : Type ℓ} (xs : List A) (i : ℕ) {x : A} → get_elem? xs i ≡ some x → i < length xs
lt_of_get_elem? [] i h = cc
lt_of_get_elem? (x ∷ xs) zero h = omega arith
lt_of_get_elem? (x ∷ xs) (suc i) h = omega (arith, lt_of_get_elem? xs i h)

steps_of-set :
    (sw : StepWave) (t : ℕ) (m : BTreeMap ℕ ℕ) (u : ℕ)
    → t < length sw
    → steps_of (set sw t m) u ≡ (if u == t then m else steps_of sw u)
steps_of-set [] t m u h = absurd (omega arith)
steps_of-set (x ∷ sw) zero m zero h = ground arith
steps_of-set (x ∷ sw) zero m (suc u) h = ground arith
steps_of-set (x ∷ sw) (suc t) m zero h = ground arith
steps_of-set (x ∷ sw) (suc t) m (suc u) h = ground (arith, steps_of-set sw t m u (omega arith))

-- The wave recorded for a step.
abbrev pub recorded : StepWave → Step → Option ℕ
recorded sw s = get s.from (steps_of sw s.token)

-- The step's token exists, and has a location behind the step's source.
abbrev pub IsInRange : Plan → Step → Type 0
IsInRange plan s =
    (tok : Token) × (get_elem? plan.tokens s.token ≡ some tok) × (s.from + 1 < length tok.locs)

abbrev put_step : ℕ → Step → StepWave → StepWave
put_step w s sw = set sw s.token (insert s.from w (steps_of sw s.token))

recorded-put_step :
    (w : ℕ) (s : Step) (sw : StepWave) (u : Step)
    → s.token < length sw
    → recorded (put_step w s sw) u ≡ (if u == s then some w else recorded sw u)
recorded-put_step w s sw u h = ground (
  arith,
  steps_of-set sw s.token (insert s.from w (steps_of sw s.token)) u.token h,
  get-insert u.from s.from w (steps_of sw s.token),
)

-- The first wave, from `w` on, that holds the step.
abbrev pub wave_of : ℕ → List (List Step) → Step → Option ℕ
wave_of w [] u = none
wave_of w (wave ∷ waves) u = if contains wave u then some w else wave_of (w + 1) waves u

abbrev pub or_else : Option ℕ → Option ℕ → Option ℕ
or_else none o = o
or_else (some a) o = some a

-- No step stands in two waves.
abbrev pub IsDisjoint : ℕ → List (List Step) → Type 0
IsDisjoint w [] = Unit
IsDisjoint w (wave ∷ waves) =
    ((u : Step) → contains wave u ≡ true → wave_of (w + 1) waves u ≡ none)
    × IsDisjoint (w + 1) waves

module _ (plan : Plan) where
  record_steps_inv :
      (w : ℕ) (s : Step) (wave : List Step) (sw sw' : StepWave)
      → record_steps plan w (s ∷ wave) sw ≡ ok sw'
      → IsInRange plan s
        × (recorded sw s ≡ none)
        × (record_steps plan w wave (put_step w s sw) ≡ ok sw')
  unfolding record_steps
  record_steps_inv w s wave sw sw' h = elim (Option-cases (get_elem? plan.tokens s.token)) [
    | inl e ↦ absurd (ground arith)
    | inr (tok, e) ↦ ((tok, e, ground arith), ground arith, ground arith)
  ]

  length-record_steps :
      (w : ℕ) (wave : List Step) (sw sw' : StepWave)
      → record_steps plan w wave sw ≡ ok sw'
      → length sw' ≡ length sw
  length-record_steps w [] sw sw' h = unfold record_steps in ground arith
  length-record_steps w (s ∷ wave) sw sw' h =
      let (_, _, rest) = record_steps_inv w s wave sw sw' h in
      length-record_steps w wave (put_step w s sw) sw' rest ∙ length-set sw s.token _

  pub record_steps-IsInRange :
      (w : ℕ) (wave : List Step) (sw sw' : StepWave)
      → record_steps plan w wave sw ≡ ok sw'
      → All (IsInRange plan) wave
  record_steps-IsInRange w [] sw sw' h = tt
  record_steps-IsInRange w (s ∷ wave) sw sw' h =
      let (here, _, rest) = record_steps_inv w s wave sw sw' h in
      (here, record_steps-IsInRange w wave (put_step w s sw) sw' rest)

  -- After a wave the table holds the wave's number for its steps, and what it held for the others.
  recorded-record_steps :
      (w : ℕ) (wave : List Step) (sw sw' : StepWave) (u : Step)
      → length sw ≡ length plan.tokens
      → record_steps plan w wave sw ≡ ok sw'
      → (recorded sw' u ≡ (if contains wave u then some w else recorded sw u))
        × (contains wave u ≡ true → recorded sw u ≡ none)
  recorded-record_steps w [] sw sw' u n h = unfold record_steps in (ground arith, λ e. cc)
  recorded-record_steps w (s ∷ wave) sw sw' u n h =
      let ((tok, found, _), fresh, rest) = record_steps_inv w s wave sw sw' h in
      let bound : s.token < length sw = omega (arith, lt_of_get_elem? plan.tokens s.token found) in
      let put = recorded-put_step w s sw u bound in
      let ih =
        recorded-record_steps w wave (put_step w s sw) sw' u (length-set sw s.token _ ∙ n) rest in
      (ground arith, ground arith)

  scan_waves_inv :
      (w : ℕ) (wave : List Step) (waves : List (List Step)) (sw sw' : StepWave)
      → scan_waves plan w (wave ∷ waves) sw ≡ ok sw'
      → (mid : StepWave) × (record_steps plan w wave sw ≡ ok mid)
        × (check_overlaps plan w wave ≡ ok tt)
        × (scan_waves plan (w + 1) waves mid ≡ ok sw')
  unfolding scan_waves
  scan_waves_inv w wave waves sw sw' h =
      let (mid, first, h1) = >>=-eq-ok (record_steps plan w wave sw) _ h in
      let (_, second, h2) = >>=-eq-ok (check_overlaps plan w wave) _ h1 in (mid, first, second, h2)

  -- The table is exact: it holds the wave of every step of the plan, and nothing else.
  pub recorded-scan_waves :
      (w : ℕ) (waves : List (List Step)) (sw sw' : StepWave) (u : Step)
      → length sw ≡ length plan.tokens
      → scan_waves plan w waves sw ≡ ok sw'
      → (recorded sw' u ≡ or_else (wave_of w waves u) (recorded sw u))
        × (wave_of w waves u ≢ none → recorded sw u ≡ none)
  recorded-scan_waves w [] sw sw' u n h = unfold scan_waves in (ground arith, λ e. absurd (e refl))
  recorded-scan_waves w (wave ∷ waves) sw sw' u n h =
      let (mid, first, _, rest) = scan_waves_inv w wave waves sw sw' h in
      let here = recorded-record_steps w wave sw mid u n first in
      let ih =
        recorded-scan_waves (w + 1) waves mid sw' u (length-record_steps w wave sw mid first ∙ n)
          rest in
      (ground arith, ground arith)

  pub scan_waves-IsDisjoint :
      (w : ℕ) (waves : List (List Step)) (sw sw' : StepWave)
      → length sw ≡ length plan.tokens
      → scan_waves plan w waves sw ≡ ok sw'
      → IsDisjoint w waves
  scan_waves-IsDisjoint w [] sw sw' n h = tt
  scan_waves-IsDisjoint w (wave ∷ waves) sw sw' n h =
      let (mid, first, _, rest) = scan_waves_inv w wave waves sw sw' h in
      let n' = length-record_steps w wave sw mid first ∙ n in
      (
        λ u m.
            let here = recorded-record_steps w wave sw mid u n first in
            let later = recorded-scan_waves (w + 1) waves mid sw' u n' rest in ground arith,
        scan_waves-IsDisjoint (w + 1) waves mid sw' n' rest,
      )

  pub scan_waves-IsInRange :
      (w : ℕ) (waves : List (List Step)) (sw sw' : StepWave)
      → scan_waves plan w waves sw ≡ ok sw'
      → All (All (IsInRange plan)) waves
  scan_waves-IsInRange w [] sw sw' h = tt
  scan_waves-IsInRange w (wave ∷ waves) sw sw' h =
      let (mid, first, _, rest) = scan_waves_inv w wave waves sw sw' h in
      (record_steps-IsInRange w wave sw mid first, scan_waves-IsInRange (w + 1) waves mid sw' rest)
