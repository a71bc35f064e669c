-- ===== src/Recover/Logged.antt =====
-- What a progress log that passes its check tells of the tokens (src/recover.rs).
use fstx.Base.{
  ℕ, zero, suc, ◌+◌, ◌≤◌, ◌<◌, List, [], ◌∷◌, Option, some, true, false, ◌||◌, ltb, leb, nat_eq,
  list_eq, length, contains, ◌≡◌, ◌⊎◌, inl, inr, arith, Bool-cases, Option-cases, Result, ok,
  get_elem?, >>=-eq-ok, for_each, list_ord, nat_ord,
}
use fstx.Error.{Reason}
use fstx.Plan.{Step, Plan, step_eq}
use fstx.Progress.{Record, apply_done, undo_done}
use fstx.Recover.{
  Pos, pos_at, pre, post, step_state, step_state_eq, max_apply, min_undo, is_some_and, or_default,
  check_logged_step, check_logged_waves, check_progress,
}

-- The record stands in the log.
abbrev pub Logs : Record → List Record → Type 0
Logs r [] = ⊥
Logs r (x ∷ recs) = (x ≡ r) ⊎ Logs r recs

min_undo-Logs :
    (w : ℕ) (recs : List Record)
    → Logs (undo_done w) recs
    → (m : ℕ) × (min_undo recs ≡ some m) × (m ≤ w)
unfolding min_undo
min_undo-Logs w [] h = absurd h
min_undo-Logs w (undo_done x ∷ recs) (inl e) = elim (Option-cases (min_undo recs)) [
  | inl n ↦ (x, ground arith, ground arith)
  | inr (m, n) ↦ elim (Bool-cases (ltb x m)) [
    | inl lt ↦ (x, ground arith, ground arith)
    | inr ge ↦ (m, ground arith, ground arith)
  ]
]
min_undo-Logs w (apply_done x ∷ recs) (inl e) = absurd (ground arith)
min_undo-Logs w (apply_done x ∷ recs) (inr h) = min_undo-Logs w recs h
min_undo-Logs w (undo_done x ∷ recs) (inr h) =
    let (m, n, le) = min_undo-Logs w recs h in
    elim (Bool-cases (ltb x m)) [
      | inl lt ↦ (x, ground arith, ground arith)
      | inr ge ↦ (m, ground arith, le)
    ]

max_apply-Logs :
    (w : ℕ) (recs : List Record)
    → Logs (apply_done w) recs
    → (m : ℕ) × (max_apply recs ≡ some m) × (w ≤ m)
unfolding max_apply
max_apply-Logs w [] h = absurd h
max_apply-Logs w (apply_done x ∷ recs) (inl e) = elim (Option-cases (max_apply recs)) [
  | inl n ↦ (x, ground arith, ground arith)
  | inr (m, n) ↦ elim (Bool-cases (ltb m x)) [
    | inl lt ↦ (x, ground arith, ground arith)
    | inr ge ↦ (m, ground arith, ground arith)
  ]
]
max_apply-Logs w (undo_done x ∷ recs) (inl e) = absurd (ground arith)
max_apply-Logs w (undo_done x ∷ recs) (inr h) = max_apply-Logs w recs h
max_apply-Logs w (apply_done x ∷ recs) (inr h) =
    let (m, n, le) = max_apply-Logs w recs h in
    elim (Bool-cases (ltb m x)) [
      | inl lt ↦ (x, ground arith, ground arith)
      | inr ge ↦ (m, ground arith, le)
    ]

for_each_at :
    (f : Step → Result Reason (Unit {0})) (wave : List Step) (v : Step)
    → for_each wave f ≡ ok tt
    → contains wave v ≡ true
    → f v ≡ ok tt
for_each_at f [] v h c = cc
for_each_at f (x ∷ wave) v h c =
    let (u, here, rest) = >>=-eq-ok (f x) (λ _. for_each wave f) h in
    let ih = for_each_at f wave v rest in ground arith

module _ (applied : Option ℕ) (undo_from : ℕ) (pos : List Pos) where
  abbrev Agrees : ℕ → Step → Type 0
  Agrees w v =
      (undo_from ≤ w → step_state (pos_at pos v.token) v ≡ pre)
      × ((a : ℕ)
          → applied ≡ some a
          → w ≤ a
          → w + 1 < undo_from
          → step_state (pos_at pos v.token) v ≡ post)

  check_logged_step-Agrees :
      (w : ℕ) (v : Step) → check_logged_step applied undo_from pos w v ≡ ok tt → Agrees w v
  unfolding check_logged_step
  check_logged_step-Agrees w v h = (λ le. ground arith, λ a e le lt. ground arith)

  check_logged_waves-Agrees :
      (w : ℕ) (waves : List (List Step)) (k : ℕ) (wave : List Step) (v : Step)
      → check_logged_waves applied undo_from pos w waves ≡ ok tt
      → get_elem? waves k ≡ some wave
      → contains wave v ≡ true
      → Agrees (w + k) v
  unfolding check_logged_waves
  check_logged_waves-Agrees w [] k wave v h at c = cc
  check_logged_waves-Agrees w (x ∷ waves) zero wave v h at c =
      let (u, here, rest) =
        >>=-eq-ok (for_each x (check_logged_step applied undo_from pos w)) _ h in
      let same : x ≡ wave = ground arith in
      let n : w + 0 ≡ w = omega arith in
      rw n (
        check_logged_step-Agrees w v
          (for_each_at (check_logged_step applied undo_from pos w) x v here (rw same c)))
  check_logged_waves-Agrees w (x ∷ waves) (suc k) wave v h at c =
      let (u, here, rest) =
        >>=-eq-ok (for_each x (check_logged_step applied undo_from pos w)) _ h in
      let n : w + 1 + k ≡ w + suc k = omega arith in
      rw n at (check_logged_waves-Agrees (w + 1) waves k wave v rest at c)

Logs-min_undo : (m : ℕ) (recs : List Record) → min_undo recs ≡ some m → Logs (undo_done m) recs
unfolding min_undo
Logs-min_undo m [] h = absurd (ground arith)
Logs-min_undo m (apply_done x ∷ recs) h = inr (Logs-min_undo m recs h)
Logs-min_undo m (undo_done x ∷ recs) h = elim (Option-cases (min_undo recs)) [
  | inl n ↦ inl (ground arith)
  | inr (m', n) ↦ elim (Bool-cases (ltb x m')) [
    | inl lt ↦ inl (ground arith)
    | inr ge ↦ inr (Logs-min_undo m recs (ground arith))
  ]
]

module _ (plan : Plan) (recs : List Record) (pos : List Pos) where
  abbrev undo_from : ℕ
  undo_from = or_default (min_undo recs) (length plan.waves)

  passed :
      check_progress plan recs pos ≡ ok tt
      → ((is_some_and (max_apply recs) (λ w. leb (length plan.waves) w)
            || is_some_and (min_undo recs) (λ w. leb (length plan.waves) w))
          ≡ false)
        × (check_logged_waves (max_apply recs) undo_from pos 0 plan.waves ≡ ok tt)
  unfolding check_progress
  passed h = (ground arith, ground arith)

  -- A log that passes the check is a lower bound on what is done: where it says that a wave is
  -- undone, no step of that wave or a later one is made; and where it says that a wave is applied,
  -- the wave exists, and every step of that wave or an earlier one is made, except for the plan's last
  -- wave and the waves from the one before the first that is logged as undone.
  pub check_progress-Logs :
      (w k : ℕ) (wave : List Step) (v : Step)
      → check_progress plan recs pos ≡ ok tt
      → get_elem? plan.waves k ≡ some wave
      → contains wave v ≡ true
      → (Logs (undo_done w) recs → w ≤ k → step_state (pos_at pos v.token) v ≡ pre)
        × (Logs (apply_done w) recs
            → (w < length plan.waves)
              × (k ≤ w
                  → k + 1 < length plan.waves
                  → ((u : ℕ) → Logs (undo_done u) recs → k + 1 < u)
                  → step_state (pos_at pos v.token) v ≡ post))
  check_progress-Logs w k wave v h at c =
      let (named, logged) = passed h in
      let n : 0 + k ≡ k = omega arith in
      let agrees : Agrees (max_apply recs) undo_from pos k v = rw n at (
        check_logged_waves-Agrees (max_apply recs) undo_from pos 0 plan.waves k wave v logged at
          c) in
      (
        λ l. let (m, e, le) = min_undo-Logs w recs l in λ from. agrees.0 (ground arith),
        λ l.
            let (a, e, le) = max_apply-Logs w recs l in
            (
              ground arith,
              λ before inner apart.
                  agrees.1 a e (omega arith) (elim (Option-cases (min_undo recs)) [
                    | inl none_undone ↦ ground arith
                    | inr (m, e') ↦ let far = apart m (Logs-min_undo m recs e') in ground arith
                  ]),
            ),
      )
