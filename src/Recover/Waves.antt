-- ===== src/Recover/Waves.antt =====
-- What the shape check admits: at most one wave is underway (src/recover.rs).
use fstx.Base.{
  ℕ, zero, suc, ◌+◌, ◌≤◌, List, [], ◌∷◌, Option, none, some, Bool, true, not, ◌==◌, nat_eq, list_eq,
  if◌then◌else◌, any, ◌≡◌, refl, ◌⊎◌, inl, inr, arith, Bool-cases, Option-cases, get_elem?,
  list_ord, nat_ord,
}
use fstx.Plan.{Step}
use fstx.Recover.{
  Pos, pos_at, StepState, pre, post, step_state, step_state_eq, Shape, note_state, shape_of_wave,
  shape_of_waves,
}

module _ (pos : List Pos) where
  abbrev state_of : Step → StepState
  state_of v = step_state (pos_at pos v.token) v

  -- The wave has a step that is not made yet, or one that is not undone.
  abbrev pub some_not_post : List Step → Bool
  some_not_post wave = any (λ v. not (state_of v == post)) wave

  abbrev pub some_not_pre : List Step → Bool
  some_not_pre wave = any (λ v. not (state_of v == pre)) wave

  abbrev first_of : Bool → ℕ → Option ℕ → Option ℕ
  first_of b w (some a) = some a
  first_of b w none = if b then some w else none

  first_wave :
      (w : ℕ) (wave : List Step) (shape : Shape)
      → (shape_of_wave pos w wave shape).first_not_post
        ≡ first_of (some_not_post wave) w shape.first_not_post
  unfolding shape_of_wave note_state
  first_wave w [] shape = elim (Option-cases shape.first_not_post) [
    | inl e ↦ ground arith
    | inr (a, e) ↦ ground arith
  ]
  first_wave w (v ∷ wave) shape =
      let ih = first_wave w wave (note_state w (state_of v) shape) in ground arith

  last_wave :
      (w : ℕ) (wave : List Step) (shape : Shape)
      → (shape_of_wave pos w wave shape).last_not_pre
        ≡ (if some_not_pre wave then some w else shape.last_not_pre)
  unfolding shape_of_wave note_state
  last_wave w [] shape = refl
  last_wave w (v ∷ wave) shape =
      let ih = last_wave w wave (note_state w (state_of v) shape) in ground arith

  first_kept :
      (w : ℕ) (waves : List (List Step)) (shape : Shape) (a : ℕ)
      → shape.first_not_post ≡ some a
      → (shape_of_waves pos w waves shape).first_not_post ≡ some a
  unfolding shape_of_waves
  first_kept w [] shape a h = h
  first_kept w (wave ∷ waves) shape a h =
      let here = first_wave w wave shape in
      first_kept (w + 1) waves (shape_of_wave pos w wave shape) a (ground arith)

  last_kept :
      (w : ℕ) (waves : List (List Step)) (shape : Shape) (b : ℕ)
      → shape.last_not_pre ≡ some b
      → b ≤ w
      → (b' : ℕ) × ((shape_of_waves pos w waves shape).last_not_pre ≡ some b') × (b ≤ b')
  unfolding shape_of_waves
  last_kept w [] shape b h le = (b, h, omega arith)
  last_kept w (wave ∷ waves) shape b h le =
      let here = last_wave w wave shape in
      elim (Bool-cases (some_not_pre wave)) [
        | inl yet ↦
            let (b', e, le') =
              last_kept (w + 1) waves (shape_of_wave pos w wave shape) w (ground arith)
                (omega arith) in
            (b', e, omega arith)
        | inr done ↦
            last_kept (w + 1) waves (shape_of_wave pos w wave shape) b (ground arith) (omega arith)
      ]

  pub firsts :
      (w : ℕ) (waves : List (List Step)) (shape : Shape) (k : ℕ) (wave : List Step)
      → get_elem? waves k ≡ some wave
      → some_not_post wave ≡ true
      → ((a : ℕ) → shape.first_not_post ≡ some a → a ≤ w)
      → (a : ℕ) × ((shape_of_waves pos w waves shape).first_not_post ≡ some a) × (a ≤ w + k)
  unfolding shape_of_waves
  firsts w [] shape k wave at yet le = cc
  firsts w (x ∷ waves) shape zero wave at yet le =
      let here = first_wave w x shape in
      let same : x ≡ wave = ground arith in
      let yet' : some_not_post x ≡ true = rw same yet in
      elim (Option-cases shape.first_not_post) [
        | inl e ↦ (
          w,
          first_kept (w + 1) waves (shape_of_wave pos w x shape) w (ground arith),
          omega arith,
        )
        | inr (a, e) ↦
            let small = le a e in
            (
              a,
              first_kept (w + 1) waves (shape_of_wave pos w x shape) a (ground arith),
              omega arith,
            )
      ]
  firsts w (x ∷ waves) shape (suc k) wave at yet le =
      let here = first_wave w x shape in
      let (a, e, n) = firsts (w + 1) waves (shape_of_wave pos w x shape) k wave at yet (λ a e.
        elim (Option-cases shape.first_not_post) [
          | inl e' ↦ ground arith
          | inr (a', e') ↦ let small = le a' e' in ground arith
        ]) in
      (a, e, omega arith)

  pub firsts_inv :
      (w : ℕ) (waves : List (List Step)) (shape : Shape) (a : ℕ)
      → (shape_of_waves pos w waves shape).first_not_post ≡ some a
      → (shape.first_not_post ≡ some a)
        ⊎ ((k : ℕ) × (wave : List Step) × (a ≡ w + k)
            × (get_elem? waves k ≡ some wave)
            × (some_not_post wave ≡ true))
  unfolding shape_of_waves
  firsts_inv w [] shape a h = inl h
  firsts_inv w (x ∷ waves) shape a h =
      let here = first_wave w x shape in
      elim (firsts_inv (w + 1) waves (shape_of_wave pos w x shape) a h) [
        | inr (k, wave, n, at, yet) ↦ inr (suc k, wave, omega arith, at, yet)
        | inl e ↦ elim (Option-cases shape.first_not_post) [
          | inr (a', e') ↦ inl (ground arith)
          | inl e' ↦ inr (0, x, ground arith, refl, ground arith)
        ]
      ]

  pub lasts :
      (w : ℕ) (waves : List (List Step)) (shape : Shape) (k : ℕ) (wave : List Step)
      → get_elem? waves k ≡ some wave
      → some_not_pre wave ≡ true
      → (b : ℕ) × ((shape_of_waves pos w waves shape).last_not_pre ≡ some b) × (w + k ≤ b)
  unfolding shape_of_waves
  lasts w [] shape k wave at yet = cc
  lasts w (x ∷ waves) shape zero wave at yet =
      let here = last_wave w x shape in
      let same : x ≡ wave = ground arith in
      let yet' : some_not_pre x ≡ true = rw same yet in
      let (b, e, n) =
        last_kept (w + 1) waves (shape_of_wave pos w x shape) w (ground arith) (omega arith) in
      (b, e, omega arith)
  lasts w (x ∷ waves) shape (suc k) wave at yet =
      let (b, e, n) = lasts (w + 1) waves (shape_of_wave pos w x shape) k wave at yet in
      (b, e, omega arith)

  pub lasts_inv :
      (w : ℕ) (waves : List (List Step)) (shape : Shape) (b : ℕ)
      → (shape_of_waves pos w waves shape).last_not_pre ≡ some b
      → (shape.last_not_pre ≡ some b)
        ⊎ ((k : ℕ) × (wave : List Step) × (b ≡ w + k)
            × (get_elem? waves k ≡ some wave)
            × (some_not_pre wave ≡ true))
  unfolding shape_of_waves
  lasts_inv w [] shape b h = inl h
  lasts_inv w (x ∷ waves) shape b h =
      let here = last_wave w x shape in
      elim (lasts_inv (w + 1) waves (shape_of_wave pos w x shape) b h) [
        | inr (k, wave, n, at, yet) ↦ inr (suc k, wave, omega arith, at, yet)
        | inl e ↦ elim (Bool-cases (some_not_pre x)) [
          | inr done ↦ inl (ground arith)
          | inl yet ↦ inr (0, x, ground arith, refl, yet)
        ]
      ]
