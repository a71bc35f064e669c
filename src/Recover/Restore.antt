-- ===== src/Recover/Restore.antt =====
-- Undoing all the waves of a validated plan takes every token to its first location
-- (src/recover.rs).
use fstx.Base.{
  ℕ, zero, suc, ◌+◌, ◌%◌, ◌≤◌, ◌<◌, List, [], ◌∷◌, some, true, nat_eq, list_eq, length, contains,
  ◌≡◌, inl, inr, arith, Bool-cases, ok, All, get_elem?, list_ord, nat_ord,
}
use fstx.Base.Action.{◌>>=◌, ◌>>◌, pure}
use fstx.Vfs.{Vfs}
use fstx.Plan.{Token, Step, Plan, step_eq}
use fstx.Plan.Validate.{validate}
use fstx.Plan.Validate.Steps.{IsInRange, wave_of, IsDisjoint}
use fstx.Plan.Validate.Order.{IsOrdered, next_step, validate-IsOrdered}
use fstx.Progress.{undo_done}
use fstx.State.{TxDir}
use fstx.Recover.{Pos, at, pos_at, step_state}
use fstx.Recover.Rollback.{Act, io, undo_steps, undo_waves, barrier, append_progress}
use fstx.Recover.Undo.{
  IsPre, IsLocated, Recedes, Outcome, Outcome-map, Outcome-io, Outcome-bind, Undone,
  undo_steps-Outcome,
}

wave_of_lower :
    (w : ℕ) (waves : List (List Step)) (u : Step) (k : ℕ) → wave_of w waves u ≡ some k → w ≤ k
wave_of_lower w [] u k h = cc
wave_of_lower w (wave ∷ waves) u k h = ground (arith, wave_of_lower (w + 1) waves u k)

module _ (plan : Plan) where
  -- A step that has a next one is in an earlier wave than that.
  abbrev IsOrderedFrom : ℕ → List (List Step) → Type 0
  IsOrderedFrom w waves =
      (s : Step) (k : ℕ)
      → wave_of w waves s ≡ some k
      → IsInRange plan (next_step s)
      → (k' : ℕ) × (wave_of w waves (next_step s) ≡ some k') × (k < k')

  IsOrderedFrom-start : IsOrdered plan → IsOrderedFrom 0 plan.waves
  IsOrderedFrom-start o s k h r =
      let (k', e) = o.scheduled (next_step s) r in (k', e, o.increasing s k k' r h e)

  IsOrderedFrom-tail :
      (w : ℕ) (wave : List Step) (waves : List (List Step))
      → IsDisjoint w (wave ∷ waves)
      → IsOrderedFrom w (wave ∷ waves)
      → IsOrderedFrom (w + 1) waves
  IsOrderedFrom-tail w wave waves d o s k h r =
      let apart = d.0 s in
      let lo = wave_of_lower (w + 1) waves s k h in
      let here : wave_of w (wave ∷ waves) s ≡ some k = ground arith in
      let (k', e, lt) = o s k here r in (k', ground arith, lt)

  nexts_of_wave :
      (w : ℕ) (wave : List Step) (waves : List (List Step)) (s : Step)
      → IsOrderedFrom w (wave ∷ waves)
      → contains wave s ≡ true
      → IsInRange plan (next_step s)
      → (k : ℕ) × (wave_of (w + 1) waves (next_step s) ≡ some k)
  nexts_of_wave w wave waves s o m r =
      let (k', e, lt) = o s w (ground arith) r in (k', ground arith)

  module _ (vfs : Vfs) (hash : List ℕ → List ℕ) (tx : TxDir) where
    abbrev AllPre : ℕ → List (List Step) → List Pos → List Pos → Type 0
    AllPre w waves pos pos' =
        IsLocated plan pos'
        × Recedes pos pos'
        × ((u : Step) (k : ℕ) → wave_of w waves u ≡ some k → IsPre pos' u)

    AllPre-cons :
        (w : ℕ) (wave : List Step) (waves : List (List Step)) (pos later done : List Pos)
        → AllPre (w + 1) waves pos later
        → Undone vfs tx plan wave later done
        → AllPre w (wave ∷ waves) pos done
    AllPre-cons w wave waves pos later done p q = (
      q.0,
      λ u pu. q.1 u (p.1 u pu),
      λ u k e. elim (Bool-cases (contains wave u)) [
        | inl m ↦ q.2 u m
        | inr m ↦ q.1 u (p.2 u k (rw m at e))
      ],
    )

    -- What follows the calls of one wave, in the code's order.
    abbrev log_wave : ℕ → List Pos → Act vfs (List Pos)
    log_wave w done = io vfs (append_progress vfs hash tx (undo_done (w % 4294967296))) >> pure done

    abbrev seal_wave : ℕ → List Step → List Pos → Act vfs (List Pos)
    seal_wave w wave done = io vfs (barrier vfs plan wave) >> log_wave w done

    abbrev undo_wave : ℕ → List Step → List Pos → Act vfs (List Pos)
    undo_wave w wave later = undo_steps vfs tx plan w wave later >>= seal_wave w wave

    undo_waves-AllPre :
        (w : ℕ) (waves : List (List Step)) (pos : List Pos) (s : vfs.State)
        → All (All (IsInRange plan)) waves
        → IsDisjoint w waves
        → IsOrderedFrom w waves
        → IsLocated plan pos
        → Outcome vfs (AllPre w waves pos) (undo_waves vfs hash tx plan w waves pos s)
    unfolding undo_waves
    undo_waves-AllPre w [] pos s r d o h = (h, λ u p. p, λ u k e. cc)
    undo_waves-AllPre w (wave ∷ waves) pos s r d o h =
        Outcome-bind vfs (AllPre w (wave ∷ waves) pos) (AllPre (w + 1) waves pos)
          (undo_waves vfs hash tx plan (w + 1) waves pos) (undo_wave w wave) s
          (undo_waves-AllPre (w + 1) waves pos s r.1 d.1 (IsOrderedFrom-tail w wave waves d o) h)
          (λ later s1 p.
            Outcome-bind vfs (AllPre w (wave ∷ waves) pos) (Undone vfs tx plan wave later)
              (undo_steps vfs tx plan w wave later) (seal_wave w wave) s1
              (undo_steps-Outcome vfs tx plan w wave later s1 r.0 p.0 (λ v m nr.
                let (k, e) = nexts_of_wave w wave waves v o m nr in p.2 (next_step v) k e))
              (λ done s2 q.
                Outcome-io vfs (AllPre w (wave ∷ waves) pos) (barrier vfs plan wave)
                  (λ _. log_wave w done) s2
                  (λ _ s3.
                    Outcome-io vfs (AllPre w (wave ∷ waves) pos)
                      (append_progress vfs hash tx (undo_done (w % 4294967296))) (λ _. pure done) s3
                      (λ _ s4. AllPre-cons w wave waves pos later done p q))))

  first_location :
      (pos : List Pos) (t : ℕ) → IsPre pos (record { token = t; from = 0 }) → pos_at pos t ≡ at 0
  unfolding step_state
  first_location pos t h = ground arith

  -- Every token is back at its first location.
  abbrev pub IsRestored : List Pos → Type 0
  IsRestored pos = (t : ℕ) (tok : Token) → get_elem? plan.tokens t ≡ some tok → pos_at pos t ≡ at 0

  All_get_elem? :
      (P : Token → Type 0) (tokens : List Token) (t : ℕ) (tok : Token)
      → All P tokens
      → get_elem? tokens t ≡ some tok
      → P tok
  All_get_elem? P [] t tok a e = cc
  All_get_elem? P (x ∷ tokens) zero tok a e = let same : x ≡ tok = ground arith in rw (← same) a.0
  All_get_elem? P (x ∷ tokens) (suc t) tok a e = All_get_elem? P tokens t tok a.1 e

  pub undo_waves-IsRestored :
      (vfs : Vfs) (hash : List ℕ → List ℕ) (tx : TxDir) (pos : List Pos) (s : vfs.State)
      → validate plan ≡ ok tt
      → All (λ (tok : Token). 2 ≤ length tok.locs) plan.tokens
      → IsLocated plan pos
      → Outcome vfs IsRestored (undo_waves vfs hash tx plan 0 plan.waves pos s)
  undo_waves-IsRestored vfs hash tx pos s v two h =
      let o = validate-IsOrdered plan v in
      Outcome-map vfs (AllPre vfs hash tx 0 plan.waves pos) IsRestored _
        (λ pos' p t tok e.
          let step : Step = record { token = t; from = 0 } in
          let long : 2 ≤ length tok.locs =
            All_get_elem? (λ (tok : Token). 2 ≤ length tok.locs) plan.tokens t tok two e in
          let (w, sched) = o.scheduled step (tok, e, omega arith) in
          first_location pos' t (p.2 step w sched))
        (undo_waves-AllPre vfs hash tx 0 plan.waves pos s o.in_range o.disjoint
          (IsOrderedFrom-start o) h)
