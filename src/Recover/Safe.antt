-- ===== src/Recover/Safe.antt =====
-- Rollback as a whole: it refuses before its first call that changes anything, or not at all
-- (src/recover.rs).
use fstx.Base.{
  ℕ, zero, suc, ◌+◌, List, [], ◌∷◌, map, some, nat_eq, list_eq, length, ◌≡◌, refl, ap, arith,
  Result, ok, err, All, get_elem?, ok-injective, list_ord, nat_ord,
}
use fstx.Base.Action.{
  ◌>>=◌, ◌>>◌, pure, reads, lift, reads-bind_inv, lift-bind_inv, reads_keeps, lift_keeps,
}
use fstx.Error.{Error, ErrorKind, Reason}
use fstx.Vfs.{Vfs, FileId, stabilized, undone}
use fstx.Plan.{Token, Plan}
use fstx.Progress.{Record}
use fstx.State.{TxDir, set_marker, gc, rolling_back, rolled_back}
use fstx.Journal.{Journal}
use fstx.Journal.Confined.{IsChecked, IsSafeToken}
use fstx.Recover.{Pos, at, both, pos_at, classify, check_shape, check_progress}
use fstx.Recover.Rollback.{
  Io, Act, io, all_located, map_reason, preflight, read_progress, stabilize, undo_waves, rollback,
}
use fstx.Recover.Undo.{InBounds, IsLocated, Outcome, Outcome-io, Outcome-bind}
use fstx.Recover.Restore.{undo_waves-IsRestored, IsRestored}
use fstx.Recover.Classify.{AllSit, Sits, classify_tokens-AllSit}
use fstx.Plan.Validate.Steps.{lt_of_get_elem?}

All-weaken :
    {A : Type 0} {P Q : A → Type 0} → ((a : A) → P a → Q a) → (xs : List A) → All P xs → All Q xs
All-weaken f [] h = tt
All-weaken f (x ∷ xs) h = (f x h.0, All-weaken f xs h.1)

module _ (vfs : Vfs) (s : vfs.State) where
  Sits-InBounds : (tok : Token) (p : Pos) → Sits vfs s tok p → InBounds p (length tok.locs)
  Sits-InBounds tok (at i) h = lt_of_get_elem? tok.locs i h.0.1
  Sits-InBounds tok (both i) h = lt_of_get_elem? tok.locs (i + 1) h.1.1

  length-AllSit :
      (tokens : List Token) (pos : List Pos) → AllSit vfs s tokens pos → length pos ≡ length tokens
  length-AllSit [] [] h = refl
  length-AllSit [] (p ∷ pos) h = absurd h
  length-AllSit (tok ∷ tokens) [] h = absurd h
  length-AllSit (tok ∷ tokens) (p ∷ pos) h = ap suc (length-AllSit tokens pos h.1)

  AllSit-InBounds :
      (tokens : List Token) (pos : List Pos) (t : ℕ) (tok : Token)
      → AllSit vfs s tokens pos
      → get_elem? tokens t ≡ some tok
      → InBounds (pos_at pos t) (length tok.locs)
  AllSit-InBounds [] pos t tok h e = cc
  AllSit-InBounds (x ∷ tokens) [] t tok h e = absurd h
  AllSit-InBounds (x ∷ tokens) (p ∷ pos) zero tok h e =
      let same : x ≡ tok = ground arith in rw (← same) (Sits-InBounds x p h.0)
  AllSit-InBounds (x ∷ tokens) (p ∷ pos) (suc t) tok h e = AllSit-InBounds tokens pos t tok h.1 e

  pub AllSit-IsLocated :
      (plan : Plan) (pos : List Pos) → AllSit vfs s plan.tokens pos → IsLocated plan pos
  AllSit-IsLocated plan pos h =
      (length-AllSit plan.tokens pos h, λ t tok. AllSit-InBounds plan.tokens pos t tok h)

  module _ (hash : List ℕ → List ℕ) (tx : TxDir) (j : Journal) where
    -- What a preflight that passes has seen.
    pub record IsSeen (pos : List Pos) : Type 0 where
      pub located : AllSit vfs s j.plan.tokens pos
      pub shape : check_shape j.plan pos ≡ ok tt
      pub recs : List Record
      pub logged : read_progress vfs hash tx s ≡ ok recs
      pub progress : check_progress j.plan recs pos ≡ ok tt

    map_reason-eq-ok :
        {A : Type 0} (r : Result Reason A) {a : A} → map_reason tx r ≡ ok a → r ≡ ok a
    map_reason-eq-ok (ok a) h = ap ok (ok-injective h)
    map_reason-eq-ok (err e) h = absurd (ground arith)

    -- What follows each check of the preflight.
    abbrev after_records : List Pos → List Record → Act vfs (List Pos)
    after_records pos recs = lift (map_reason tx (check_progress j.plan recs pos)) >> pure pos

    abbrev after_shape : List Pos → Act vfs (List Pos)
    after_shape pos = io vfs (reads (read_progress vfs hash tx)) >>= after_records pos

    abbrev after_locate : List Pos → Act vfs (List Pos)
    after_locate pos = lift (map_reason tx (check_shape j.plan pos)) >> after_shape pos

    abbrev after_classify : List (Result Reason Pos) → Act vfs (List Pos)
    after_classify found = lift (all_located tx found) >>= after_locate

    preflight-IsSeen :
        (pos : List Pos) {s' : vfs.State} → preflight vfs hash tx j s ≡ (ok pos, s') → IsSeen pos
    unfolding preflight classify
    preflight-IsSeen pos h =
        let (found, e1, h1) = reads-bind_inv Error.io (classify vfs j.plan) after_classify s h in
        let (pos', e2, h2) = lift-bind_inv (all_located tx found) after_locate s h1 in
        let (_, e3, h3) =
          lift-bind_inv (map_reason tx (check_shape j.plan pos')) (λ _. after_shape pos') s h2 in
        let (recs, e4, h4) =
          reads-bind_inv Error.io (read_progress vfs hash tx) (after_records pos') s h3 in
        let (_, e5, h5) =
          lift-bind_inv (map_reason tx (check_progress j.plan recs pos')) (λ _. pure pos') s h4 in
        let same : pos' ≡ pos = ok-injective (ap (λ r. r.0) h5) in
        rw (← same) (record {
          located =
              classify_tokens-AllSit vfs s (map (λ (tok : Token). tok.id) j.plan.tokens) tx
                j.plan.tokens found pos' e1 e2;
          shape = map_reason-eq-ok (check_shape j.plan pos') e3;
          recs = recs;
          logged = e4;
          progress = map_reason-eq-ok (check_progress j.plan recs pos') e5;
        })

    preflight_keeps : (preflight vfs hash tx j s).1 ≡ s
    unfolding preflight
    preflight_keeps = reads_keeps Error.io (classify vfs j.plan) after_classify s (λ found.
        lift_keeps (all_located tx found) after_locate s (λ pos.
          lift_keeps (map_reason tx (check_shape j.plan pos)) (λ _. after_shape pos) s
            (λ _. reads_keeps Error.io (read_progress vfs hash tx) (after_records pos) s (λ recs.
              lift_keeps (map_reason tx (check_progress j.plan recs pos)) (λ _. pure pos) s
                (λ _. refl)))))

    -- Done, or an I/O error, or nothing was touched.
    abbrev Refuses : {A : Type 0} → Result Error A × vfs.State → Type 0
    Refuses (ok a, s') = Unit
    Refuses (err (Error.io e), s') = Unit
    Refuses (err _, s') = s' ≡ s

    Refuses-Outcome :
        {A : Type 0} (r : Result Error A × vfs.State) → Outcome vfs (λ _. Unit) r → Refuses r
    Refuses-Outcome (ok a, s') h = tt
    Refuses-Outcome (err (Error.io e), s') h = tt
    Refuses-Outcome (err _, s') h = absurd h

    -- What rollback does once the preflight has passed.
    module _ (fuel : ℕ) where
      abbrev finish : Act vfs (Unit {0})
      finish = io vfs (set_marker vfs tx rolled_back) >> io vfs (gc vfs fuel tx)

      abbrev after_undo : Act vfs (Unit {0})
      after_undo = (λ s'. (ok tt, vfs.event undone s')) >> finish

      abbrev undo_all : List Pos → Act vfs (Unit {0})
      undo_all pos = undo_waves vfs hash tx j.plan 0 j.plan.waves pos >> after_undo

      abbrev after_stabilize : List Pos → Act vfs (Unit {0})
      after_stabilize pos =
          (λ s'. (ok tt, vfs.event stabilized s'))
          >> (io vfs (set_marker vfs tx rolling_back) >> undo_all pos)

      abbrev after_preflight : List Pos → Act vfs (Unit {0})
      after_preflight pos = io vfs (stabilize vfs tx j.plan) >> after_stabilize pos

      io-Outcome_of :
          {A : Type 0} (r : Result ErrorKind A × vfs.State) (s' : vfs.State)
          → Outcome vfs (λ (_ : A). Unit) (io vfs (λ _. r) s')
      io-Outcome_of (ok a, s1) s' = tt
      io-Outcome_of (err e, s1) s' = tt

      io-Outcome :
          {A : Type 0} (m : Io vfs A) (s' : vfs.State) → Outcome vfs (λ (_ : A). Unit) (io vfs m s')
      io-Outcome m s' = io-Outcome_of (m s') s'

      finish-Outcome : (s' : vfs.State) → Outcome vfs (λ _. Unit) (finish s')
      finish-Outcome s' =
          Outcome-io vfs (λ _. Unit) (set_marker vfs tx rolled_back) (λ _. io vfs (gc vfs fuel tx))
            s' (λ _ s1. io-Outcome (gc vfs fuel tx) s1)

      module _ (root : FileId) (c : IsChecked tx.name root j) where
        rest-Outcome :
            (pos : List Pos) (s' : vfs.State)
            → IsSeen pos
            → Outcome vfs (λ _. Unit) (after_preflight pos s')
        rest-Outcome pos s' seen =
            Outcome-io vfs (λ _. Unit) (stabilize vfs tx j.plan) (λ _. after_stabilize pos) s'
              (λ _ s1.
                Outcome-io vfs (λ _. Unit) (set_marker vfs tx rolling_back) (λ _. undo_all pos)
                  (vfs.event stabilized s1)
                  (λ _ s2.
                    Outcome-bind vfs (λ _. Unit) (IsRestored j.plan)
                      (undo_waves vfs hash tx j.plan 0 j.plan.waves pos) (λ _. after_undo) s2
                      (undo_waves-IsRestored j.plan vfs hash tx pos s2 c.valid
                        (All-weaken (λ tok (h : IsSafeToken tx.name tok). h.0) j.plan.tokens
                          c.tokens)
                        (AllSit-IsLocated j.plan pos seen.located))
                      (λ pos' s3 _. finish-Outcome (vfs.event undone s3))))

        Refuses-bind :
            (r : Result Error (List Pos) × vfs.State)
            → r.1 ≡ s
            → ((pos : List Pos) (s' : vfs.State)
                → r ≡ (ok pos, s')
                → Outcome vfs (λ _. Unit) (after_preflight pos s'))
            → Refuses (((λ _. r) >>= after_preflight) s)
        Refuses-bind (ok pos, s') e f = Refuses-Outcome (after_preflight pos s') (f pos s' refl)
        Refuses-bind (err (Error.io x), s') e f = tt
        Refuses-bind (err (Error.recovery_required t r), s') e f = e
        Refuses-bind (err _, s') e f = e

        rollback-Refuses : Refuses (rollback vfs hash fuel tx j s)
        unfolding rollback
        rollback-Refuses =
            Refuses-bind (preflight vfs hash tx j s) preflight_keeps
              (λ pos s' e. rest-Outcome pos s' (preflight-IsSeen pos e))

    -- For a journal that passes its checks, a rollback that returns `RecoveryRequired` changed nothing:
    -- the state it returns is the state it was given.
    pub rollback-required :
        (fuel : ℕ) (root : FileId) (name : List ℕ) (reason : Reason) (s' : vfs.State)
        → IsChecked tx.name root j
        → rollback vfs hash fuel tx j s ≡ (err (Error.recovery_required name reason), s')
        → s' ≡ s
    rollback-required fuel root name reason s' c h = rw h at (rollback-Refuses fuel root c)
