-- ===== src/Inspect/Agrees.antt =====
-- When the report says that recovery will roll back (src/inspect.rs, src/recover.rs).
use fstx.Base.{
  List, [], ◌∷◌, nat_eq, list_eq, ◌≡◌, refl, sym, ap, ◌∙◌, ◌↔◌, arith, Result, ok, err,
  ok-injective, map_ok, list_ord, nat_ord,
}
use fstx.Path.{Name}
use fstx.Error.{Error, Reason}
use fstx.Vfs.{Vfs, IoResult}
use fstx.State.{TxDir}
use fstx.Journal.{Journal, Codec}
use fstx.Recover.{Pos, classify}
use fstx.Recover.Decide.{roll_back}
use fstx.Recover.Rollback.{all_located}
use fstx.Inspect.{undo_it, TxInspection, first_anomaly, action_of, inspect_decision, inspect_tokens}

located_of_quiet :
    (tx : TxDir) (classes : List (Result Reason Pos))
    → action_of (first_anomaly classes) ≡ undo_it
    → (pos : List Pos) × (all_located tx classes ≡ ok pos)
unfolding first_anomaly all_located
located_of_quiet tx [] h = ([], refl)
located_of_quiet tx (err e ∷ classes) h = cc
located_of_quiet tx (ok p ∷ classes) h =
    let (pos, e) = located_of_quiet tx classes h in (p ∷ pos, rw e refl)

quiet_of_located :
    (tx : TxDir) (classes : List (Result Reason Pos)) (pos : List Pos)
    → all_located tx classes ≡ ok pos
    → action_of (first_anomaly classes) ≡ undo_it
unfolding first_anomaly all_located
quiet_of_located tx [] pos h = refl
quiet_of_located tx (err e ∷ classes) pos h = absurd (ground arith)
quiet_of_located tx (ok p ∷ classes) pos h =
    let (rest, e, _) = map_ok_inv (all_located tx classes) h in quiet_of_located tx classes rest e
  where
    map_ok_inv :
        (r : Result Error (List Pos))
        → map_ok (λ pos. p ∷ pos) r ≡ ok pos
        → (rest : List Pos) × (r ≡ ok rest) × (p ∷ rest ≡ pos)
    map_ok_inv (ok rest) h = (rest, refl, ok-injective h)
    map_ok_inv (err e) h = absurd (ground arith)

abbrev pub report : Name → Journal → List (Result Reason Pos) → TxInspection
report name j classes = record {
  name = name;
  action = action_of (first_anomaly classes);
  reason = first_anomaly classes;
  tokens = inspect_tokens j.plan.tokens classes;
}

module _ (vfs : Vfs) (codec : Codec) (s : vfs.State) where
  -- For a journal that is to be rolled back, the report says so, and not that recovery is required,
  -- exactly where the classification that opens the rollback finds every token; the shape and the
  -- progress log have no part in the report.
  pub inspect_decision-all_located :
      (tx : TxDir) (j : Journal) (t : TxInspection)
      → inspect_decision vfs codec s tx.name (roll_back j) ≡ ok t
      → (t.action ≡ undo_it) ↔ (
          (classes : List (Result Reason Pos)) × (pos : List Pos) × (classify vfs j.plan s
            ≡ ok classes)
          × (all_located tx classes ≡ ok pos))
  inspect_decision-all_located tx j t h =
      go (classify vfs j.plan s) refl (unfold inspect_decision in h)
    where
      go :
          (r : IoResult (List (Result Reason Pos)))
          → classify vfs j.plan s ≡ r
          → map_ok (λ classes. report tx.name j classes) r ≡ ok t
          → (t.action ≡ undo_it) ↔ (
              (classes : List (Result Reason Pos)) × (pos : List Pos) × (classify vfs j.plan s
                ≡ ok classes)
              × (all_located tx classes ≡ ok pos))
      go (err e) seen h = absurd (ground arith)
      go (ok classes) seen h =
          let same : action_of (first_anomaly classes) ≡ t.action =
            ap (λ (t : TxInspection). t.action) (ok-injective h) in
          (
            λ quiet.
                let (pos, e) = located_of_quiet tx classes (same ∙ quiet) in
                (classes, pos, seen, e),
            λ (classes', pos, seen', e).
                let is : classes' ≡ classes = ok-injective (sym seen' ∙ seen) in
                sym same ∙ quiet_of_located tx classes pos (ap (all_located tx) (sym is) ∙ e),
          )
