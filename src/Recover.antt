-- ===== src/Recover.antt =====
-- Recovery, the part that only observes: where each token is, and whether the observed state can
-- be one that an interrupted commit or rollback leaves (src/recover.rs).
pub mod Tests
pub mod Rollback
pub mod Decide
pub mod Undo
pub mod Restore
pub mod Classify
pub mod Safe
pub mod Waves
pub mod CheckShape
pub mod Logged
use fstx.Base.{
  ℕ, zero, suc, ◌+◌, ◌-◌, ◌*◌, ◌/◌, ◌%◌, ◌≤◌, ◌<◌, List, [], ◌∷◌, ◌++◌, map, Option, none, some,
  Bool, true, false, ◌&&◌, ◌||◌, not, ltb, leb, ◌==◌, nat_eq, list_eq, if◌then◌else◌, length, take,
  drop, is_empty, contains, any, all, ◌≡◌, refl, sym, ap, ◌∙◌, ◌≢◌, ◌↔◌, ◌⊎◌, inl, inr, arith,
  Bool-cases, Option-cases, ==_iff, ==_refl, Result, ok, err, ◌>>=◌, All, take-append, drop-append,
  take-append-drop, length-append, get_elem?, length-take_of_le, All-append, ok-injective,
  >>=-eq-ok, all_below, all_below_sound, set, fail_if, ok_or, for_each, ◌>>◌, map_ok, replicate, Eq,
  Ord, list_ord, nat_ord,
}
use fstx.Path.{RelPath}
use fstx.Error.{ErrorKind, Reason}
use fstx.Vfs.{
  Vfs, FileId, Kind, file, Meta, Probe, parent_mismatch, missing, present, IoResult, file_id_eq,
  kind_eq,
}
use fstx.Plan.{Loc, Token, Step, Plan}
use fstx.Progress.{Record, apply_done, undo_done}

pub data Pos : Type 0 where
  -- at `locs[i]`
  at : ℕ → Pos
  -- at both `locs[i]` and `locs[i + 1]`
  both : ℕ → Pos

pub data StepState : Type 0 where
  pre post inflight : StepState

StepState_dec : Discrete StepState
StepState_dec = hlevel

instance unfoldable pub step_state_eq : Eq StepState
unfolding StepState_dec
step_state_eq = record { dec = StepState_dec }

unfoldable pub step_state : Pos → Step → StepState
step_state (at i) s = if ltb s.from i then post else pre
step_state (both i) s = if i == s.from then inflight else if ltb s.from i then post else pre

-- `pos[t]`
abbrev pub pos_at : List Pos → ℕ → Pos
pos_at [] t = at 0
pos_at (p ∷ pos) zero = p
pos_at (p ∷ pos) (suc t) = pos_at pos t

-- What the scan of a token's locations has found: where it is, and an entry that nobody knows.
pub record Found : Type 0 where
  pub hits : List ℕ
  pub foreign : Option RelPath

unfoldable pub note_probe : List FileId → Token → ℕ → Loc → Probe → Found → Found
note_probe known tok i loc parent_mismatch found = found
note_probe known tok i loc missing found = found
note_probe known tok i loc (present m) found =
    if m.id == tok.id && m.kind == tok.kind
    then record found { hits = found.hits ++ (i ∷ []) }
    else if contains known m.id
    then found
    else record found { foreign = some loc.path }

unfoldable pub judge_hits : Token → Option RelPath → List ℕ → Result Reason Pos
judge_hits tok (some p) hits = err (Reason.unknown_entry p)
judge_hits tok none [] = err (Reason.token_not_found tok.id.dev tok.id.ino)
judge_hits tok none (i ∷ []) = ok (at i)
judge_hits tok none (i ∷ j ∷ []) =
    if j == i + 1 && tok.kind == file
    then ok (both i)
    else err (Reason.token_at_several tok.id.dev tok.id.ino (i ∷ j ∷ []))
judge_hits tok none hits = err (Reason.token_at_several tok.id.dev tok.id.ino hits)

unfoldable pub judge : Token → Found → Result Reason Pos
unfolding judge_hits
judge tok found = judge_hits tok found.foreign found.hits

module _ (vfs : Vfs) where
  unfoldable pub scan_locs : List FileId → Token → ℕ → List Loc → Found → vfs.State → IoResult Found
  scan_locs known tok i [] found s = ok found
  scan_locs known tok i (loc ∷ locs) found s = do
    p ← vfs.probe loc.path loc.parent s
    scan_locs known tok (i + 1) locs (note_probe known tok i loc p found) s

  unfoldable pub classify_tokens :
      List FileId → List Token → vfs.State → IoResult (List (Result Reason Pos))
  classify_tokens known [] s = ok []
  classify_tokens known (tok ∷ tokens) s = do
    found ← scan_locs known tok 0 tok.locs (record { hits = []; foreign = none }) s
    rest ← classify_tokens known tokens s
    ok (judge tok found ∷ rest)

  -- Locates every token. An inner error describes an anomaly.
  unfoldable pub classify : Plan → vfs.State → IoResult (List (Result Reason Pos))
  classify plan s = classify_tokens (map (λ (tok : Token). tok.id) plan.tokens) plan.tokens s

-- `first_not_post` and `last_not_pre`
pub record Shape : Type 0 where
  pub first_not_post : Option ℕ
  pub last_not_pre : Option ℕ

unfoldable pub note_state : ℕ → StepState → Shape → Shape
note_state w st shape = record {
  first_not_post = elim shape.first_not_post [
    | none ↦ if st == post then none else some w
    | some a ↦ some a
  ];
  last_not_pre = if st == pre then shape.last_not_pre else some w;
}

unfoldable pub shape_of_wave : List Pos → ℕ → List Step → Shape → Shape
shape_of_wave pos w [] shape = shape
shape_of_wave pos w (s ∷ wave) shape =
    shape_of_wave pos w wave (note_state w (step_state (pos_at pos s.token) s) shape)

unfoldable pub shape_of_waves : List Pos → ℕ → List (List Step) → Shape → Shape
shape_of_waves pos w [] shape = shape
shape_of_waves pos w (wave ∷ waves) shape =
    shape_of_waves pos (w + 1) waves (shape_of_wave pos w wave shape)

unfoldable pub judge_shape : Option ℕ → Option ℕ → Result Reason (Unit {0})
judge_shape (some a) (some b) = fail_if (ltb a b) (Reason.waves_partially_applied a b)
judge_shape _ _ = ok tt

unfoldable pub check_shape : Plan → List Pos → Result Reason (Unit {0})
check_shape plan pos =
    let shape =
      shape_of_waves pos 0 plan.waves (record { first_not_post = none; last_not_pre = none }) in
    judge_shape shape.first_not_post shape.last_not_pre

-- `Iterator::max` and `Iterator::min` over the records of one kind.
unfoldable pub max_apply : List Record → Option ℕ
max_apply [] = none
max_apply (apply_done w ∷ recs) = elim (max_apply recs) [
  | none ↦ some w
  | some m ↦ some (if ltb m w then w else m)
]
max_apply (undo_done w ∷ recs) = max_apply recs

unfoldable pub min_undo : List Record → Option ℕ
min_undo [] = none
min_undo (apply_done w ∷ recs) = min_undo recs
min_undo (undo_done w ∷ recs) = elim (min_undo recs) [
  | none ↦ some w
  | some m ↦ some (if ltb w m then w else m)
]

-- `o.is_some_and(p)`
abbrev pub is_some_and : Option ℕ → (ℕ → Bool) → Bool
is_some_and none p = false
is_some_and (some a) p = p a

abbrev pub or_default : Option ℕ → ℕ → ℕ
or_default none d = d
or_default (some a) d = a

unfoldable pub check_logged_step : Option ℕ → ℕ → List Pos → ℕ → Step → Result Reason (Unit {0})
check_logged_step applied undo_from pos w s = do
  let st = step_state (pos_at pos s.token) s
  fail_if (leb undo_from w && not (st == pre)) (Reason.logged_undone w)
  fail_if (is_some_and applied (λ a. leb w a) && ltb (w + 1) undo_from && not (st == post))
      (Reason.logged_applied w)

unfoldable pub check_logged_waves :
    Option ℕ → ℕ → List Pos → ℕ → List (List Step) → Result Reason (Unit {0})
check_logged_waves applied undo_from pos w [] = ok tt
check_logged_waves applied undo_from pos w (wave ∷ waves) = do
  for_each wave (check_logged_step applied undo_from pos w)
  check_logged_waves applied undo_from pos (w + 1) waves

-- The progress log is a lower bound: what it says is done must be observed as done.
unfoldable pub check_progress : Plan → List Record → List Pos → Result Reason (Unit {0})
check_progress plan recs pos = do
  let n = length plan.waves
  let applied = max_apply recs
  let undone = min_undo recs
  fail_if (is_some_and applied (λ w. leb n w) || is_some_and undone (λ w. leb n w))
      Reason.progress_names_missing_wave
  check_logged_waves applied (or_default undone n) pos 0 plan.waves
