-- ===== src/Plan/Validate.antt =====
-- `plan::validate`, the structural checks that run on every journal (src/plan.rs).
pub mod Steps
pub mod Order
use fstx.Base.{
  replicate, ℕ, zero, suc, ◌+◌, ◌-◌, ◌*◌, ◌/◌, ◌%◌, ◌≤◌, ◌<◌, List, [], ◌∷◌, ◌++◌, map, Option,
  none, some, Bool, true, false, ◌&&◌, ◌||◌, not, ltb, leb, ◌==◌, nat_eq, list_eq, if◌then◌else◌,
  length, take, drop, is_empty, contains, any, all, ◌≡◌, refl, sym, ap, ◌∙◌, ◌≢◌, ◌↔◌, ◌⊎◌, inl,
  inr, arith, Bool-cases, Option-cases, ==_iff, ==_refl, Result, ok, err, ◌>>=◌, All, take-append,
  drop-append, take-append-drop, length-append, get_elem?, length-take_of_le, All-append,
  ok-injective, >>=-eq-ok, all_below, all_below_sound, set, fail_if, ok_or, for_each, ◌>>◌, Eq, Ord,
  list_ord, nat_ord,
}
use fstx.Base.Map.{BTreeMap, get, insert}
use fstx.Path.{RelPath, overlaps, parent_or_root}
use fstx.Error.{Reason}
use fstx.Vfs.{FileId, Kind, dir, file_id_eq, kind_eq}
use fstx.Plan.{Loc, Token, Step, Plan, no_id, loc_at, src, dst, index}

-- For each token, the wave of the step that leaves each location.
abbrev pub StepWave : Type 0
StepWave = List (BTreeMap ℕ ℕ)

abbrev pub steps_of : StepWave → ℕ → BTreeMap ℕ ℕ
steps_of [] t = []
steps_of (m ∷ sw) zero = m
steps_of (m ∷ sw) (suc t) = steps_of sw t

-- The first loop over a wave: every step is in range, and none is there twice.
unfoldable pub record_steps : Plan → ℕ → List Step → StepWave → Result Reason StepWave
record_steps plan w [] sw = ok sw
record_steps plan w (s ∷ wave) sw = do
  tok ← ok_or (get_elem? plan.tokens s.token) Reason.unknown_token
  fail_if (leb (length tok.locs) (s.from + 1)) Reason.beyond_last_location
  fail_if (elim (get s.from (steps_of sw s.token)) [ none ↦ false | some _ ↦ true ])
      Reason.moved_twice
  record_steps plan w wave (set sw s.token (insert s.from w (steps_of sw s.token)))

unfoldable pub check_paths : ℕ → RelPath → RelPath → Result Reason (Unit {0})
check_paths w pa pb = fail_if (overlaps pa pb) (Reason.steps_overlap w pa pb)

-- No endpoint of one step may overlap an endpoint of the other.
unfoldable pub check_pair : Plan → ℕ → Step → Step → Result Reason (Unit {0})
unfolding check_paths
check_pair plan w a b = do
  check_paths w (src plan a).path (src plan b).path
  check_paths w (src plan a).path (dst plan b).path
  check_paths w (dst plan a).path (src plan b).path
  check_paths w (dst plan a).path (dst plan b).path

unfoldable pub check_overlaps : Plan → ℕ → List Step → Result Reason (Unit {0})
check_overlaps plan w [] = ok tt
check_overlaps plan w (a ∷ rest) = do
  for_each rest (check_pair plan w a)
  check_overlaps plan w rest

unfoldable pub scan_waves : Plan → ℕ → List (List Step) → StepWave → Result Reason StepWave
scan_waves plan w [] sw = ok sw
scan_waves plan w (wave ∷ waves) sw = do
  sw' ← record_steps plan w wave sw
  check_overlaps plan w wave
  scan_waves plan (w + 1) waves sw'

-- The waves of the steps `from..from + count` of token `t`.
unfoldable pub collect_waves : ℕ → BTreeMap ℕ ℕ → ℕ → ℕ → Result Reason (List ℕ)
collect_waves t steps from zero = ok []
collect_waves t steps from (suc count) = do
  w ← ok_or (get from steps) (Reason.misses_step t from)
  ws ← collect_waves t steps (from + 1) count
  ok (w ∷ ws)

-- `waves.windows(2).any(|w| w[0] >= w[1])`
unfoldable pub has_descent : List ℕ → Bool
has_descent [] = false
has_descent (a ∷ []) = false
has_descent (a ∷ b ∷ ws) = leb b a || has_descent (b ∷ ws)

unfoldable pub check_tokens : ℕ → List Token → StepWave → Result Reason (Unit {0})
check_tokens t [] sw = ok tt
check_tokens t (tok ∷ tokens) sw = do
  ws ← collect_waves t (steps_of sw t) 0 (length tok.locs - 1)
  fail_if (has_descent ws) (Reason.not_increasing t)
  check_tokens (t + 1) tokens sw

-- `at`: the token, from `t` on, whose location at its position is `path`.
unfoldable pub token_at : ℕ → List Token → List ℕ → RelPath → Option ℕ
token_at t (tok ∷ tokens) (i ∷ pos) path =
    if (loc_at tok i).path == path then some t else token_at (t + 1) tokens pos path
token_at t _ _ path = none

-- A token directory with the identity of the location's parent must stand at the parent's path.
unfoldable pub check_parent_tokens : ℕ → List Token → List ℕ → Loc → Result Reason (Unit {0})
check_parent_tokens w (tok ∷ tokens) (i ∷ pos) loc = do
  fail_if
      (tok.kind == dir
        && tok.id == loc.parent
        && not ((loc_at tok i).path == parent_or_root loc.path))
      (Reason.parent_not_in_place w (parent_or_root loc.path) loc.path)
  check_parent_tokens w tokens pos loc
check_parent_tokens w _ _ loc = ok tt

abbrev pub id_of : List Token → ℕ → FileId
id_of [] t = no_id
id_of (tok ∷ tokens) zero = tok.id
id_of (tok ∷ tokens) (suc t) = id_of tokens t

unfoldable pub check_loc : Plan → ℕ → List ℕ → Loc → Result Reason (Unit {0})
check_loc plan w snapshot loc = do
  check_parent_tokens w plan.tokens snapshot loc
  fail_if
      (elim (token_at 0 plan.tokens snapshot (parent_or_root loc.path)) [
        | none ↦ false
        | some t ↦ not (id_of plan.tokens t == loc.parent)
      ])
      (Reason.parent_identity_mismatch w (parent_or_root loc.path))

unfoldable pub check_free : ℕ → RelPath → Option ℕ → Result Reason (Unit {0})
check_free w path none = ok tt
check_free w path (some t) = err (Reason.destination_occupied w path t)

unfoldable pub check_step : Plan → ℕ → List ℕ → Step → Result Reason (Unit {0})
check_step plan w snapshot s = do
  fail_if (not (index snapshot s.token == s.from)) (Reason.not_at_source w s.token)
  check_free w (dst plan s).path (token_at 0 plan.tokens snapshot (dst plan s).path)
  check_loc plan w snapshot (src plan s)
  check_loc plan w snapshot (dst plan s)

-- `for s in wave { pos[s.token] = s.from + 1; }`
unfoldable pub advance : List Step → List ℕ → List ℕ
advance [] pos = pos
advance (s ∷ wave) pos = advance wave (set pos s.token (s.from + 1))

-- Symbolic execution over token positions.
unfoldable pub execute : Plan → ℕ → List (List Step) → List ℕ → Result Reason (List ℕ)
execute plan w [] pos = ok pos
execute plan w (wave ∷ waves) pos = do
  for_each wave (check_step plan w pos)
  execute plan (w + 1) waves (advance wave pos)

unfoldable pub check_finals : ℕ → List Token → List ℕ → List RelPath → Result Reason (Unit {0})
check_finals t (tok ∷ tokens) (i ∷ pos) finals = do
  fail_if (not (i == length tok.locs - 1)) (Reason.not_at_final_location t)
  fail_if (contains finals (loc_at tok i).path) (Reason.same_final_location (loc_at tok i).path)
  check_finals (t + 1) tokens pos ((loc_at tok i).path ∷ finals)
check_finals t _ _ finals = ok tt

unfoldable pub validate : Plan → Result Reason (Unit {0})
validate plan = do
  sw ← scan_waves plan 0 plan.waves (replicate (length plan.tokens) [])
  check_tokens 0 plan.tokens sw
  pos ← execute plan 0 plan.waves (replicate (length plan.tokens) 0)
  check_finals 0 plan.tokens pos []
