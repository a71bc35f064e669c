-- ===== src/Recover/Rollback.antt =====
-- Recovery, the part that acts: the barrier, the stabilisation and the undo (src/recover.rs).
use fstx.Base.{
  ℕ, ◌+◌, ◌%◌, List, [], ◌∷◌, none, some, Bool, true, false, ltb, leb, ◌==◌, nat_eq, list_eq,
  if◌then◌else◌, contains, Result, ok, err, set, map_ok, list_ord, nat_ord,
}
use fstx.Base.Action.{Action, ◌>>=◌, ◌>>◌, pure, fail, reads, lift, for_each, fold_each, map_err}
use fstx.Path.{RelPath, parent_or_root}
use fstx.Error.{Error, ErrorKind, Reason}
use fstx.Vfs.{Vfs, FileId, file_id_eq, stabilized, undone, IoResult}
use fstx.Plan.{Loc, Token, Step, Plan, src, dst}
use fstx.Progress
use fstx.Progress.{Record, apply_done, undo_done}
use fstx.State.{
  TxDir, tx_dir, staged, backup, progress, private_dir, rolling_back, rolled_back, set_marker, gc,
}
use fstx.Journal.{Journal}
use fstx.Recover.{Pos, at, both, pos_at, classify, check_shape, check_progress}

unfoldable pub required : TxDir → Reason → Error
required tx reason = Error.recovery_required tx.name reason

-- What the undo of one step does, by where its token is.
pub data UndoAction : Type 0 where
  rename_back unlink_copy leave refuse : UndoAction

unfoldable pub undo_action : Pos → Step → UndoAction
undo_action (at i) s =
    if i == s.from + 1 then rename_back else if leb i s.from then leave else refuse
undo_action (both i) s = if i == s.from then unlink_copy else if ltb i s.from then leave else refuse

abbrev pub position_index : Pos → ℕ
position_index (at i) = i
position_index (both i) = i

abbrev pub is_both : Pos → Bool
is_both (at i) = false
is_both (both i) = true

-- The results up to the first anomaly.
unfoldable pub all_located : TxDir → List (Result Reason Pos) → Result Error (List Pos)
unfolding required
all_located tx [] = ok []
all_located tx (ok p ∷ rest) = map_ok (λ pos. p ∷ pos) (all_located tx rest)
all_located tx (err e ∷ rest) = err (required tx e)

abbrev pub map_reason : {A : Type 0} → TxDir → Result Reason A → Result Error A
map_reason tx (ok a) = ok a
map_reason tx (err e) = err (Error.recovery_required tx.name e)

module _ (vfs : Vfs) where
  abbrev pub Io : Type 0 → Type 0
  Io = Action vfs.State ErrorKind

  abbrev pub Act : Type 0 → Type 0
  Act = Action vfs.State Error

  -- The `?` of an I/O result where the crate's own error is returned.
  abbrev pub io : {A : Type 0} → Io A → Act A
  io = map_err Error.io

  -- `done` holds the directories that the barrier has synced.
  unfoldable pub sync_parent : RelPath → FileId → List RelPath → Io (List RelPath)
  sync_parent path expect done = if contains done (parent_or_root path) then pure done else do
    found ← reads (vfs.stat (parent_or_root path))
    elim found [
      | none ↦ pure done
      | some m ↦
          if m.id == expect
          then (do vfs.sync_dir (parent_or_root path); pure (parent_or_root path ∷ done))
          else pure done
    ]

  abbrev sync_loc : Loc → List RelPath → Io (List RelPath)
  sync_loc loc = sync_parent loc.path loc.parent

  unfoldable pub barrier : Plan → List Step → Io (Unit {0})
  barrier plan wave = do
    fold_each wave (λ s done. sync_loc (src plan s) done >>= sync_loc (dst plan s)) []
    pure tt

  unfoldable pub stabilize_tokens : List Token → List RelPath → Io (List RelPath)
  stabilize_tokens tokens = fold_each tokens (λ tok. fold_each tok.locs sync_loc)

  unfoldable pub sync_existing : List RelPath → RelPath → Io (Unit {0})
  sync_existing done d =
      if contains done d
      then pure tt
      else do found ← reads (vfs.stat d); elim found [ none ↦ pure tt | some _ ↦ vfs.sync_dir d ]

  -- Makes the observed state durable before the first mutation.
  unfoldable pub stabilize : TxDir → Plan → Io (Unit {0})
  unfolding stabilize_tokens sync_existing
  stabilize tx plan = do
    done ← stabilize_tokens plan.tokens []
    for_each (staged tx ∷ backup tx ∷ tx_dir tx ∷ private_dir ∷ []) (sync_existing done)

  -- The steps of one wave; the positions are kept up to date.
  unfoldable pub undo_steps : TxDir → Plan → ℕ → List Step → List Pos → Act (List Pos)
  undo_steps tx plan w [] pos = pure pos
  undo_steps tx plan w (s ∷ wave) pos =
      let back = undo_steps tx plan w wave (set pos s.token (at s.from)) in
      let same = undo_steps tx plan w wave pos in
      elim (undo_action (pos_at pos s.token) s) [
        | rename_back ↦
            io (
              vfs.rename_noreplace (dst plan s).path (some (dst plan s).parent) (src plan s).path
                (some (src plan s).parent))
            >> back
        | unlink_copy ↦ io (vfs.unlink (dst plan s).path (some (dst plan s).parent)) >> back
        | leave ↦ same
        | refuse ↦ fail (
            required tx (
              Reason.unexpected_position s.token (position_index (pos_at pos s.token))
                (is_both (pos_at pos s.token)) w))
      ]

  module _ (hash : List ℕ → List ℕ) where
    unfoldable pub append_progress : TxDir → Record → Io (Unit {0})
    append_progress tx r = do
      vfs.append (progress tx) (Progress.encode hash r)
      vfs.sync_file (progress tx)

    unfoldable pub read_progress : TxDir → vfs.State → IoResult (List Record)
    read_progress tx s = elim (vfs.stat (progress tx) s) [
      | err e ↦ err e
      | ok none ↦ ok []
      | ok (some _) ↦ map_ok (Progress.parse hash) (vfs.read_file (progress tx) s)
    ]

    -- Classification, shape and progress checks. No mutation.
    unfoldable pub preflight : TxDir → Journal → Act (List Pos)
    preflight tx j = do
      found ← io (reads (classify vfs j.plan))
      pos ← lift (all_located tx found)
      lift (map_reason tx (check_shape j.plan pos))
      recs ← io (reads (read_progress tx))
      lift (map_reason tx (check_progress j.plan recs pos))
      pure pos

    -- The waves from `w` on, the last one first.
    unfoldable pub undo_waves : TxDir → Plan → ℕ → List (List Step) → List Pos → Act (List Pos)
    undo_waves tx plan w [] pos = pure pos
    undo_waves tx plan w (wave ∷ waves) pos = do
      pos' ← undo_waves tx plan (w + 1) waves pos
      pos'' ← undo_steps tx plan w wave pos'
      io (barrier plan wave)
      io (append_progress tx (undo_done (w % 4294967296)))
      pure pos''

    unfoldable pub rollback : ℕ → TxDir → Journal → Act (Unit {0})
    rollback fuel tx j = do
      pos ← preflight tx j
      io (stabilize tx j.plan)
      λ s. (ok tt, vfs.event stabilized s)
      io (set_marker vfs tx rolling_back)
      undo_waves tx j.plan 0 j.plan.waves pos
      λ s. (ok tt, vfs.event undone s)
      io (set_marker vfs tx rolled_back)
      io (gc vfs fuel tx)
