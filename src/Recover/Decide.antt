-- ===== src/Recover/Decide.antt =====
-- What recovery does with each transaction directory (src/recover.rs).
use fstx.Base.{
  ℕ, ◌+◌, List, [], ◌∷◌, ◌++◌, Option, none, some, Bool, false, ◌&&◌, ◌||◌, not, nat_eq, list_eq,
  if◌then◌else◌, is_empty, ok, err, map_ok, list_ord, nat_ord,
}
use fstx.Base.Utf8.{is_utf8}
use fstx.Base.Action.{◌>>=◌, ◌>>◌, pure, fail, reads, handle, fold_each}
use fstx.Path.{Name, join}
use fstx.Error.{Error, Reason}
use fstx.Vfs.{Vfs, IoResult}
use fstx.State.{
  TxDir, backup, journal, private_dir, committed, rolling_back, rolled_back, has_marker, gc,
  delete_tree, tx_prefix, gc_prefix, probe_prefix,
}
use fstx.Journal.{Journal, Codec, decode, starts_with}
use fstx.Recover.Rollback.{rollback, io, Act}

pub data Decision : Type 0 where
  discard settle_committed settle_rolled_back : Decision
  roll_back : Journal → Decision
  require : Reason → Decision

-- What recovery did.
pub record RecoveryReport : Type 0 where
  pub rolled_back : List Name
  pub completed : List Name
  pub discarded : List Name
  pub garbage_removed : ℕ

abbrev pub empty_report : RecoveryReport
empty_report = record { rolled_back = []; completed = []; discarded = []; garbage_removed = 0 }

unfoldable pub insert_name : Name → List Name → List Name
insert_name n [] = n ∷ []
insert_name n (m ∷ ms) = if list_ord.lt n m then n ∷ m ∷ ms else m ∷ insert_name n ms

-- `names.sort()`
unfoldable pub sort_names : List Name → List Name
unfolding insert_name
sort_names [] = []
sort_names (n ∷ ns) = insert_name n (sort_names ns)

-- The names that are UTF-8.
unfoldable pub utf8_names : List Name → List Name
utf8_names [] = []
utf8_names (n ∷ ns) = let rest = utf8_names ns in if is_utf8 n then n ∷ rest else rest

module _ (vfs : Vfs) (codec : Codec) where
  -- The files that the decision reads, in the order in which the code reads them.
  unfoldable pub decide_journal : TxDir → vfs.State → IoResult Decision
  decide_journal tx s = elim (vfs.read_file (journal tx) s) [
    | err e ↦ err e
    | ok bytes ↦ elim (vfs.root_id s) [
      | err e ↦ err e
      | ok root ↦ elim (decode codec bytes tx.name root) [
        | ok j ↦ ok (roll_back j)
        | err e ↦ ok (require e)
      ]
    ]
  ]

  unfoldable pub backup_used : TxDir → vfs.State → IoResult Bool
  backup_used tx s = elim (vfs.stat (backup tx) s) [
    | err e ↦ err e
    | ok none ↦ ok false
    | ok (some _) ↦ map_ok (λ names. not (is_empty names)) (vfs.read_dir (backup tx) s)
  ]

  unfoldable pub decide_unmarked : TxDir → Bool → vfs.State → IoResult Decision
  unfolding decide_journal backup_used
  decide_unmarked tx rolling s = elim (vfs.stat (journal tx) s) [
    | err e ↦ err e
    | ok none ↦
        map_ok
          (λ used. if used || rolling then require Reason.no_journal_but_progressed else discard)
          (backup_used tx s)
    | ok (some _) ↦ decide_journal tx s
  ]

  unfoldable pub decide_marked : TxDir → Bool → Bool → Bool → vfs.State → IoResult Decision
  decide_marked tx done rolling rolled s =
      if done && (rolling || rolled)
      then ok (require Reason.both_markers)
      else if done
      then ok settle_committed
      else if rolled
      then ok settle_rolled_back
      else decide_unmarked tx rolling s

  unfoldable pub decide : TxDir → vfs.State → IoResult Decision
  unfolding decide_marked
  decide tx s = elim (has_marker vfs tx committed s) [
    | err e ↦ err e
    | ok done ↦ elim (has_marker vfs tx rolling_back s) [
      | err e ↦ err e
      | ok rolling ↦ elim (has_marker vfs tx rolled_back s) [
        | err e ↦ err e
        | ok rolled ↦ decide_marked tx done rolling rolled s
      ]
    ]
  ]

  abbrev pub Progress : Type 0
  Progress = RecoveryReport × Option Error

  -- `first_err.get_or_insert(e)`
  abbrev keep_first : Option Error → Error → Option Error
  keep_first none e = some e
  keep_first (some e') e = some e'

  -- `Err(e @ RecoveryRequired)` is kept, and any other error ends the loop.
  unfoldable pub after_rollback : Progress → Error → Act vfs Progress
  after_rollback (report, first) (Error.recovery_required t r) =
      pure (report, keep_first first (Error.recovery_required t r))
  after_rollback p e = fail e

  unfoldable pub act_on : ℕ → Name → Progress → Decision → Act vfs Progress
  unfolding after_rollback
  act_on fuel name (report, first) discard = do
    io vfs (gc vfs fuel (record { name = name }))
    pure (record report { discarded = report.discarded ++ (name ∷ []) }, first)
  act_on fuel name (report, first) settle_committed = do
    io vfs (gc vfs fuel (record { name = name }))
    pure (record report { completed = report.completed ++ (name ∷ []) }, first)
  act_on fuel name (report, first) settle_rolled_back = do
    io vfs (gc vfs fuel (record { name = name }))
    pure (record report { rolled_back = report.rolled_back ++ (name ∷ []) }, first)
  act_on fuel name (report, first) (roll_back j) =
      handle (rollback vfs codec.hash fuel (record { name = name }) j)
        (λ _. pure (record report { rolled_back = report.rolled_back ++ (name ∷ []) }, first))
        (after_rollback (report, first))
  act_on fuel name (report, first) (require r) =
      pure (report, keep_first first (Error.recovery_required name r))

  unfoldable pub recover_name : ℕ → Name → Progress → Act vfs Progress
  unfolding act_on
  recover_name fuel name (report, first) =
      if starts_with gc_prefix name || starts_with probe_prefix name
      then (do
        io vfs (vfs.sync_dir private_dir)
        io vfs (delete_tree vfs fuel (join private_dir name))
        io vfs (vfs.sync_dir private_dir)
        pure (record report { garbage_removed = report.garbage_removed + 1 }, first))
      else if starts_with tx_prefix name
      then (do
        d ← io vfs (reads (decide (record { name = name })))
        act_on fuel name (report, first) d)
      else pure (report, first)

  unfoldable pub finish : Progress → Act vfs RecoveryReport
  finish (report, none) = pure report
  finish (report, some e) = fail e

  -- Recovers every transaction under `.fstx`.
  unfoldable pub recover_locked : ℕ → Act vfs RecoveryReport
  unfolding finish
  recover_locked fuel = do
    names ← io vfs (reads (vfs.read_dir private_dir))
    p ← fold_each (sort_names (utf8_names names)) (recover_name fuel) (empty_report, none)
    finish p
