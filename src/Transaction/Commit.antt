-- ===== src/Transaction/Commit.antt =====
-- The commit: preparation, the waves forward, and what becomes of a failure
use fstx.Base.{
  ℕ, ◌+◌, ◌%◌, List, [], ◌∷◌, none, some, ◌&&◌, ◌==◌, nat_eq, list_eq, if◌then◌else◌, is_empty, ok,
  list_ord, nat_ord,
}
-- (src/transaction.rs).
use fstx.Base.Action.{◌>>=◌, ◌>>◌, pure, fail, reads, handle, for_each}
use fstx.Path.{is_private}
use fstx.Error.{Error, ErrorKind}
use fstx.Vfs.{Vfs, Event, prepared, file, kind_eq}
use fstx.Plan.{Token, Step, Plan, src, dst, loc_at}
use fstx.Plan.Compile.{compile}
use fstx.Progress.{apply_done}
use fstx.State.{
  TxDir, tx_dir, staged, backup, journal, journal_tmp, progress, private_dir, set_marker, gc,
}
use fstx.State
use fstx.Journal.{Journal, Codec, encode, format_version}
use fstx.Recover.Rollback.{Io, Act, io, barrier, append_progress, rollback}
use fstx.Caps.{attempt}
use fstx.Transaction.{Transaction}

module _ (vfs : Vfs) where
  -- A staged file starts at a private location.
  unfoldable pub sync_token : Token → Io vfs (Unit {0})
  sync_token tok =
      if tok.kind == file && is_private (loc_at tok 0).path
      then vfs.sync_file (loc_at tok 0).path
      else pure tt

  unfoldable pub prepare : Codec → TxDir → Journal → Io vfs (Unit {0})
  unfolding sync_token
  prepare codec tx j = do
    for_each j.plan.tokens sync_token
    vfs.sync_dir (staged tx)
    vfs.sync_dir (backup tx)
    vfs.create_file (progress tx) [] none
    vfs.sync_file (progress tx)
    vfs.sync_dir (tx_dir tx)
    vfs.sync_dir private_dir
    vfs.create_file (journal_tmp tx) (encode codec j) none
    vfs.sync_file (journal_tmp tx)
    vfs.rename_noreplace (journal_tmp tx) none (journal tx) none
    vfs.sync_dir (tx_dir tx)

  unfoldable pub apply_step : Plan → Step → Io vfs (Unit {0})
  apply_step plan v =
      vfs.rename_noreplace (src plan v).path (some (src plan v).parent) (dst plan v).path
        (some (dst plan v).parent)

  -- The waves from `w` on, forward, with a barrier after each.
  unfoldable pub apply_waves :
      (List ℕ → List ℕ) → TxDir → Plan → ℕ → List (List Step) → Io vfs (Unit {0})
  unfolding apply_step
  apply_waves hash tx plan w [] = pure tt
  apply_waves hash tx plan w (wave ∷ waves) = do
    for_each wave (apply_step plan)
    barrier vfs plan wave
    append_progress vfs hash tx (apply_done (w % 4294967296))
    apply_waves hash tx plan (w + 1) waves

  unfoldable pub apply : (List ℕ → List ℕ) → TxDir → Plan → Io vfs (Unit {0})
  unfolding apply_waves
  apply hash tx plan = apply_waves hash tx plan 0 plan.waves

  -- The transaction is committed where the marker is durable.
  unfoldable pub seal : ℕ → TxDir → Act vfs (Unit {0})
  seal fuel tx = do
    handle (set_marker vfs tx State.committed) (λ _. pure tt)
        (λ e. fail (Error.commit_outcome_unknown tx.name e))
    λ s. (ok tt, vfs.event Event.committed s)
    attempt (gc vfs fuel tx)

  -- The tree has been touched: what failed is undone.
  unfoldable pub undo_apply : Codec → ℕ → TxDir → Journal → ErrorKind → Act vfs (Unit {0})
  undo_apply codec fuel tx j cause =
      handle (rollback vfs codec.hash fuel tx j) (λ _. fail (Error.io cause))
        (λ rb. fail (Error.rollback_failed (Error.io cause) rb))

  unfoldable pub run_plan : Codec → ℕ → TxDir → Journal → Act vfs (Unit {0})
  unfolding prepare apply seal undo_apply
  run_plan codec fuel tx j =
      handle (prepare codec tx j)
        (λ _.
          (λ s. (ok tt, vfs.event prepared s))
          >> handle (apply codec.hash tx j.plan) (λ _. seal fuel tx) (undo_apply codec fuel tx j))
        (λ e. attempt (gc vfs fuel tx) >> fail (Error.io e))

  unfoldable pub commit_plan : Codec → ℕ → TxDir → Plan → Act vfs (Unit {0})
  unfolding run_plan
  commit_plan codec fuel tx plan =
      if is_empty plan.waves
      then io vfs (gc vfs fuel tx)
      else io vfs (reads vfs.root_id) >>= λ root_id.
          run_plan codec fuel tx
            (record { format = format_version; tx = tx.name; root = root_id; plan = plan })

  unfoldable pub commit : Codec → ℕ → Transaction → Act vfs (Unit {0})
  unfolding commit_plan
  commit codec fuel t =
      handle (compile vfs t.overlay t.tx t.blobs) (commit_plan codec fuel t.tx)
        (λ e. attempt (gc vfs fuel t.tx) >> fail e)
