-- ===== src/Recover/Tests.antt =====
-- Rollbacks of the sample plan over the sample filesystem (src/recover.rs).
use fstx.Base.{◌<◌, ◌+◌, ◌↔◌, ℕ, List, [], ◌∷◌, ◌++◌, All, length, ◌≤◌, Result, ok, err, ◌≡◌, refl}
use fstx.Error.{Error, Reason}
use fstx.Vfs.{file, dir, Vfs}
use fstx.Journal.Tests.{sample_journal, toy_codec, sample_is_read, bytes}
use fstx.Journal.Confined.{IsChecked, decode-IsChecked}
use fstx.State.{TxDir}
use fstx.Recover.CheckShape.{HasCut, check_shape-HasCut}
use fstx.Path.{root}
use fstx.Recover.{
  check_progress, step_state, pre, post, check_shape, Pos, at, classify, classify_tokens,
}
use fstx.Recover.Rollback.{rollback, all_located}
use fstx.Recover.Classify.{AllSit, classify_tokens-AllSit}
use fstx.Recover.Safe.{rollback-required}
use fstx.Recover.Logged.{Logs, check_progress-Logs}
use fstx.Progress.{Record, apply_done, undo_done}
use fstx.Samples.{
  step, sample, table_vfs, Table, entry, private_entries, a, z, staged_b0, backup_0, id, root_id,
  tx_1,
}

abbrev pub tx : TxDir
tx = record { name = tx_1 }

-- Everything applied but the last wave.
abbrev pub midway : Table
midway =
    entry backup_0 file (id 11)
    ∷ entry z dir (id 10)
    ∷ entry staged_b0 file (id 20)
    ∷ private_entries

abbrev pub midway_at : List Pos
midway_at = at 1 ∷ at 2 ∷ at 0 ∷ []

-- The token of the removed file is nowhere.
abbrev lost : Table
lost = entry a dir (id 10) ∷ entry staged_b0 file (id 20) ∷ private_entries

midway_is_located :
    classify_tokens table_vfs (id 11 ∷ id 10 ∷ id 20 ∷ []) sample.tokens midway
    ≡ ok (ok (at 1) ∷ ok (at 2) ∷ ok (at 0) ∷ [])
unfolding classify_tokens fstx.Recover.scan_locs fstx.Vfs.default_probe fstx.Base.list_eq
    fstx.Path.parent_or_root fstx.Vfs.kind_eq fstx.Vfs.file_id_eq fstx.Recover.judge
    fstx.Recover.note_probe
midway_is_located = refl

all_good : all_located tx (ok (at 1) ∷ ok (at 2) ∷ ok (at 0) ∷ []) ≡ ok midway_at
unfolding all_located
all_good = refl

classify_tokens-AllSit_example : AllSit table_vfs midway sample.tokens midway_at
classify_tokens-AllSit_example =
    classify_tokens-AllSit table_vfs midway (id 11 ∷ id 10 ∷ id 20 ∷ []) tx sample.tokens
      (ok (at 1) ∷ ok (at 2) ∷ ok (at 0) ∷ []) midway_at midway_is_located all_good

rollback_refuses :
    rollback table_vfs toy_codec.hash 5 tx sample_journal lost
    ≡ (err (Error.recovery_required tx_1 (Reason.token_not_found 1 11)), lost)
unfolding rollback fstx.Recover.Rollback.preflight classify classify_tokens fstx.Recover.scan_locs
    fstx.Vfs.default_probe fstx.Base.list_eq fstx.Path.parent_or_root fstx.Vfs.kind_eq
    fstx.Vfs.file_id_eq all_located fstx.Recover.judge fstx.Recover.note_probe
rollback_refuses = refl

sample-IsChecked : IsChecked tx_1 root_id sample_journal
sample-IsChecked = (decode-IsChecked toy_codec bytes tx_1 root_id sample_journal sample_is_read).0

rollback-required_example : lost ≡ lost
rollback-required_example =
    rollback-required table_vfs lost toy_codec.hash tx sample_journal 5 root_id tx_1
      (Reason.token_not_found 1 11) lost sample-IsChecked rollback_refuses

check_shape-HasCut_example : (check_shape sample midway_at ≡ ok tt) ↔ HasCut sample midway_at
check_shape-HasCut_example = check_shape-HasCut sample midway_at

-- The log of a commit that stopped midway.
abbrev logged : List Record
logged = apply_done 0 ∷ apply_done 1 ∷ []

log_passes : check_progress sample logged midway_at ≡ ok tt
unfolding check_progress fstx.Recover.max_apply fstx.Recover.min_undo
    fstx.Recover.check_logged_waves fstx.Recover.check_logged_step fstx.Recover.step_state_eq
    step_state
log_passes = refl

check_progress-Logs_example :
    (Logs (undo_done 0) logged → 0 ≤ 0 → step_state (at 1) (step 0 0) ≡ pre)
    × (Logs (apply_done 0) logged
        → (0 < 4)
          × (0 ≤ 0
              → 0 + 1 < 4
              → ((u : ℕ) → Logs (undo_done u) logged → 0 + 1 < u)
              → step_state (at 1) (step 0 0) ≡ post))
unfolding fstx.Plan.step_eq
check_progress-Logs_example =
    check_progress-Logs sample logged midway_at 0 0 (step 0 0 ∷ []) (step 0 0) log_passes refl refl
