-- ===== src/Inspect/Tests.antt =====
-- The report on the sample transaction midway (src/inspect.rs).
use fstx.Base.{List, [], ◌∷◌, Result, ok, ◌≡◌, refl, ◌↔◌, list_eq}
use fstx.Error.{Reason}
use fstx.Journal.Tests.{sample_journal, toy_codec}
use fstx.Recover.{Pos, at, classify}
use fstx.Recover.Rollback.{all_located}
use fstx.Recover.Decide.{roll_back}
use fstx.Recover.Tests.{midway, tx}
use fstx.Inspect.{TxInspection, undo_it, inspect_decision}
use fstx.Inspect.Agrees.{report, inspect_decision-all_located}
use fstx.Samples.{sample, table_vfs, tx_1}

abbrev midway_report : TxInspection
midway_report = report tx_1 sample_journal (ok (at 1) ∷ ok (at 2) ∷ ok (at 0) ∷ [])

midway_is_reported :
    inspect_decision table_vfs toy_codec midway tx_1 (roll_back sample_journal) ≡ ok midway_report
unfolding inspect_decision classify fstx.Recover.classify_tokens fstx.Recover.scan_locs
    fstx.Vfs.default_probe list_eq fstx.Path.parent_or_root fstx.Vfs.kind_eq fstx.Vfs.file_id_eq
    fstx.Recover.judge fstx.Recover.note_probe
midway_is_reported = refl

inspect_decision-all_located_example : (midway_report.action ≡ undo_it) ↔ (
    (classes : List (Result Reason Pos)) × (pos : List Pos) × (classify table_vfs sample midway
      ≡ ok classes)
    × (all_located tx classes ≡ ok pos))
inspect_decision-all_located_example =
    inspect_decision-all_located table_vfs toy_codec midway tx sample_journal midway_report
      midway_is_reported
