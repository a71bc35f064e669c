-- ===== src/Error.antt =====
-- The errors of the crate (src/error.rs). A formatted message is the constructor of its text,
-- with what the text shows as arguments.
use fstx.Base.{Bool, ℕ, List}
use fstx.Path.{RelPath}

-- `io::ErrorKind`, the kinds that the crate tells apart or raises.
pub data ErrorKind : Type 0 where
  not_found already_exists not_a_directory is_a_directory directory_not_empty : ErrorKind
  invalid_input unsupported other : ErrorKind

pub data InvalidReason : Type 0 where
  contains_nul contains_parent_dir must_be_relative empty_path reserved : InvalidReason

-- Why a journal or an observed state is refused.
pub data Reason : Type 0 where
  -- `journal::decode`
  no_checksum torn_checksum checksum_mismatch does_not_parse : Reason
  unknown_format : ℕ → Reason
  different_transaction different_root too_few_locations location_is_root : Reason
  private_location : RelPath → Reason
  -- `plan::validate`
  unknown_token beyond_last_location moved_twice : Reason
  steps_overlap : ℕ → RelPath → RelPath → Reason
  misses_step : ℕ → ℕ → Reason
  not_increasing : ℕ → Reason
  not_at_source : ℕ → ℕ → Reason
  destination_occupied : ℕ → RelPath → ℕ → Reason
  parent_not_in_place : ℕ → RelPath → RelPath → Reason
  parent_identity_mismatch : ℕ → RelPath → Reason
  not_at_final_location : ℕ → Reason
  same_final_location : RelPath → Reason
  -- `recover`
  unknown_entry : RelPath → Reason
  token_not_found : ℕ → ℕ → Reason
  token_at_several : ℕ → ℕ → List ℕ → Reason
  waves_partially_applied : ℕ → ℕ → Reason
  progress_names_missing_wave : Reason
  logged_undone logged_applied : ℕ → Reason
  unexpected_position : ℕ → ℕ → Bool → ℕ → Reason
  both_markers no_journal_but_progressed : Reason

-- What a filesystem lacks, each with its own text in the code.
pub data Missing : Type 0 where
  local_filesystem destination_replaced no_replace_rename stable_identities directory_fsync :
      Missing

pub data Error : Type 0 where
  invalid_path : List ℕ → InvalidReason → Error
  not_found already_exists not_a_directory is_a_directory : RelPath → Error
  directory_not_empty unsupported_file_type conflict : RelPath → Error
  invalid_move case_collision : RelPath → RelPath → Error
  unsupported_filesystem : List Missing → Error
  unsupported_platform : Error
  recovery_required : List ℕ → Reason → Error
  commit_outcome_unknown : List ℕ → ErrorKind → Error
  rollback_failed : Error → Error → Error
  io : ErrorKind → Error
