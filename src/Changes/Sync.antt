-- ===== src/Changes/Sync.antt =====
-- The copy of a source tree into a transaction (`stage_sync` of cli/src/changes.rs). The source is read with
-- `std::fs`: what it lists and holds is a parameter, and paths are relative to its root.
pub mod Walk
pub mod Ends
pub mod Excluded
mod Tests
use fstx.Base.{
  ℕ, zero, suc, List, [], ◌∷◌, ◌++◌, Option, none, some, nat_eq, list_eq, if◌then◌else◌, contains,
  Result, ok, err, ok_or,
}
use fstx.Base.Action.{◌>>=◌, ◌>>◌, pure, lift, fold_each}
use fstx.Base.Utf8.{to_string_lossy}
use fstx.Path.{Name}
use fstx.Vfs.{Vfs}
use fstx.Recover.Decide.{sort_names}
use fstx.Transaction.{write, write_with_mode, make_dir_all}
use fstx.Changes.{
  OpName, written, made_dir, Done, Failure, failure, refused, io_failure, Message, Outside, Staging,
  method,
}

-- `std::fs::FileType`, with `file_mode` of a file.
pub data FileMeta : Type 0 where
  directory : FileMeta
  regular_file : Option ℕ → FileMeta
  other_type : FileMeta

-- `read_dir`, each of whose entries may fail, `symlink_metadata` and `read`.
pub record Source : Type 0 where
  pub read_dir : List ℕ → Option (List (Option Name))
  pub symlink_metadata : List ℕ → Option FileMeta
  pub read_all : List ℕ → Option (List ℕ)

-- `PathBuf::join` of a name.
unfoldable pub join_name : List ℕ → Name → List ℕ
join_name [] name = name
join_name (c ∷ rel) name = (c ∷ rel) ++ (b'/' ∷ name)

-- What the loop carries; the top of the stack comes first.
pub record Walked : Type 0 where
  pub done : List Done
  pub skipped : List (List ℕ)
  pub stack : List (List ℕ)

-- `collect::<Result<_, _>>()`
unfoldable pub collect_entries : List (Option Name) → Option (List Name)
collect_entries [] = some []
collect_entries (none ∷ es) = none
collect_entries (some name ∷ es) = elim (collect_entries es) [
  | none ↦ none
  | some names ↦ some (name ∷ names)
]

unfoldable pub entry_names : List ℕ → Option (List (Option Name)) → Result Failure (List Name)
unfolding collect_entries
entry_names rel none = err (failure refused none (Message.not_listed rel))
entry_names rel (some es) =
    ok_or (collect_entries es) (failure io_failure none (Message.not_listed rel))

abbrev pub report_of : OpName → List ℕ → Done
report_of op child = record { op = op; path = to_string_lossy child; to = none }

unfoldable pub with_dir : List ℕ → Walked → Walked
with_dir child w = record w {
  done = w.done ++ (report_of made_dir child ∷ []);
  stack = child ∷ w.stack;
}

unfoldable pub with_file : List ℕ → Walked → Walked
with_file child w = record w { done = w.done ++ (report_of written child ∷ []) }

unfoldable pub with_skipped : List ℕ → Walked → Walked
with_skipped child w = record w { skipped = w.skipped ++ (to_string_lossy child ∷ []) }

module _ (outside : Outside) (vfs : Vfs) (source : Source) (exclude : List Name) where
  unfoldable pub write_copy : List ℕ → List ℕ → Option ℕ → Staging outside vfs (Unit {0})
  write_copy child bytes (some mode) =
      method outside vfs none (write_with_mode vfs child bytes mode)
  write_copy child bytes none = method outside vfs none (write vfs child bytes)

  unfoldable pub sync_meta : List ℕ → FileMeta → Walked → Staging outside vfs Walked
  unfolding with_dir with_file with_skipped write_copy
  sync_meta child directory w = do
    method outside vfs none (make_dir_all vfs child)
    pure (with_dir child w)
  sync_meta child (regular_file mode) w = do
    bytes ← lift (
        ok_or (source.read_all child)
          (failure io_failure none (Message.not_copied (to_string_lossy child))))
    write_copy child bytes mode
    pure (with_file child w)
  sync_meta child other_type w = pure (with_skipped child w)

  unfoldable pub sync_entry : List ℕ → Name → Walked → Staging outside vfs Walked
  unfolding sync_meta join_name
  sync_entry rel name w = if contains exclude name then pure w else do
    meta ← lift (
        ok_or (source.symlink_metadata (join_name rel name))
          (failure io_failure none (Message.not_found (to_string_lossy (join_name rel name)))))
    sync_meta (join_name rel name) meta w

  unfoldable pub sync_dir_entries : List ℕ → Walked → Staging outside vfs Walked
  unfolding entry_names sync_entry
  sync_dir_entries rel w = do
    names ← lift (entry_names rel (source.read_dir rel))
    fold_each (sort_names names) (sync_entry rel) w

  -- The loop, on fuel: `none` when it runs out.
  unfoldable pub sync_loop : ℕ → List (List ℕ) → Walked → Staging outside vfs (Option Walked)
  unfolding sync_dir_entries
  sync_loop fuel [] w = pure (some w)
  sync_loop zero (rel ∷ stack) w = pure none
  sync_loop (suc fuel) (rel ∷ stack) w = do
    w' ← sync_dir_entries rel (record w { stack = stack })
    sync_loop fuel w'.stack w'

  unfoldable pub stage_sync : ℕ → Staging outside vfs (Option Walked)
  unfolding sync_loop
  stage_sync fuel = sync_loop fuel ([] ∷ []) (record { done = []; skipped = []; stack = [] })
