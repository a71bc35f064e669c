-- ===== src/Changes/Sync/Tests.antt =====
-- The copy of a small source tree (`stage_sync` of cli/src/changes.rs).
use fstx.Base.{
  ℕ, zero, suc, ◌≤◌, List, [], ◌∷◌, ◌++◌, map, Option, none, some, Bool, true, false, ◌==◌, nat_eq,
  list_eq, if◌then◌else◌, ◌≡◌, ◌≢◌, refl, sym, ap, arith, Result, ok, err, All, ok-injective,
  list_ord, nat_ord,
}
use mathlib.Core.Path.{subst}
use fstx.Base.Utf8.{to_string_lossy}
use fstx.Path.{Name}
use fstx.Sim.Backend.{sim_vfs}
use fstx.Transaction.{Transaction}
use fstx.Changes.{written, made_dir}
use fstx.Changes.Samples.{fs, transaction, outside}
use fstx.Changes.Sync.{
  FileMeta, directory, regular_file, other_type, Source, join_name, Walked, entry_names, report_of,
  stage_sync,
}
use fstx.Changes.Sync.Ends.{IsFinite, entries_below, stage_sync_ends}

-- The source holds a directory `d` with a file `f`, a link `l` and a directory `x`.
listing : List ℕ → Option (List (Option Name))
listing [] = some (some (b'l' ∷ []) ∷ some (b'd' ∷ []) ∷ some (b'x' ∷ []) ∷ [])
listing (b ∷ []) = some (some (b'f' ∷ []) ∷ [])
listing (b ∷ c ∷ rest) = none

kind : List ℕ → Option FileMeta
kind [] = none
kind (b ∷ []) = if b == b'l' then some other_type else some directory
kind (b ∷ c ∷ rest) = some (regular_file (some 420))

abbrev source : Source
source = record { read_dir = listing; symlink_metadata = kind; read_all = λ child. some child }

below : List ℕ → ℕ
below [] = 6
below (b ∷ []) = 1
below (b ∷ c ∷ rest) = 0

source-IsFinite : IsFinite source below
unfolding listing below entry_names join_name
source-IsFinite [] names e =
    subst (λ ns. entries_below below [] ns ≤ 6) (ok-injective e) (omega arith)
source-IsFinite (b ∷ []) names e =
    subst (λ ns. entries_below below (b ∷ []) ns ≤ 1) (ok-injective e) (omega arith)
source-IsFinite (b ∷ c ∷ rest) names e = absurd (ground arith)

unfoldable start : sim_vfs.State
unfolding sim_vfs
start = fs

abbrev exclude : List Name
exclude = (b'x' ∷ []) ∷ []

abbrev copied : Walked
copied = record {
  done = report_of made_dir (b'd' ∷ []) ∷ report_of written (b'd' ∷ b'/' ∷ b'f' ∷ []) ∷ [];
  skipped = (b'l' ∷ []) ∷ [];
  stack = [];
}

too_little_fuel : (stage_sync outside sim_vfs source exclude 1 (start, transaction)).0 ≡ ok none
unfolding stage_sync listing fstx.Recover.Decide.sort_names list_ord
    native.Mathlib.Decide.ℕ_discrete nat_ord list_eq kind fstx.Transaction.make_dir_all
    fstx.Path.Validate.validate_user_path fstx.Overlay.Edit.create_dir_all fstx.Path.proper_prefixes
    fstx.Overlay.resolve fstx.Overlay.root_entry fstx.Base.Map.get fstx.Path.join sim_vfs
    fstx.Sim.Calls.stat start fstx.Path.is_root fstx.Path.file_name fstx.Sim.resolve_dir
    fstx.Sim.resolve_from fstx.Path.parent_or_root fstx.Sim.lookup fstx.Overlay.require_parent_dir
    fstx.Overlay.check_new_name
too_little_fuel = refl

-- A byte that is not UTF-8 is shown as U+FFFD.
bad_byte : to_string_lossy (b'a' ∷ 0xC3 ∷ b'b' ∷ []) ≡ b'a' ∷ 0xEF ∷ 0xBF ∷ 0xBD ∷ b'b' ∷ []
unfolding to_string_lossy
bad_byte = refl

stage_sync_ends_example :
    (stage_sync outside sim_vfs source exclude 7 (start, transaction)).0 ≢ ok none
unfolding below
stage_sync_ends_example =
    stage_sync_ends outside sim_vfs source exclude below source-IsFinite 7 (omega arith)
      (start, transaction)
