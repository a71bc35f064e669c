-- ===== src/State.antt =====
-- The layout of the private area and the durable markers (src/state.rs).
use fstx.Base.{
  ℕ, zero, suc, [], ◌∷◌, ◌++◌, Option, none, some, Bool, true, false, ◌==◌, nat_eq, list_eq,
  if◌then◌else◌, Result, map_ok, list_ord, nat_ord,
}
use fstx.Base.Action.{Action, ◌>>=◌, ◌>>◌, pure, fail, reads, handle, for_each}
use fstx.Path.{Name, RelPath, private_dir_name, join}
use fstx.Error.{ErrorKind}
use fstx.Vfs.{Vfs, dir, kind_eq}

abbrev pub tx_prefix : Name
tx_prefix = b't' ∷ b'x' ∷ b'-' ∷ []

abbrev pub gc_prefix : Name
gc_prefix = b'g' ∷ b'c' ∷ b'-' ∷ []

abbrev pub probe_prefix : Name
probe_prefix = b'p' ∷ b'r' ∷ b'o' ∷ b'b' ∷ b'e' ∷ b'-' ∷ []

abbrev pub staged_name : Name
staged_name = b's' ∷ b't' ∷ b'a' ∷ b'g' ∷ b'e' ∷ b'd' ∷ []

abbrev pub backup_name : Name
backup_name = b'b' ∷ b'a' ∷ b'c' ∷ b'k' ∷ b'u' ∷ b'p' ∷ []

abbrev pub journal_name : Name
journal_name = b'j' ∷ b'o' ∷ b'u' ∷ b'r' ∷ b'n' ∷ b'a' ∷ b'l' ∷ []

abbrev pub progress_name : Name
progress_name = b'p' ∷ b'r' ∷ b'o' ∷ b'g' ∷ b'r' ∷ b'e' ∷ b's' ∷ b's' ∷ []

abbrev pub private_dir : RelPath
private_dir = private_dir_name ∷ []

pub data Marker : Type 0 where
  committed rolling_back rolled_back : Marker

unfoldable pub marker_name : Marker → Name
marker_name committed = b'C' ∷ b'O' ∷ b'M' ∷ b'M' ∷ b'I' ∷ b'T' ∷ b'T' ∷ b'E' ∷ b'D' ∷ []
marker_name rolling_back =
    b'R' ∷ b'O' ∷ b'L' ∷ b'L' ∷ b'I' ∷ b'N' ∷ b'G' ∷ b'_' ∷ b'B' ∷ b'A' ∷ b'C' ∷ b'K' ∷ []
marker_name rolled_back =
    b'R' ∷ b'O' ∷ b'L' ∷ b'L' ∷ b'E' ∷ b'D' ∷ b'_' ∷ b'B' ∷ b'A' ∷ b'C' ∷ b'K' ∷ []

-- The paths of one transaction directory, by its name.
pub record TxDir : Type 0 where
  pub name : Name

unfoldable pub tx_dir : TxDir → RelPath
unfolding join
tx_dir tx = join private_dir tx.name

unfoldable pub staged : TxDir → RelPath
unfolding tx_dir
staged tx = join (tx_dir tx) staged_name

unfoldable pub backup : TxDir → RelPath
unfolding tx_dir
backup tx = join (tx_dir tx) backup_name

unfoldable pub journal : TxDir → RelPath
unfolding tx_dir
journal tx = join (tx_dir tx) journal_name

unfoldable pub journal_tmp : TxDir → RelPath
unfolding tx_dir
journal_tmp tx = join (tx_dir tx) (journal_name ++ (b'.' ∷ b't' ∷ b'm' ∷ b'p' ∷ []))

unfoldable pub progress : TxDir → RelPath
unfolding tx_dir
progress tx = join (tx_dir tx) progress_name

unfoldable pub marker : TxDir → Marker → RelPath
unfolding tx_dir marker_name
marker tx m = join (tx_dir tx) (marker_name m)

unfoldable pub gc_path : TxDir → RelPath
unfolding join
gc_path tx = join private_dir (gc_prefix ++ tx.name)

abbrev is_some : {A : Type 0} → Option A → Bool
is_some none = false
is_some (some _) = true

module _ (vfs : Vfs) where
  unfoldable pub has_marker : TxDir → Marker → vfs.State → Result ErrorKind Bool
  has_marker tx m s = map_ok is_some (vfs.stat (marker tx m) s)

  -- A marker that exists already is as good as a new one.
  unfoldable pub tolerate_existing : ErrorKind → Action vfs.State ErrorKind (Unit {0})
  tolerate_existing ErrorKind.already_exists = pure tt
  tolerate_existing e = fail e

  unfoldable pub set_marker : TxDir → Marker → Action vfs.State ErrorKind (Unit {0})
  unfolding tolerate_existing
  set_marker tx m =
      handle (vfs.create_file (marker tx m) [] none) (λ _. pure tt) tolerate_existing
      >> vfs.sync_dir (tx_dir tx)

  -- `delete_tree`, on fuel for the depth of the nesting. It fails where the fuel runs out, as a
  -- recursion too deep for the stack would.
  unfoldable pub delete_tree : ℕ → RelPath → Action vfs.State ErrorKind (Unit {0})
  delete_tree zero p = fail ErrorKind.other
  delete_tree (suc fuel) p = do
    found ← reads (vfs.stat p)
    elim found [
      | none ↦ pure tt
      | some m ↦
          if m.kind == dir
          then (do
            names ← reads (vfs.read_dir p)
            for_each names (λ name. delete_tree fuel (join p name))
            vfs.rmdir p)
          else vfs.unlink p none
    ]

  -- Settles the transaction: one rename, and then deletion.
  unfoldable pub gc : ℕ → TxDir → Action vfs.State ErrorKind (Unit {0})
  gc fuel tx = do
    vfs.rename_noreplace (tx_dir tx) none (gc_path tx) none
    vfs.sync_dir private_dir
    delete_tree fuel (gc_path tx)
    vfs.sync_dir private_dir
