-- ===== src/Sim/Calls.antt =====
-- The calls of the simulated filesystem that read, and what the others check first (src/sim.rs).
use fstx.Base.{
  ℕ, zero, suc, List, [], ◌∷◌, map, Option, none, some, Bool, true, false, ◌&&◌, ◌||◌, not, ◌==◌,
  nat_eq, list_eq, if◌then◌else◌, ok, err, ◌>>=◌, fail_if, ok_or, ◌>>◌, list_ord, nat_ord,
}
use fstx.Base.Map.{BTreeMap}
use fstx.Path.{Name, RelPath}
use fstx.Error.{ErrorKind}
use fstx.Vfs.{FileId, Meta, IoResult}
use fstx.Sim.{
  Node, file_node, dir_node, symlink_node, Image, Entries, node_at, entries, lookup, resolve_dir,
}
use fstx.Sim.State.{State, alive, ci, file_id, meta, parent_and_leaf, check_parent, lookup_leaf}

unfoldable pub root_id : State → IoResult FileId
unfolding alive file_id
root_id st = do alive st; ok (file_id st.vol.root_ino st)

unfoldable pub stat : RelPath → State → IoResult (Option Meta)
unfolding alive lookup_leaf meta
stat p st = do
  alive st
  found ← lookup_leaf p st
  ok (elim found [ some ino ↦ some (meta ino st) | none ↦ none ])

-- The inode at a path, which has to be there.
unfoldable pub existing : RelPath → State → IoResult ℕ
unfolding lookup_leaf
existing p st = do found ← lookup_leaf p st; ok_or found ErrorKind.not_found

unfoldable pub file_bytes : Option Node → IoResult (List ℕ)
file_bytes (some (file_node bytes mode)) = ok bytes
file_bytes (some (dir_node es mode)) = err ErrorKind.invalid_input
file_bytes (some symlink_node) = err ErrorKind.invalid_input
file_bytes none = err ErrorKind.invalid_input

unfoldable pub read_file : RelPath → State → IoResult (List ℕ)
unfolding alive existing file_bytes
read_file p st = do alive st; ino ← existing p st; file_bytes (node_at ino st.vol)

unfoldable pub names : Option Entries → List Name
names none = []
names (some es) = map (λ e. e.0) es

unfoldable pub read_dir : RelPath → State → IoResult (List Name)
unfolding alive names
read_dir p st = do alive st; d ← resolve_dir p (ci st) st.vol; ok (names (entries d st.vol))

unfoldable pub check_free : Option (Name × ℕ) → IoResult (Unit {0})
check_free none = ok tt
check_free (some e) = err ErrorKind.already_exists

-- What `create_file` and `mkdir` check: nothing is at the path.
unfoldable pub free_place : RelPath → State → IoResult (ℕ × Name)
unfolding parent_and_leaf check_free
free_place p st = do
  place ← parent_and_leaf p st
  check_free (lookup place.0 place.1 (ci st) st.vol)
  ok place

-- The entry at a place, whose name is the one that the directory has.
unfoldable pub entry_at : ℕ → Name → State → IoResult (Name × ℕ)
entry_at d leaf st = ok_or (lookup d leaf (ci st) st.vol) ErrorKind.not_found

unfoldable pub is_dir_node : Option Node → Bool
is_dir_node (some (dir_node es mode)) = true
is_dir_node (some (file_node bytes mode)) = false
is_dir_node (some symlink_node) = false
is_dir_node none = false

-- What `unlink` checks.
unfoldable pub removable : RelPath → Option FileId → State → IoResult (ℕ × Name × ℕ)
unfolding parent_and_leaf check_parent entry_at is_dir_node
removable p expect_parent st = do
  place ← parent_and_leaf p st
  check_parent place.0 expect_parent st
  entry ← entry_at place.0 place.1 st
  fail_if (is_dir_node (node_at entry.1 st.vol)) ErrorKind.is_a_directory
  ok (place.0, entry.0, entry.1)

unfoldable pub check_empty : Option Entries → IoResult (Unit {0})
check_empty none = err ErrorKind.not_a_directory
check_empty (some []) = ok tt
check_empty (some (e ∷ es)) = err ErrorKind.directory_not_empty

-- What `rmdir` checks.
unfoldable pub removable_dir : RelPath → State → IoResult (ℕ × Name × ℕ)
unfolding parent_and_leaf entry_at check_empty
removable_dir p st = do
  place ← parent_and_leaf p st
  entry ← entry_at place.0 place.1 st
  check_empty (entries entry.1 st.vol)
  ok (place.0, entry.0, entry.1)

-- `entries.values().any(|&v| v == cur)`
unfoldable pub has_value : ℕ → Entries → Bool
has_value cur [] = false
has_value cur ((name, v) ∷ es) = v == cur || has_value cur es

-- The first directory that has an entry for the inode.
unfoldable pub parent_of : ℕ → BTreeMap ℕ Node → Option ℕ
unfolding has_value
parent_of cur [] = none
parent_of cur ((k, dir_node es mode) ∷ nodes) =
    if has_value cur es then some k else parent_of cur nodes
parent_of cur ((k, file_node bytes mode) ∷ nodes) = parent_of cur nodes
parent_of cur ((k, symlink_node) ∷ nodes) = parent_of cur nodes

-- Whether the way up from `cur` meets the inode; the fuel is what `guard` has left to count.
unfoldable pub climbs_to : ℕ → ℕ → ℕ → Image → Bool
unfolding parent_of
climbs_to zero ino cur img = cur == ino
climbs_to (suc left) ino cur img =
    cur == ino
    || not (cur == img.root_ino)
      && (elim (parent_of cur img.nodes) [ some p ↦ climbs_to left ino p img | none ↦ false ])

-- `guard > 10_000` ends the loop.
abbrev pub climb_limit : ℕ
climb_limit = 10001

-- The directory and the name at both ends, the inode number, and whether a directory moves.
abbrev pub Move : Type 0
Move = ℕ × Name × ℕ × Name × ℕ × Bool

-- What `rename_noreplace` checks.
unfoldable pub movable : RelPath → Option FileId → RelPath → Option FileId → State → IoResult Move
unfolding parent_and_leaf check_parent entry_at check_free is_dir_node climbs_to
movable from expect_from to expect_to st = do
  fail_if (not st.cfg.noreplace) ErrorKind.unsupported
  source ← parent_and_leaf from st
  target ← parent_and_leaf to st
  check_parent source.0 expect_from st
  check_parent target.0 expect_to st
  entry ← entry_at source.0 source.1 st
  check_free (lookup target.0 target.1 (ci st) st.vol)
  let is_dir = is_dir_node (node_at entry.1 st.vol)
  fail_if (is_dir && climbs_to climb_limit entry.1 target.0 st.vol) ErrorKind.invalid_input
  ok (source.0, entry.0, target.0, target.1, entry.1, is_dir)
