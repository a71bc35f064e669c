-- ===== src/Sim.antt =====
-- The simulated filesystem's images: nodes by inode number, and paths resolved through them
-- (src/sim.rs). An image is what is visible or what is durable.
pub mod State
pub mod Crash
pub mod Calls
pub mod Changes
pub mod Backend
pub mod Namespace
pub mod Agrees
pub mod Grows
pub mod Persist
pub mod Kept
pub mod Coherent
pub mod Found
pub mod Kinds
pub mod CallsKeep
pub mod MovesKeep
pub mod SyncsKeep
pub mod Loss
pub mod Setup
pub mod Synced
pub mod Reachable
pub mod Outcomes
pub mod Restart
pub mod Budget
pub mod Torn
mod Tests
use fstx.Base.{
  ℕ, zero, suc, ◌+◌, ◌-◌, ◌*◌, ◌/◌, ◌%◌, ◌≤◌, ◌<◌, List, [], ◌∷◌, ◌++◌, map, Option, none, some,
  Bool, true, false, ◌&&◌, ◌||◌, not, ltb, leb, ◌==◌, nat_eq, list_eq, if◌then◌else◌, length, take,
  drop, is_empty, contains, any, all, ◌≡◌, refl, sym, ap, ◌∙◌, ◌≢◌, ◌↔◌, ◌⊎◌, inl, inr, arith,
  Bool-cases, Option-cases, ==_iff, ==_refl, Result, ok, err, ◌>>=◌, All, take-append, drop-append,
  take-append-drop, length-append, get_elem?, length-take_of_le, All-append, ok-injective,
  >>=-eq-ok, contains-append, length-set, all_below, all_below_sound, set, fail_if, ok_or, for_each,
  ◌>>◌, map_ok, replicate, Eq, Ord, list_ord, nat_ord,
}
use fstx.Base.Map.{BTreeMap, get, insert, remove}
use fstx.Path.{Name, RelPath, to_ascii_lowercase}
use fstx.Error.{ErrorKind}
use fstx.Vfs.{Kind, file, dir, symlink, other, IoResult}

abbrev pub BTreeSet : Type 0 → Type 0
BTreeSet K = BTreeMap K (Unit {0})

abbrev pub Entries : Type 0
Entries = BTreeMap Name ℕ

-- A file has its data and its mode, a directory its entries and its mode.
pub data Node : Type 0 where
  file_node : List ℕ → ℕ → Node
  dir_node : Entries → ℕ → Node
  symlink_node : Node

pub record Image : Type 0 where
  pub nodes : BTreeMap ℕ Node
  pub root_ino : ℕ

-- `0o755`
abbrev pub dir_mode : ℕ
dir_mode = 493

-- `0o644`
abbrev pub file_mode : ℕ
file_mode = 420

unfoldable pub empty : Image
empty = record { nodes = (1, dir_node [] dir_mode) ∷ []; root_ino = 1 }

-- `nodes.get(&ino)`
abbrev pub node_at : ℕ → Image → Option Node
node_at ino img = get ino img.nodes

unfoldable pub entries_of : Option Node → Option Entries
entries_of (some (dir_node es mode)) = some es
entries_of (some (file_node bytes mode)) = none
entries_of (some symlink_node) = none
entries_of none = none

unfoldable pub entries : ℕ → Image → Option Entries
unfolding entries_of
entries d img = entries_of (node_at d img)

-- The nodes once the entries of the directory that was found at `d` are changed.
unfoldable pub change_found :
    ℕ → (Entries → Entries) → Option Node → BTreeMap ℕ Node → BTreeMap ℕ Node
change_found d f (some (dir_node es mode)) nodes = insert d (dir_node (f es) mode) nodes
change_found d f (some (file_node bytes mode)) nodes = nodes
change_found d f (some symlink_node) nodes = nodes
change_found d f none nodes = nodes

-- `entries_mut(d)` and a change of the entries; without that directory nothing changes.
unfoldable pub change_entries : ℕ → (Entries → Entries) → Image → Image
unfolding change_found
change_entries d f img = record img { nodes = change_found d f (node_at d img) img.nodes }

unfoldable pub fold_name : Name → Name
unfolding to_ascii_lowercase
fold_name n = to_ascii_lowercase n

-- The first entry whose name folds to this one.
unfoldable pub find_folded : Name → Entries → Option (Name × ℕ)
find_folded folded [] = none
find_folded folded ((k, v) ∷ es) =
    if fold_name k == folded then some (k, v) else find_folded folded es

-- An entry of exactly this name, or else, when case is folded, the first whose name folds to it.
unfoldable pub find_inexact : Option ℕ → Name → Bool → Entries → Option (Name × ℕ)
unfolding find_folded fold_name
find_inexact (some ino) name ci es = some (name, ino)
find_inexact none name true es = find_folded (fold_name name) es
find_inexact none name false es = none

unfoldable pub find_entry : Name → Bool → Option Entries → Option (Name × ℕ)
unfolding find_inexact
find_entry name ci none = none
find_entry name ci (some es) = find_inexact (get name es) name ci es

unfoldable pub lookup : ℕ → Name → Bool → Image → Option (Name × ℕ)
unfolding find_entry entries
lookup d name ci img = find_entry name ci (entries d img)

-- The directory that a name in `cur` leads to.
unfoldable pub enter : ℕ → Option Node → IoResult ℕ
enter ino (some (dir_node es mode)) = ok ino
enter ino (some symlink_node) = err ErrorKind.invalid_input
enter ino (some (file_node bytes mode)) = err ErrorKind.not_a_directory
enter ino none = err ErrorKind.not_a_directory

unfoldable pub enter_found : Option (Name × ℕ) → Image → IoResult ℕ
unfolding enter
enter_found none img = err ErrorKind.not_found
enter_found (some (name, ino)) img = enter ino (node_at ino img)

unfoldable pub resolve_name : ℕ → Name → Bool → Image → IoResult ℕ
unfolding lookup enter_found
resolve_name cur c ci img = enter_found (lookup cur c ci img) img

unfoldable pub resolve_from : ℕ → RelPath → Bool → Image → IoResult ℕ
resolve_from cur [] ci img = ok cur
resolve_from cur (c ∷ cs) ci img = do next ← resolve_name cur c ci img; resolve_from next cs ci img

unfoldable pub resolve_dir : RelPath → Bool → Image → IoResult ℕ
resolve_dir p ci img = resolve_from img.root_ino p ci img
