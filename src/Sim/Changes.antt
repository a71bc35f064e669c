-- ===== src/Sim/Changes.antt =====
-- The calls of the simulated filesystem that change it (src/sim.rs).
use fstx.Base.{
  ℕ, ◌+◌, List, [], ◌∷◌, ◌++◌, Option, none, some, Bool, true, false, nat_eq, list_eq, ok, err,
  list_ord, nat_ord,
}
use fstx.Base.Action.{Action, ◌>>=◌, ◌>>◌, reads}
use fstx.Base.Map.{insert, remove}
use fstx.Path.{Name, RelPath}
use fstx.Error.{ErrorKind}
use fstx.Vfs.{FileId, Meta}
use fstx.Sim.{
  Node, file_node, dir_node, symlink_node, Image, node_at, change_entries, resolve_dir, dir_mode,
  file_mode,
}
use fstx.Sim.State.{Op, link, rename, Pending, State, count, ci, salt, meta, record_op}
use fstx.Sim.Crash.{fold}
use fstx.Sim.Calls.{existing, free_place, removable, removable_dir, Move, movable}

abbrev pub Call : Type 0 → Type 0
Call = Action State ErrorKind

-- A new inode under the name, and the link noted.
unfoldable pub add_node : Node → ℕ → Name → State → State
unfolding record_op change_entries
add_node n d leaf st =
    let ino = st.next_ino in
    record_op (link d leaf ino) (record st {
      next_ino = ino + 1;
      vol =
          change_entries d (insert leaf ino) (record st.vol { nodes = insert ino n st.vol.nodes });
    })

unfoldable pub mark_dirty : ℕ → State → State
mark_dirty ino st = record st { dirty = insert ino tt st.dirty }

-- `mode.unwrap_or(0o644)`
unfoldable pub mode_or_default : Option ℕ → ℕ
mode_or_default none = file_mode
mode_or_default (some mode) = mode

unfoldable pub add_file : List ℕ → Option ℕ → ℕ × Name → Call Meta
unfolding add_node mark_dirty meta
add_file bytes mode (d, leaf) st =
    let st' =
      mark_dirty st.next_ino (add_node (file_node bytes (mode_or_default mode)) d leaf st) in
    (ok (meta st.next_ino st'), st')

unfoldable pub create_file : RelPath → List ℕ → Option ℕ → Call Meta
unfolding count free_place add_file
create_file p bytes mode = do count; place ← reads (free_place p); add_file bytes mode place

unfoldable pub add_dir : ℕ × Name → Call Meta
unfolding add_node meta
add_dir (d, leaf) st =
    let st' = add_node (dir_node [] dir_mode) d leaf st in (ok (meta st.next_ino st'), st')

unfoldable pub mkdir : RelPath → Call Meta
unfolding count free_place add_dir
mkdir p = do count; place ← reads (free_place p); add_dir place

unfoldable pub append_found : List ℕ → ℕ → Option Node → Call (Unit {0})
unfolding mark_dirty
append_found more ino (some (file_node bytes mode)) st = (
  ok tt,
  mark_dirty ino (record st {
    vol = record st.vol { nodes = insert ino (file_node (bytes ++ more) mode) st.vol.nodes };
  }),
)
append_found more ino (some (dir_node es mode)) st = (err ErrorKind.invalid_input, st)
append_found more ino (some symlink_node) st = (err ErrorKind.invalid_input, st)
append_found more ino none st = (err ErrorKind.invalid_input, st)

unfoldable pub append_to : List ℕ → ℕ → Call (Unit {0})
unfolding append_found
append_to more ino st = append_found more ino (node_at ino st.vol) st

unfoldable pub append : RelPath → List ℕ → Call (Unit {0})
unfolding count existing append_to
append p more = do count; ino ← reads (existing p); append_to more ino

-- `*st.id_salt.entry(ino).or_insert(0) += 1` when identities do not survive a rename.
unfoldable pub change_id : Bool → ℕ → State → State
unfolding salt
change_id true ino st = st
change_id false ino st = record st { id_salt = insert ino (salt ino st + 1) st.id_salt }

unfoldable pub move_entry : ℕ → Name → ℕ → Name → ℕ → Image → Image
unfolding change_entries
move_entry fdir fname tdir tname ino img =
    change_entries tdir (insert tname ino) (change_entries fdir (remove fname) img)

unfoldable pub move_node : Move → Call (Unit {0})
unfolding change_id move_entry record_op
move_node (fdir, fname, tdir, tname, ino, is_dir) st = (
  ok tt,
  record_op (rename fdir fname tdir tname ino is_dir) (
      change_id st.cfg.stable_ids ino
        (record st { vol = move_entry fdir fname tdir tname ino st.vol })),
)

unfoldable pub rename_noreplace :
    RelPath → Option FileId → RelPath → Option FileId → Call (Unit {0})
unfolding count movable move_node
rename_noreplace from expect_from to expect_to = do
  count
  move ← reads (movable from expect_from to expect_to)
  move_node move

unfoldable pub remove_node : ℕ × Name × ℕ → Call (Unit {0})
unfolding record_op change_entries
remove_node (d, name, ino) st = (
  ok tt,
  record_op (Op.unlink d name ino) (record st { vol = change_entries d (remove name) st.vol }),
)

unfoldable pub unlink : RelPath → Option FileId → Call (Unit {0})
unfolding count removable remove_node
unlink p expect_parent = do count; entry ← reads (removable p expect_parent); remove_node entry

unfoldable pub rmdir : RelPath → Call (Unit {0})
unfolding count removable_dir remove_node
rmdir p = do count; entry ← reads (removable_dir p); remove_node entry

-- What is durable of a file once its data is synced: a file that is there keeps its mode.
unfoldable pub synced_node : List ℕ → ℕ → Option Node → Node
synced_node bytes mode (some (file_node old m)) = file_node bytes m
synced_node bytes mode (some (dir_node es m)) = file_node bytes mode
synced_node bytes mode (some symlink_node) = file_node bytes mode
synced_node bytes mode none = file_node bytes mode

unfoldable pub sync_found : ℕ → Option Node → Call (Unit {0})
unfolding synced_node
sync_found ino (some (file_node bytes mode)) st = (
  ok tt,
  record st {
    dur = record st.dur {
      nodes = insert ino (synced_node bytes mode (node_at ino st.dur)) st.dur.nodes;
    };
    dirty = remove ino st.dirty;
  },
)
sync_found ino (some (dir_node es mode)) st = (err ErrorKind.invalid_input, st)
sync_found ino (some symlink_node) st = (err ErrorKind.invalid_input, st)
sync_found ino none st = (err ErrorKind.invalid_input, st)

unfoldable pub sync_node : ℕ → Call (Unit {0})
unfolding sync_found
sync_node ino st = sync_found ino (node_at ino st.vol) st

unfoldable pub sync_file : RelPath → Call (Unit {0})
unfolding count existing sync_node
sync_file p = do count; ino ← reads (existing p); sync_node ino

unfoldable pub synced_in : ℕ → List Pending → List Pending
synced_in d [] = []
synced_in d (p ∷ ps) = record p { unsynced = remove d p.unsynced } ∷ synced_in d ps

unfoldable pub sync_entries : ℕ → Call (Unit {0})
unfolding synced_in fold
sync_entries d st = (ok tt, fold (record st { pending = synced_in d st.pending }))

unfoldable pub sync_dir : RelPath → Call (Unit {0})
unfolding count sync_entries resolve_dir
sync_dir p = do count; d ← reads (λ st. resolve_dir p (ci st) st.vol); sync_entries d
