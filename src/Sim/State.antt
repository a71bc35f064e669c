-- ===== src/Sim/State.antt =====
-- The simulator's state: the visible and the durable image, and the namespace changes that are not
-- durable yet (src/sim.rs).
use fstx.Base.{
  ℕ, ◌+◌, ◌*◌, List, [], ◌∷◌, ◌++◌, Option, none, some, Bool, true, false, ◌&&◌, not, leb, ◌==◌,
  nat_eq, list_eq, if◌then◌else◌, length, is_empty, ok, err, fail_if, ok_or, list_ord, nat_ord,
}
use fstx.Base.Action.{Action}
use fstx.Base.{◌>>=◌}
use fstx.Base.Map.{BTreeMap, get, insert}
use fstx.Path.{Name, RelPath, file_name, parent_or_root, is_root}
use fstx.Error.{ErrorKind}
use fstx.Vfs.{FileId, file_id_eq, Kind, file, dir, symlink, Meta, Event, IoResult}
use fstx.Sim.{
  Node, file_node, dir_node, symlink_node, Image, Entries, BTreeSet, node_at, empty, lookup,
  resolve_dir,
}

pub data Profile : Type 0 where
  strict weak : Profile

pub record SimConfig : Type 0 where
  pub profile : Profile
  pub noreplace : Bool
  pub stable_ids : Bool
  pub case_insensitive : Bool

unfoldable pub default_config : SimConfig
default_config = record {
  profile = strict;
  noreplace = true;
  stable_ids = true;
  case_insensitive = false;
}

-- A namespace change: the directory, the name and the inode number, and for a rename both ends
-- and whether a directory moves.
pub data Op : Type 0 where
  link : ℕ → Name → ℕ → Op
  unlink : ℕ → Name → ℕ → Op
  rename : ℕ → Name → ℕ → Name → ℕ → Bool → Op

unfoldable pub dirs : Op → BTreeSet ℕ
dirs (link d name ino) = insert d tt []
dirs (unlink d name ino) = insert d tt []
dirs (rename fdir fname tdir tname ino is_dir) = insert tdir tt (insert fdir tt [])

pub record Pending : Type 0 where
  pub op : Op
  pub unsynced : BTreeSet ℕ

-- The messages that the code formats, by what they show.
pub data Violation : Type 0 where
  reused : ℕ → Name → ℕ → ℕ → Violation
  overwritten : ℕ → Name → Violation

-- `struct State` without the snapshot.
pub record State : Type 0 where
  pub cfg : SimConfig
  pub vol : Image
  pub dur : Image
  pub pending : List Pending
  pub dirty : BTreeSet ℕ
  pub next_ino : ℕ
  pub id_salt : BTreeMap ℕ ℕ
  pub budget : Option ℕ
  pub calls : ℕ
  pub mutations : ℕ
  pub crashed : Bool
  pub events : List Event
  pub violations : List Violation

unfoldable pub new_state : SimConfig → State
new_state cfg = record {
  cfg = cfg;
  vol = empty;
  dur = empty;
  pending = [];
  dirty = [];
  next_ino = 2;
  id_salt = [];
  budget = none;
  calls = 0;
  mutations = 0;
  crashed = false;
  events = [];
  violations = [];
}

-- `calls >= budget`
unfoldable pub is_spent : State → Bool
is_spent st = elim st.budget [ some b ↦ leb b st.calls | none ↦ false ]

unfoldable pub count_if : Bool → Bool → Action State ErrorKind (Unit {0})
count_if true spent st = (err ErrorKind.other, st)
count_if false true st = (err ErrorKind.other, record st { crashed = true })
count_if false false st = (ok tt, record st { calls = st.calls + 1 })

-- One more counted call, or the crash when the budget is spent.
unfoldable pub count : Action State ErrorKind (Unit {0})
unfolding is_spent count_if
count st = count_if st.crashed (is_spent st) st

unfoldable pub alive : State → IoResult (Unit {0})
alive st = if st.crashed then err ErrorKind.other else ok tt

abbrev pub ci : State → Bool
ci st = st.cfg.case_insensitive

-- `id_salt.get(&ino).copied().unwrap_or(0)`
unfoldable pub salt : ℕ → State → ℕ
salt ino st = elim (get ino st.id_salt) [ some n ↦ n | none ↦ 0 ]

unfoldable pub file_id : ℕ → State → FileId
unfolding salt
file_id ino st = record { dev = 1; ino = ino + salt ino st * 1000000000 }

-- How many entries of the directory have the inode number.
unfoldable pub count_entries : ℕ → Entries → ℕ
count_entries ino [] = 0
count_entries ino ((name, i) ∷ es) =
    let rest = count_entries ino es in if i == ino then rest + 1 else rest

unfoldable pub nlink_in : ℕ → BTreeMap ℕ Node → ℕ
unfolding count_entries
nlink_in ino [] = 0
nlink_in ino ((k, dir_node es mode) ∷ nodes) = count_entries ino es + nlink_in ino nodes
nlink_in ino ((k, file_node bytes mode) ∷ nodes) = nlink_in ino nodes
nlink_in ino ((k, symlink_node) ∷ nodes) = nlink_in ino nodes

-- `0o777` for what is neither a file nor a directory.
unfoldable pub node_kind : Option Node → Kind × ℕ × ℕ
node_kind (some (file_node bytes mode)) = (file, length bytes, mode)
node_kind (some (dir_node es mode)) = (dir, 0, mode)
node_kind (some symlink_node) = (symlink, 0, 511)
node_kind none = (symlink, 0, 511)

unfoldable pub meta : ℕ → State → Meta
unfolding node_kind file_id nlink_in
meta ino st = record {
  kind = (node_kind (node_at ino st.vol)).0;
  id = file_id ino st;
  len = (node_kind (node_at ino st.vol)).1;
  mode = (node_kind (node_at ino st.vol)).2;
  nlink = nlink_in ino st.vol.nodes;
}

unfoldable pub parent_and_leaf : RelPath → State → IoResult (ℕ × Name)
parent_and_leaf p st = do
  leaf ← ok_or (file_name p) ErrorKind.invalid_input
  d ← resolve_dir (parent_or_root p) (ci st) st.vol
  ok (d, leaf)

-- Without an expected identity every directory will do.
unfoldable pub check_parent : ℕ → Option FileId → State → IoResult (Unit {0})
unfolding file_id
check_parent d none st = ok tt
check_parent d (some want) st = fail_if (not (file_id d st == want)) ErrorKind.other

-- What a path whose parent is not there gives.
unfoldable pub tolerate_missing : ErrorKind → IoResult (Option ℕ)
tolerate_missing ErrorKind.not_found = ok none
tolerate_missing ErrorKind.not_a_directory = ok none
tolerate_missing e = err e

-- The inode number that a lookup has found.
unfoldable pub ino_of : Option (Name × ℕ) → Option ℕ
ino_of none = none
ino_of (some (name, ino)) = some ino

unfoldable pub leaf_at : IoResult (ℕ × Name) → State → IoResult (Option ℕ)
unfolding tolerate_missing ino_of
leaf_at (ok (d, leaf)) st = ok (ino_of (lookup d leaf (ci st) st.vol))
leaf_at (err e) st = tolerate_missing e

unfoldable pub lookup_leaf : RelPath → State → IoResult (Option ℕ)
unfolding leaf_at parent_and_leaf
lookup_leaf p st =
    if is_root p then ok (some st.vol.root_ino) else leaf_at (parent_and_leaf p st) st

-- The name that an op gives away, and the one that it takes.
unfoldable pub gives_up : Op → Option (ℕ × Name × ℕ)
gives_up (link d name ino) = none
gives_up (unlink d name ino) = some (d, name, ino)
gives_up (rename fdir fname tdir tname ino is_dir) = some (fdir, fname, ino)

unfoldable pub takes : Op → Option (ℕ × Name × ℕ)
takes (link d name ino) = some (d, name, ino)
takes (unlink d name ino) = none
takes (rename fdir fname tdir tname ino is_dir) = some (tdir, tname, ino)

-- A name is taken again for another inode before its removal is durable.
unfoldable pub reuse_of : ℕ → Name → ℕ → Pending → List Violation
unfolding gives_up
reuse_of d name ino p = elim (gives_up p.op) [
  | none ↦ []
  | some (e, n, i) ↦
      if not (is_empty p.unsynced) && e == d && n == name && not (i == ino)
      then reused d name ino i ∷ []
      else []
]

unfoldable pub reuses : ℕ → Name → ℕ → List Pending → List Violation
unfolding reuse_of
reuses d name ino [] = []
reuses d name ino (p ∷ ps) = reuse_of d name ino p ++ reuses d name ino ps

unfoldable pub record_op : Op → State → State
unfolding takes reuses
record_op op st = record st {
  violations =
      st.violations
      ++ elim (takes op) [ none ↦ [] | some (d, name, ino) ↦ reuses d name ino st.pending ];
  mutations = st.mutations + 1;
  pending = st.pending ++ (record { op = op; unsynced = dirs op } ∷ []);
}
