-- ===== src/Sim/Backend.antt =====
-- The simulator as a backend, its test setup and its crash control (src/sim.rs).
use fstx.Base.{
  ℕ, ◌+◌, List, [], ◌∷◌, ◌++◌, Option, none, some, Bool, true, false, nat_eq, list_eq,
  if◌then◌else◌, ok, err, list_ord, nat_ord,
}
use fstx.Base.Action.{Action}
use fstx.Base.Map.{insert}
use fstx.Path.{Name, RelPath}
use fstx.Error.{ErrorKind}
use fstx.Vfs.{Vfs, Event, stabilized, IoResult, default_probe}
use fstx.Sim.{
  Node, file_node, dir_node, symlink_node, Image, Entries, node_at, change_entries, entries,
  dir_mode, file_mode,
}
use fstx.Sim.State.{SimConfig, State, new_state, alive, parent_and_leaf, lookup_leaf}
use fstx.Sim.Crash.{durable}
use fstx.Sim.Calls
use fstx.Sim.Changes

-- The state with the snapshot of the moment when recovery had stabilized it; the snapshot itself has
-- none.
pub record SimFs : Type 0 where
  pub st : State
  pub stabilized_st : Option State

unfoldable pub new : SimConfig → SimFs
unfolding new_state
new cfg = record { st = new_state cfg; stabilized_st = none }

unfoldable pub put_found : ℕ → Name → ℕ → Node → Option Entries → Image → Image
unfolding change_entries
put_found d leaf ino n none img = img
put_found d leaf ino n (some es) img =
    let linked = change_entries d (insert leaf ino) img in
    record linked { nodes = insert ino n linked.nodes }

-- Without the directory nothing is put.
unfoldable pub put_in : ℕ → Name → ℕ → Node → Image → Image
unfolding put_found entries
put_in d leaf ino n img = put_found d leaf ino n (entries d img) img

-- `none` is the panic of `expect`.
unfoldable pub put_at : Node → IoResult (ℕ × Name) → State → Option State
unfolding put_in
put_at n (err e) st = none
put_at n (ok (d, leaf)) st = some (record st {
  next_ino = st.next_ino + 1;
  vol = put_in d leaf st.next_ino n st.vol;
  dur = put_in d leaf st.next_ino n st.dur;
})

unfoldable pub put : RelPath → Node → State → Option State
unfolding parent_and_leaf put_at
put p n st = put_at n (parent_and_leaf p st) st

unfoldable pub put_file : RelPath → List ℕ → State → Option State
unfolding put
put_file p bytes = put p (file_node bytes file_mode)

unfoldable pub put_dir : RelPath → State → Option State
unfolding put
put_dir p = put p (dir_node [] dir_mode)

unfoldable pub put_symlink : RelPath → State → Option State
unfolding put
put_symlink p = put p symlink_node

-- `lookup_leaf(p).unwrap().expect("exists")`
unfoldable pub expect_found : IoResult (Option ℕ) → Option ℕ
expect_found (ok found) = found
expect_found (err e) = none

unfoldable pub expect_leaf : RelPath → State → Option ℕ
unfolding lookup_leaf expect_found
expect_leaf p st = expect_found (lookup_leaf p st)

unfoldable pub link_at : Option ℕ → IoResult (ℕ × Name) → State → Option State
unfolding change_entries
link_at none place st = none
link_at (some ino) (err e) st = none
link_at (some ino) (ok (d, leaf)) st = some (record st {
  vol = change_entries d (insert leaf ino) st.vol;
  dur = change_entries d (insert leaf ino) st.dur;
})

unfoldable pub put_hardlink : RelPath → RelPath → State → Option State
unfolding expect_leaf parent_and_leaf link_at
put_hardlink existing p st = link_at (expect_leaf existing st) (parent_and_leaf p st) st

unfoldable pub overwrite_found : ℕ → List ℕ → Option Node → Image → Image
overwrite_found ino bytes (some (file_node old mode)) img = record img {
  nodes = insert ino (file_node bytes mode) img.nodes;
}
overwrite_found ino bytes (some (dir_node es mode)) img = img
overwrite_found ino bytes (some symlink_node) img = img
overwrite_found ino bytes none img = img

unfoldable pub overwrite : ℕ → List ℕ → Image → Image
unfolding overwrite_found
overwrite ino bytes img = overwrite_found ino bytes (node_at ino img) img

unfoldable pub tamper_at : List ℕ → Option ℕ → State → Option State
unfolding overwrite
tamper_at bytes none st = none
tamper_at bytes (some ino) st =
    some (record st { vol = overwrite ino bytes st.vol; dur = overwrite ino bytes st.dur })

unfoldable pub tamper_file : RelPath → List ℕ → State → Option State
unfolding expect_leaf tamper_at
tamper_file p bytes st = tamper_at bytes (expect_leaf p st) st

unfoldable pub crash_after : ℕ → State → State
crash_after n st = record st { budget = some (st.calls + n) }

unfoldable pub clear_events : State → State
clear_events st = record st { events = [] }

-- The process dies; the kernel and its caches survive.
unfoldable pub process_kill : SimFs → SimFs
process_kill fs = record {
  st = record fs.st { crashed = false; budget = none };
  stabilized_st = none;
}

unfoldable pub durable_at_stabilize : SimFs → Option State
unfolding durable
durable_at_stabilize fs = elim fs.stabilized_st [ none ↦ none | some st ↦ some (durable st) ]

unfoldable pub is_stabilized : Event → Bool
is_stabilized stabilized = true
is_stabilized Event.prepared = false
is_stabilized Event.committed = false
is_stabilized Event.undone = false

unfoldable pub event : Event → SimFs → SimFs
unfolding is_stabilized
event e fs =
    let st' = record fs.st { events = fs.st.events ++ (e ∷ []) } in
    record { st = st'; stabilized_st = if is_stabilized e then some st' else fs.stabilized_st }

-- A call works on the state and leaves the snapshot.
unfoldable pub on_state : {A : Type 0} → Action State ErrorKind A → Action SimFs ErrorKind A
on_state m fs = let r = m fs.st in (r.0, record fs { st = r.1 })

unfoldable pub sim_vfs : Vfs
unfolding on_state default_probe
sim_vfs = record {
  State = SimFs;
  root_id = λ fs. Calls.root_id fs.st;
  stat = λ p fs. Calls.stat p fs.st;
  read_file = λ p fs. Calls.read_file p fs.st;
  read_dir = λ p fs. Calls.read_dir p fs.st;
  create_file = λ p bytes mode. on_state (Changes.create_file p bytes mode);
  append = λ p more. on_state (Changes.append p more);
  mkdir = λ p. on_state (Changes.mkdir p);
  rename_noreplace = λ from expect_from to expect_to.
      on_state (Changes.rename_noreplace from expect_from to expect_to);
  unlink = λ p expect_parent. on_state (Changes.unlink p expect_parent);
  rmdir = λ p. on_state (Changes.rmdir p);
  sync_file = λ p. on_state (Changes.sync_file p);
  sync_dir = λ p. on_state (Changes.sync_dir p);
  lock = λ exclusive fs. alive fs.st;
  untrusted_fs_type = λ fs. ok none;
  probe_cache_key = none;
  probe = λ p expect_parent fs. default_probe Calls.stat p expect_parent fs.st;
  event = event;
}
