-- ===== src/Sim/Crash.antt =====
-- What becomes durable, and what a power loss leaves (src/sim.rs).
use fstx.Base.{
  ℕ, zero, suc, ◌/◌, ◌%◌, List, [], ◌∷◌, ◌++◌, map, Option, none, some, Bool, true, false, ◌==◌,
  nat_eq, list_eq, if◌then◌else◌, length, take, list_ord, nat_ord,
}
use Prim.Native.Nat.{bit_xor}
use fstx.Base.Map.{BTreeMap, get, insert, remove}
use fstx.Path.{Name}
use fstx.Sim.{
  Node, file_node, dir_node, symlink_node, Image, Entries, BTreeSet, node_at, entries,
  change_entries,
}
use fstx.Sim.State.{
  strict, weak, SimConfig, Op, link, unlink, rename, Pending, Violation, overwritten, State,
}

pub data Fate : Type 0 where
  drop apply both_names : Fate

-- An image and the violations seen so far.
abbrev pub Replay : Type 0
Replay = Image × List Violation

-- The node that an image gets for an inode that it has not: without the data and the entries.
unfoldable pub bare_node : Option Node → Node
bare_node (some (file_node bytes mode)) = file_node [] mode
bare_node (some (dir_node es mode)) = dir_node [] mode
bare_node (some symlink_node) = symlink_node
bare_node none = symlink_node

unfoldable pub ensure_found : ℕ → Node → Option Node → BTreeMap ℕ Node → BTreeMap ℕ Node
ensure_found ino bare (some n) nodes = nodes
ensure_found ino bare none nodes = insert ino bare nodes

unfoldable pub ensure_node : Image → ℕ → Image → Image
unfolding bare_node ensure_found
ensure_node vol ino img = record img {
  nodes = ensure_found ino (bare_node (node_at ino vol)) (node_at ino img) img.nodes;
}

unfoldable pub is_the : Option ℕ → ℕ → Bool
is_the none ino = false
is_the (some i) ino = i == ino

-- `e.get(name) == Some(ino)`
unfoldable pub holds : Name → ℕ → Entries → Bool
unfolding is_the
holds name ino es = is_the (get name es) ino

-- A name that already stands for another inode.
unfoldable pub overwrites : ℕ → Name → ℕ → Image → List Violation
overwrites d name ino img = elim (entries d img) [
  | none ↦ []
  | some es ↦ elim (get name es) [
    | none ↦ []
    | some old ↦ if old == ino then [] else overwritten d name ∷ []
  ]
]

-- The closure `insert`: its `expect` is that `d` is a directory.
unfoldable pub insert_entry : Image → ℕ → Name → ℕ → Replay → Replay
unfolding ensure_node overwrites
insert_entry vol d name ino (img, vs) =
    let ready = ensure_node vol ino (ensure_node vol d img) in
    (change_entries d (insert name ino) ready, vs ++ overwrites d name ino ready)

unfoldable pub remove_held : Name → ℕ → Entries → Entries
unfolding holds
remove_held name ino es = if holds name ino es then remove name es else es

unfoldable pub remove_entry : ℕ → Name → ℕ → Replay → Replay
unfolding remove_held
remove_entry d name ino (img, vs) = (change_entries d (remove_held name ino) img, vs)

-- An op that persists; `keeps` is the rename under which both names do.
unfoldable pub persist : Image → Op → Bool → Replay → Replay
unfolding insert_entry remove_entry
persist vol (link d name ino) keeps r = insert_entry vol d name ino r
persist vol (unlink d name ino) keeps r = remove_entry d name ino r
persist vol (rename fdir fname tdir tname ino is_dir) keeps r =
    insert_entry vol tdir tname ino (if keeps then r else remove_entry fdir fname ino r)

unfoldable pub apply_op : Image → Op → Fate → Replay → Replay
unfolding persist
apply_op vol op Fate.drop r = r
apply_op vol op apply r = persist vol op false r
apply_op vol op both_names r = persist vol op true r

-- The ops at the front that every directory is synced for become durable, in order.
unfoldable pub fold_pending : Image → List Pending → Image → Image × List Pending
unfolding apply_op
fold_pending vol [] dur = (dur, [])
fold_pending vol (p ∷ ps) dur = elim p.unsynced [
  | [] ↦ fold_pending vol ps (apply_op vol p.op apply (dur, [])).0
  | (d ∷ ds) ↦ (dur, p ∷ ps)
]

unfoldable pub fold : State → State
unfolding fold_pending
fold st =
    let (dur, rest) = fold_pending st.vol st.pending st.dur in
    record st { dur = dur; pending = rest }

unfoldable pub strip_prefix : List ℕ → List ℕ → Option (List ℕ)
strip_prefix [] new = some new
strip_prefix (x ∷ old) [] = none
strip_prefix (x ∷ old) (y ∷ new) = if x == y then strip_prefix old new else none

-- `0xde 0xad` when there is nothing else that could be garbage.
unfoldable pub garbage : List ℕ → List ℕ
garbage [] = 222 ∷ 173 ∷ []
garbage (b ∷ tail) = map (λ c. bit_xor c 90) (b ∷ tail)

unfoldable pub variant_of : ℕ → List ℕ → List ℕ → List ℕ → List ℕ → List ℕ
unfolding garbage
variant_of zero old new base tail = old
variant_of (suc zero) old new base tail = new
variant_of (suc (suc zero)) old new base tail = base ++ take (length tail / 2) tail
variant_of (suc (suc (suc n))) old new base tail = base ++ garbage tail

-- By the tail that the visible data adds to the synced data, if it only adds one.
unfoldable pub variant_by : Option (List ℕ) → List ℕ → List ℕ → ℕ → List ℕ
unfolding variant_of
variant_by (some tail) old new seed = variant_of (seed % 4) old new old tail
variant_by none old new seed = variant_of (seed % 4) old new [] new

-- What may be on disk of a file whose synced data is `old` and whose visible data is `new`.
unfoldable pub data_variant : List ℕ → List ℕ → ℕ → List ℕ
unfolding strip_prefix variant_by
data_variant old new seed = variant_by (strip_prefix old new) old new seed

-- The ops of `pending` in order, each volatile one with the next fate, or dropped without one.
unfoldable pub next_fate : Pending → List Fate → Fate × List Fate
next_fate p fates = elim p.unsynced [
  | [] ↦ (apply, fates)
  | (d ∷ ds) ↦ elim fates [ [] ↦ (Fate.drop, []) | f ∷ fs ↦ (f, fs) ]
]

unfoldable pub lose_ops : Image → List Pending → List Fate → Replay → Replay
unfolding next_fate apply_op
lose_ops vol [] fates r = r
lose_ops vol (p ∷ ps) fates r =
    lose_ops vol ps (next_fate p fates).1 (apply_op vol p.op (next_fate p fates).0 r)

-- The nodes once a file that was visible and found durable has some of its unsynced data.
unfoldable pub garble : ℕ → ℕ → Option Node → Option Node → BTreeMap ℕ Node → BTreeMap ℕ Node
unfolding data_variant
garble seed ino (some (file_node new m)) (some (file_node old mode)) nodes =
    insert ino (file_node (data_variant old new seed) mode) nodes
garble seed ino _ _ nodes = nodes

unfoldable pub lose_data : Image → ℕ → BTreeSet ℕ → Image → Image
unfolding garble
lose_data vol seed [] img = img
lose_data vol seed ((ino, _) ∷ dirty) img =
    lose_data vol seed dirty
      (record img { nodes = garble seed ino (node_at ino vol) (node_at ino img) img.nodes })

unfoldable pub power_loss : List Fate → ℕ → State → State
unfolding lose_ops lose_data
power_loss fates seed st =
    let r = lose_ops st.vol st.pending fates (st.dur, st.violations) in
    let img = lose_data st.vol seed st.dirty r.0 in
    record {
      cfg = st.cfg;
      vol = img;
      dur = img;
      pending = [];
      dirty = [];
      next_ino = st.next_ino;
      id_salt = st.id_salt;
      budget = none;
      calls = 0;
      mutations = 0;
      crashed = false;
      events = [];
      violations = r.1;
    }

unfoldable pub durable : State → State
unfolding power_loss
durable st = power_loss [] 0 st

unfoldable pub is_file_rename : Op → Bool
is_file_rename (rename fdir fname tdir tname ino false) = true
is_file_rename _ = false

unfoldable pub flags : SimConfig → List Pending → List Bool
unfolding is_file_rename
flags cfg [] = []
flags cfg (p ∷ ps) = elim p.unsynced [
  | [] ↦ flags cfg ps
  | (d ∷ ds) ↦ elim cfg.profile [ weak ↦ is_file_rename p.op | strict ↦ false ] ∷ flags cfg ps
]

-- The ops that a power loss may drop, and whether each may persist under both names.
unfoldable pub volatile_ops : State → List Bool
unfolding flags
volatile_ops st = flags st.cfg st.pending
