-- ===== src/Sim/Synced.antt =====
-- The simulator's invariant on data: a visible file that is not dirty has its data in the durable
-- image too (src/sim.rs).
use fstx.Base.{
  ℕ, List, [], ◌∷◌, ◌++◌, Option, none, some, Bool, true, false, ◌==◌, nat_eq, list_eq, ◌≡◌, refl,
  sym, ap, ◌∙◌, arith, list_ord, nat_ord, inl, inr, Bool-cases, ok, ok-injective,
}
use fstx.Base.Map.{BTreeMap, get, insert, remove, get-insert, get-remove}
use fstx.Path.{Name, RelPath}
use fstx.Vfs.{FileId}
use fstx.Sim.{
  Node, file_node, dir_node, symlink_node, Image, BTreeSet, Entries, node_at, change_entries,
  resolve_dir, dir_mode,
}
use fstx.Sim.State.{Op, rename, Pending, Violation, State, is_spent, count_if, count, ci, record_op}
use fstx.Sim.Crash.{
  Fate, apply, apply_op, fold_pending, fold, next_fate, lose_ops, garble, data_variant, lose_data,
  power_loss,
}
use fstx.Sim.Calls.{file_bytes, existing, free_place, removable, removable_dir, movable, Move}
use fstx.Sim.Changes.{
  add_node, mark_dirty, mode_or_default, add_file, create_file, add_dir, mkdir, append_found,
  append_to, append, change_id, move_entry, move_node, rename_noreplace, remove_node, unlink, rmdir,
  synced_node, sync_found, sync_node, sync_file, synced_in, sync_entries, sync_dir,
}
use fstx.Sim.Namespace.{with_entries, node_at-change_entries}
use fstx.Sim.Grows.{KeepsFiles}
use fstx.Sim.Kept.{KeepsFiles-apply_op}
use fstx.Sim.Kinds.{with_node, node_at-with_node}
use fstx.Sim.CallsKeep.{Keeps, Keeps-checked}

abbrev pub Synced : Image → Image → BTreeSet ℕ → Type 0
Synced vol dur dirty =
    (i : ℕ) (b : List ℕ)
    → file_bytes (node_at i vol) ≡ ok b
    → get i dirty ≡ none
    → file_bytes (node_at i dur) ≡ ok b

unfoldable pub IsSynced : State → Type 0
IsSynced st = Synced st.vol st.dur st.dirty

file_bytes-with_entries :
    (f : Entries → Entries) (found : Option Node)
    → file_bytes (with_entries f found) ≡ file_bytes found
unfolding with_entries file_bytes
file_bytes-with_entries f none = refl
file_bytes-with_entries f (some (file_node c m)) = refl
file_bytes-with_entries f (some (dir_node es m)) = refl
file_bytes-with_entries f (some symlink_node) = refl

file_bytes-change_entries :
    (d : ℕ) (f : Entries → Entries) (img : Image) (i : ℕ)
    → file_bytes (node_at i (change_entries d f img)) ≡ file_bytes (node_at i img)
file_bytes-change_entries d f img i =
    rw (node_at-change_entries d img f i)
      (ground (arith, file_bytes-with_entries f (node_at d img)))

IsSynced-count_if : (down spent : Bool) → Keeps IsSynced (count_if down spent)
unfolding count_if IsSynced
IsSynced-count_if true spent st h = h
IsSynced-count_if false true st h = h
IsSynced-count_if false false st h = h

IsSynced-count : Keeps IsSynced count
unfolding count
IsSynced-count st = IsSynced-count_if st.crashed (is_spent st) st

IsSynced-add_file :
    (bytes : List ℕ) (mode : Option ℕ) (place : ℕ × Name)
    → Keeps IsSynced (add_file bytes mode place)
unfolding IsSynced add_file mark_dirty add_node record_op
IsSynced-add_file bytes mode (d, leaf) st h i b vol clean =
    let ino = st.next_ino in
    let n = file_node bytes (mode_or_default mode) in
    let vol' : file_bytes (node_at i (with_node ino n st.vol)) ≡ ok b =
      sym (file_bytes-change_entries d (insert leaf ino) (with_node ino n st.vol) i) ∙ vol in
    let other = get-insert i ino tt st.dirty in
    h i b (ground (arith, node_at-with_node ino n st.vol i)) (ground arith)

IsSynced-add_dir : (place : ℕ × Name) → Keeps IsSynced (add_dir place)
unfolding IsSynced add_dir add_node record_op file_bytes
IsSynced-add_dir (d, leaf) st h i b vol clean =
    let ino = st.next_ino in
    let n = dir_node [] dir_mode in
    let vol' : file_bytes (node_at i (with_node ino n st.vol)) ≡ ok b =
      sym (file_bytes-change_entries d (insert leaf ino) (with_node ino n st.vol) i) ∙ vol in
    h i b (ground (arith, node_at-with_node ino n st.vol i)) clean

IsSynced-append_found :
    (more : List ℕ) (ino : ℕ) (found : Option Node) → Keeps IsSynced (append_found more ino found)
unfolding IsSynced append_found mark_dirty
IsSynced-append_found more ino none st h i b vol clean = h i b vol clean
IsSynced-append_found more ino (some symlink_node) st h i b vol clean = h i b vol clean
IsSynced-append_found more ino (some (dir_node es m)) st h i b vol clean = h i b vol clean
IsSynced-append_found more ino (some (file_node bytes mode)) st h i b vol clean =
    let n = file_node (bytes ++ more) mode in
    let other = get-insert i ino tt st.dirty in
    h i b (ground (arith, node_at-with_node ino n st.vol i)) (ground arith)

IsSynced-change_id :
    (op : Op) (stable : Bool) (ino : ℕ) (st : State)
    → IsSynced st
    → IsSynced (record_op op (change_id stable ino st))
unfolding IsSynced change_id record_op
IsSynced-change_id op true ino st h = h
IsSynced-change_id op false ino st h = h

IsSynced-move_node : (move : Move) → Keeps IsSynced (move_node move)
unfolding move_node
IsSynced-move_node (fdir, fname, tdir, tname, ino, is_dir) st h =
    let vol' = move_entry fdir fname tdir tname ino st.vol in
    IsSynced-change_id (rename fdir fname tdir tname ino is_dir) st.cfg.stable_ids ino
      (record st { vol = vol' })
      (unfold IsSynced move_entry in
        (λ i b vol clean.
          h i b
            (sym (
                file_bytes-change_entries tdir (insert tname ino)
                  (change_entries fdir (remove fname) st.vol) i
                ∙ file_bytes-change_entries fdir (remove fname) st.vol i)
              ∙ vol)
            clean))

IsSynced-remove_node : (entry : ℕ × Name × ℕ) → Keeps IsSynced (remove_node entry)
unfolding IsSynced remove_node record_op
IsSynced-remove_node (d, name, ino) st h i b vol clean =
    h i b (sym (file_bytes-change_entries d (remove name) st.vol i) ∙ vol) clean

synced_node-file_bytes :
    (bytes : List ℕ) (mode : ℕ) (found : Option Node)
    → file_bytes (some (synced_node bytes mode found)) ≡ ok bytes
unfolding synced_node file_bytes
synced_node-file_bytes bytes mode (some (file_node old m)) = refl
synced_node-file_bytes bytes mode (some (dir_node es m)) = refl
synced_node-file_bytes bytes mode (some symlink_node) = refl
synced_node-file_bytes bytes mode none = refl

file_bytes-file :
    (bytes : List ℕ) (mode : ℕ) (b : List ℕ)
    → file_bytes (some (file_node bytes mode)) ≡ ok b
    → bytes ≡ b
unfolding file_bytes
file_bytes-file bytes mode b h = ok-injective h

sync_found_lem :
    (ino : ℕ) (st : State) (found : Option Node)
    → node_at ino st.vol ≡ found
    → IsSynced st
    → IsSynced (sync_found ino found st).1
unfolding IsSynced sync_found
sync_found_lem ino st none e h i b vol clean = h i b vol clean
sync_found_lem ino st (some symlink_node) e h i b vol clean = h i b vol clean
sync_found_lem ino st (some (dir_node es m)) e h i b vol clean = h i b vol clean
sync_found_lem ino st (some (file_node bytes mode)) e h i b vol clean =
    let n = synced_node bytes mode (node_at ino st.dur) in
    let same : file_bytes (some n) ≡ ok bytes =
      synced_node-file_bytes bytes mode (node_at ino st.dur) in
    rw (node_at-with_node ino n st.dur i) (elim (Bool-cases (i == ino)) [
      | inl q ↦
          let eq : i ≡ ino = ground arith in
          rw q (same ∙ ap ok (file_bytes-file bytes mode b (rw (eq, e) at vol)))
      | inr q ↦ let other = get-remove i ino st.dirty in rw q (h i b vol (ground arith))
    ])

fold_pending_lem :
    (vol : Image) (op : Op) (u : BTreeSet ℕ) (ps : List Pending) (dur : Image) (i : ℕ) (b : List ℕ)
    → file_bytes (node_at i dur) ≡ ok b
    → file_bytes (node_at i (fold_pending vol ps (apply_op vol op apply (dur, [])).0).0) ≡ ok b
    → file_bytes (node_at i (fold_pending vol (record { op = op; unsynced = u } ∷ ps) dur).0) ≡ ok b
unfolding fold_pending
fold_pending_lem vol op [] ps dur i b h after = after
fold_pending_lem vol op (d ∷ ds) ps dur i b h after = h

pub KeepsFiles-fold_pending :
    (vol : Image) (ps : List Pending) (dur : Image) → KeepsFiles dur (fold_pending vol ps dur).0
unfolding KeepsFiles fold_pending
KeepsFiles-fold_pending vol [] dur i b h = h
KeepsFiles-fold_pending vol (p ∷ ps) dur i b h = fold_pending_lem vol p.op p.unsynced ps dur i b h (
    KeepsFiles-fold_pending vol ps (apply_op vol p.op apply (dur, [])).0 i b
      (KeepsFiles-apply_op vol p.op apply (dur, []) i b h))

pub IsSynced-create_file :
    (p : RelPath) (bytes : List ℕ) (mode : Option ℕ) → Keeps IsSynced (create_file p bytes mode)
unfolding create_file
IsSynced-create_file p bytes mode =
    Keeps-checked IsSynced (free_place p) (add_file bytes mode)
      (λ st place found. IsSynced-add_file bytes mode place st) IsSynced-count

pub IsSynced-mkdir : (p : RelPath) → Keeps IsSynced (mkdir p)
unfolding mkdir
IsSynced-mkdir p =
    Keeps-checked IsSynced (free_place p) add_dir (λ st place found. IsSynced-add_dir place st)
      IsSynced-count

pub IsSynced-append : (p : RelPath) (more : List ℕ) → Keeps IsSynced (append p more)
unfolding append append_to
IsSynced-append p more =
    Keeps-checked IsSynced (existing p) (append_to more)
      (λ st ino found. IsSynced-append_found more ino (node_at ino st.vol) st) IsSynced-count

pub IsSynced-rename_noreplace :
    (from : RelPath) (expect_from : Option FileId) (to : RelPath) (expect_to : Option FileId)
    → Keeps IsSynced (rename_noreplace from expect_from to expect_to)
unfolding rename_noreplace
IsSynced-rename_noreplace from expect_from to expect_to =
    Keeps-checked IsSynced (movable from expect_from to expect_to) move_node
      (λ st move found. IsSynced-move_node move st) IsSynced-count

pub IsSynced-unlink :
    (p : RelPath) (expect_parent : Option FileId) → Keeps IsSynced (unlink p expect_parent)
unfolding unlink
IsSynced-unlink p expect_parent =
    Keeps-checked IsSynced (removable p expect_parent) remove_node
      (λ st entry found. IsSynced-remove_node entry st) IsSynced-count

pub IsSynced-rmdir : (p : RelPath) → Keeps IsSynced (rmdir p)
unfolding rmdir
IsSynced-rmdir p =
    Keeps-checked IsSynced (removable_dir p) remove_node
      (λ st entry found. IsSynced-remove_node entry st) IsSynced-count

pub IsSynced-sync_file : (p : RelPath) → Keeps IsSynced (sync_file p)
unfolding sync_file sync_node
IsSynced-sync_file p =
    Keeps-checked IsSynced (existing p) sync_node
      (λ st ino found. sync_found_lem ino st (node_at ino st.vol) refl) IsSynced-count

pub IsSynced-sync_dir : (p : RelPath) → Keeps IsSynced (sync_dir p)
unfolding sync_dir sync_entries fold
IsSynced-sync_dir p =
    Keeps-checked IsSynced (λ st. resolve_dir p (ci st) st.vol) sync_entries
      (λ st d found h.
        unfold IsSynced KeepsFiles in
        (λ i b vol clean.
          KeepsFiles-fold_pending st.vol (synced_in d st.pending) st.dur i b (h i b vol clean)))
      IsSynced-count

-- Where the visible image is the durable one.
pub IsSynced-same : (st : State) → st.dur ≡ st.vol → IsSynced st
unfolding IsSynced
IsSynced-same st same i b vol clean = rw same vol

pub IsSynced-power_loss :
    (fates : List Fate) (seed : ℕ) (st : State) → IsSynced (power_loss fates seed st)
unfolding power_loss
IsSynced-power_loss fates seed st = IsSynced-same (power_loss fates seed st) refl

-- Data that is durable and not dirty outlives a power loss.
KeepsFiles-lose_ops :
    (vol : Image) (ps : List Pending) (fates : List Fate) (r : Image × List Violation) (i : ℕ)
    (b : List ℕ)
    → file_bytes (node_at i r.0) ≡ ok b
    → file_bytes (node_at i (lose_ops vol ps fates r).0) ≡ ok b
unfolding lose_ops KeepsFiles
KeepsFiles-lose_ops vol [] fates r i b h = h
KeepsFiles-lose_ops vol (p ∷ ps) fates r i b h =
    let fate = (next_fate p fates).0 in
    KeepsFiles-lose_ops vol ps (next_fate p fates).1 (apply_op vol p.op fate r) i b
      (KeepsFiles-apply_op vol p.op fate r i b h)

garble_other :
    (seed ino : ℕ) (new old : Option Node) (nodes : BTreeMap ℕ Node) (i : ℕ)
    → (i == ino) ≡ false
    → get i (garble seed ino new old nodes) ≡ get i nodes
unfolding garble
garble_other seed ino none old nodes i h = refl
garble_other seed ino (some symlink_node) old nodes i h = refl
garble_other seed ino (some (dir_node es m)) old nodes i h = refl
garble_other seed ino (some (file_node c m)) none nodes i h = refl
garble_other seed ino (some (file_node c m)) (some symlink_node) nodes i h = refl
garble_other seed ino (some (file_node c m)) (some (dir_node es o)) nodes i h = refl
garble_other seed ino (some (file_node c m)) (some (file_node b mode)) nodes i h =
    get-insert i ino (file_node (data_variant b c seed) mode) nodes ∙ rw h refl

clean_head :
    (i ino : ℕ) (u : Unit {0}) (dirty : BTreeSet ℕ)
    → get i ((ino, u) ∷ dirty) ≡ none
    → ((i == ino) ≡ false) × (get i dirty ≡ none)
unfolding get
clean_head i ino u dirty h = (ground arith, ground arith)

lose_data_other :
    (vol : Image) (seed : ℕ) (dirty : BTreeSet ℕ) (img : Image) (i : ℕ)
    → get i dirty ≡ none
    → node_at i (lose_data vol seed dirty img) ≡ node_at i img
unfolding lose_data
lose_data_other vol seed [] img i h = refl
lose_data_other vol seed ((ino, u) ∷ dirty) img i h =
    let (other, clean) = clean_head i ino u dirty h in
    let new = node_at ino vol in
    let old = node_at ino img in
    lose_data_other vol seed dirty (record img { nodes = garble seed ino new old img.nodes }) i
      clean
    ∙ garble_other seed ino new old img.nodes i other

pub synced-power_loss :
    (fates : List Fate) (seed : ℕ) (st : State) (i : ℕ) (b : List ℕ)
    → IsSynced st
    → file_bytes (node_at i st.vol) ≡ ok b
    → get i st.dirty ≡ none
    → file_bytes (node_at i (power_loss fates seed st).vol) ≡ ok b
unfolding IsSynced power_loss
synced-power_loss fates seed st i b h vol clean =
    let r = lose_ops st.vol st.pending fates (st.dur, st.violations) in
    ap file_bytes (lose_data_other st.vol seed st.dirty r.0 i clean)
    ∙ KeepsFiles-lose_ops st.vol st.pending fates (st.dur, st.violations) i b (h i b vol clean)
