-- ===== src/Sim/SyncsKeep.antt =====
-- The syncs of the simulated filesystem keep the invariant on names (src/sim.rs).
use fstx.Base.{
  ℕ, List, [], ◌∷◌, Option, none, some, true, nat_eq, list_eq, ◌≡◌, refl, ◌∙◌, list_ord, nat_ord,
}
use fstx.Path.{Name, RelPath}
use fstx.Sim.{Node, file_node, dir_node, symlink_node, Image, node_at, resolve_dir}
use fstx.Sim.State.{Pending, State, ci}
use fstx.Sim.Crash.{fold}
use fstx.Sim.Calls.{existing}
use fstx.Sim.Changes.{
  synced_node, sync_found, sync_node, sync_file, synced_in, sync_entries, sync_dir,
}
use fstx.Sim.Namespace.{perform_all, Space, names_of, entry_in, perform}
use fstx.Sim.Agrees.{Agrees, agree}
use fstx.Sim.Coherent.{Coherent, IsCoherent, AllTied, Coherent-sync, Coherent-fold_pending}
use fstx.Sim.Kinds.{with_node, names_of-with_node, Agrees-with_node, Agrees-of_node}
use fstx.Sim.CallsKeep.{Keeps, Keeps-checked, IsCoherent-count}

-- A synced file keeps the durable mode where there is one.
module _ (bytes : List ℕ) (mode : ℕ) where
  synced_mode : Option Node → ℕ
  synced_mode (some (file_node old m)) = m
  synced_mode (some (dir_node es m)) = mode
  synced_mode (some symlink_node) = mode
  synced_mode none = mode

  synced_node_lem :
      (found : Option Node) → synced_node bytes mode found ≡ file_node bytes (synced_mode found)
  unfolding synced_node synced_mode
  synced_node_lem (some (file_node old m)) = refl
  synced_node_lem (some (dir_node es m)) = refl
  synced_node_lem (some symlink_node) = refl
  synced_node_lem none = refl

  -- What agrees with a file is no directory.
  agree-file :
      (found : Option Node) (m : ℕ)
      → agree found (some (file_node bytes mode)) ≡ true
      → (agree found (some (file_node bytes m)) ≡ true)
        × ((n : Name) → entry_in (some (file_node bytes m)) n ≡ entry_in found n)
  unfolding agree entry_in
  agree-file none m h = (refl, λ n. refl)
  agree-file (some (file_node old o)) m h = (refl, λ n. refl)
  agree-file (some (dir_node es o)) m h = cc
  agree-file (some symlink_node) m h = cc

IsCoherent-synced :
    (st : State) (ino : ℕ) (bytes : List ℕ) (mode : ℕ)
    → node_at ino st.vol ≡ some (file_node bytes mode)
    → IsCoherent st
    → Coherent st.vol
        (with_node ino (synced_node bytes mode (node_at ino st.dur)) st.dur)
        st.pending
        st.next_ino
unfolding agree Agrees synced_node
IsCoherent-synced st ino bytes mode e h =
    let n = synced_node bytes mode (node_at ino st.dur) in
    let m = synced_mode bytes mode (node_at ino st.dur) in
    let is : n ≡ file_node bytes m = synced_node_lem bytes mode (node_at ino st.dur) in
    let durable = h.base.agrees ino in
    let (kept, same) = agree-file bytes mode (node_at ino st.dur) m (rw e at durable) in
    rw is (
      Coherent-sync st.vol st.dur (with_node ino (file_node bytes m) st.dur) st.pending st.next_ino
        h (Agrees-of_node ino (file_node bytes m) st.vol st.dur (rw e refl) h.base.agrees)
        (Agrees-with_node ino (file_node bytes m) st.dur kept) refl
        (names_of-with_node ino (file_node bytes m) st.dur same))

sync_found_lem :
    (ino : ℕ) (st : State) (found : Option Node)
    → node_at ino st.vol ≡ found
    → IsCoherent st
    → IsCoherent (sync_found ino found st).1
unfolding sync_found
sync_found_lem ino st none e h = h
sync_found_lem ino st (some symlink_node) e h = h
sync_found_lem ino st (some (dir_node es m)) e h = h
sync_found_lem ino st (some (file_node bytes mode)) e h = IsCoherent-synced st ino bytes mode e h

pub IsCoherent-sync_file : (p : RelPath) → Keeps IsCoherent (sync_file p)
unfolding sync_file sync_node
IsCoherent-sync_file p =
    Keeps-checked IsCoherent (existing p) sync_node
      (λ st ino found. sync_found_lem ino st (node_at ino st.vol) refl) IsCoherent-count

perform_all-synced_in :
    (d : ℕ) (ps : List Pending) (f : Space) → perform_all (synced_in d ps) f ≡ perform_all ps f
unfolding perform_all synced_in
perform_all-synced_in d [] f = refl
perform_all-synced_in d (p ∷ ps) f = perform_all-synced_in d ps (perform p.op f)

AllTied-synced_in :
    (vol : Image) (d : ℕ) (ps : List Pending) → AllTied vol ps → AllTied vol (synced_in d ps)
unfolding synced_in
AllTied-synced_in vol d [] tied = tt
AllTied-synced_in vol d (p ∷ ps) tied = (tied.0, AllTied-synced_in vol d ps tied.1)

Coherent-synced_in :
    (d : ℕ) (st : State)
    → IsCoherent st
    → Coherent st.vol st.dur (synced_in d st.pending) st.next_ino
Coherent-synced_in d st h = record {
  root_dir = h.root_dir;
  same_root = h.same_root;
  durable_root = h.durable_root;
  fresh = h.fresh;
  visible = h.visible;
  base = h.base;
  tied = AllTied-synced_in st.vol d st.pending h.tied;
  shows = perform_all-synced_in d st.pending (names_of st.dur) ∙ h.shows;
}

pub IsCoherent-sync_dir : (p : RelPath) → Keeps IsCoherent (sync_dir p)
unfolding sync_dir sync_entries fold
IsCoherent-sync_dir p =
    Keeps-checked IsCoherent (λ st. resolve_dir p (ci st) st.vol) sync_entries
      (λ st d found h.
        Coherent-fold_pending st.vol (synced_in d st.pending) st.dur st.next_ino
          (Coherent-synced_in d st h))
      IsCoherent-count
