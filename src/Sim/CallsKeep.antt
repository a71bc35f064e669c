-- ===== src/Sim/CallsKeep.antt =====
-- What a call that counts, checks and acts keeps, and the calls that add files and directories or
-- append to a file (src/sim.rs).
use fstx.Base.{
  ℕ, List, [], ◌++◌, Option, none, some, Bool, true, false, nat_eq, list_eq, ◌≡◌, refl, ap, ◌∙◌,
  arith, list_ord, nat_ord, ◌+◌, ok, err,
}
use fstx.Base.Action.{◌>>=◌, reads}
use fstx.Base.Map.{get, insert}
use fstx.Path.{Name, RelPath}
use fstx.Vfs.{IoResult}
use fstx.Sim.{Node, file_node, dir_node, symlink_node, Image, node_at, change_entries, dir_mode}
use fstx.Sim.State.{link, takes, dirs, State, is_spent, count_if, count, record_op}
use fstx.Sim.Calls.{is_dir_node, existing, free_place}
use fstx.Sim.Changes.{
  Call, add_node, mark_dirty, mode_or_default, add_file, create_file, add_dir, mkdir, append_found,
  append_to, append,
}
use fstx.Sim.Namespace.{names_of, entry_in, names_of-insert, assign, perform}
use fstx.Sim.Agrees.{Agrees, agree, is_node}
use fstx.Sim.Grows.{Grows, KeepsDirs, IsClosed-assign}
use fstx.Sim.Coherent.{
  IsCoherent, Agrees-Grows, Agrees-KeepsDirs, Agrees-trans, Coherent-extend, Coherent-rewrite,
}
use fstx.Sim.Kinds.{
  with_node, node_at-with_node, names_of-with_node, Agrees-with_node, Agrees-of_node,
  change_entries-Agrees, Agrees-self, none-change_entries, takes-IsTied,
}
use fstx.Sim.Found.{free_place-is_dir_node}

-- What a call leaves of a property of the state.
abbrev pub Keeps : {A : Type 0} → (State → Type 0) → Call A → Type 0
Keeps P m = (st : State) → P st → P (m st).1

module _ {A X : Type 0} (P : State → Type 0) (f : State → IoResult X) (k : X → Call A)
    (step : (st : State) (x : X) → f st ≡ ok x → P st → P (k x st).1) where
  reads_lem : (st : State) (r : IoResult X) → f st ≡ r → P st → P ((reads (λ _. r) >>= k) st).1
  reads_lem st (ok x) e h = step st x e h
  reads_lem st (err x) e h = h

  counted_lem :
      (st : State) (r : IoResult (Unit {0}))
      → P st
      → P ((reads (λ _. r) >>= λ _. reads f >>= k) st).1
  counted_lem st (ok u) h = reads_lem st (f st) refl h
  counted_lem st (err e) h = h

  -- A call that counts, checks and then acts.
  pub checked_lem : (st : State) → P (count st).1 → P ((count >>= λ _. reads f >>= k) st).1
  checked_lem st h = counted_lem (count st).1 (count st).0 h

  pub Keeps-checked : Keeps P count → Keeps P (count >>= λ _. reads f >>= k)
  Keeps-checked counted st h = checked_lem st (counted st h)

IsCoherent-count_if : (down spent : Bool) → Keeps IsCoherent (count_if down spent)
unfolding count_if
IsCoherent-count_if true spent st h = h
IsCoherent-count_if false true st h = h
IsCoherent-count_if false false st h = h

pub IsCoherent-count : Keeps IsCoherent count
unfolding count
IsCoherent-count st = IsCoherent-count_if st.crashed (is_spent st) st

module _ (d : ℕ) (leaf : Name) (n : Node) (bare : (m : Name) → entry_in (some n) m ≡ none) where
  pub IsCoherent-add_node :
      (st : State)
      → is_dir_node (node_at d st.vol) ≡ true
      → IsCoherent st
      → IsCoherent (add_node n d leaf st)
  unfolding add_node record_op KeepsDirs perform Grows takes is_node entry_in agree
  IsCoherent-add_node st is_dir h =
      let ino = st.next_ino in
      let vol1 = with_node ino n st.vol in
      let vol2 = change_entries d (insert leaf ino) vol1 in
      let new : node_at ino st.vol ≡ none = h.fresh ino (omega arith) in
      let agrees1 : Agrees vol1 st.vol = Agrees-with_node ino n st.vol (rw new refl) in
      let agrees2 = change_entries-Agrees d (insert leaf ino) vol1 in
      let agrees = Agrees-trans vol1 vol2 agrees2 st.vol agrees1 in
      let is_dir1 = Agrees-KeepsDirs st.vol vol1 agrees1 d is_dir in
      let there : is_node (node_at ino vol2) ≡ true =
        Agrees-Grows vol1 vol2 agrees2 ino
          (rw (node_at-with_node ino n st.vol ino) (ground arith)) in
      let same : names_of vol2 ≡ assign d leaf (some ino) (names_of st.vol) =
        names_of-insert d vol1 leaf ino is_dir1
        ∙ ap (assign d leaf (some ino))
            (names_of-with_node ino n st.vol (λ m. bare m ∙ rw new refl)) in
      Coherent-extend st.vol vol2 st.dur st.pending
        (record { op = link d leaf ino; unsynced = dirs (link d leaf ino) }) ino (ino + 1) h agrees
        refl
        (λ i beyond.
          none-change_entries d (insert leaf ino) vol1 i
            (rw (node_at-with_node ino n st.vol i) (ground (arith, h.fresh i (omega arith)))))
        (IsClosed-assign d leaf ino st.vol vol2 same (Agrees-Grows st.vol vol2 agrees) there
          h.visible)
        (takes-IsTied vol2 (link d leaf ino) (d, leaf, ino) refl
          (Agrees-KeepsDirs st.vol vol2 agrees d is_dir) there)
        same

empty_file :
    (bytes : List ℕ) (mode : ℕ) (m : Name) → entry_in (some (file_node bytes mode)) m ≡ none
unfolding entry_in
empty_file bytes mode m = refl

empty_dir : (mode : ℕ) (m : Name) → entry_in (some (dir_node [] mode)) m ≡ none
unfolding entry_in get
empty_dir mode m = refl

pub IsCoherent-create_file :
    (p : RelPath) (bytes : List ℕ) (mode : Option ℕ) → Keeps IsCoherent (create_file p bytes mode)
unfolding create_file add_file mark_dirty
IsCoherent-create_file p bytes mode =
    Keeps-checked IsCoherent (free_place p) (add_file bytes mode)
      (λ st place found h.
        IsCoherent-add_node place.0 place.1 (file_node bytes (mode_or_default mode))
          (empty_file bytes (mode_or_default mode)) st
          (free_place-is_dir_node st h.root_dir p place found) h)
      IsCoherent-count

pub IsCoherent-mkdir : (p : RelPath) → Keeps IsCoherent (mkdir p)
unfolding mkdir add_dir
IsCoherent-mkdir p =
    Keeps-checked IsCoherent (free_place p) add_dir
      (λ st place found h.
        IsCoherent-add_node place.0 place.1 (dir_node [] dir_mode) (empty_dir dir_mode) st
          (free_place-is_dir_node st h.root_dir p place found) h)
      IsCoherent-count

-- A file's data may change, in the visible image and in the durable one.
module _ (ino : ℕ) (img : Image) (old : List ℕ) (mode mode' : ℕ) (new : List ℕ)
    (found : node_at ino img ≡ some (file_node old mode)) where
  abbrev edited : Image
  edited = with_node ino (file_node new mode') img

  names_of-edited : names_of edited ≡ names_of img
  unfolding entry_in
  names_of-edited = names_of-with_node ino (file_node new mode') img (λ m. rw found refl)

  Agrees-edited : Agrees edited img
  unfolding agree
  Agrees-edited = Agrees-with_node ino (file_node new mode') img (rw found refl)

  edited-Agrees : Agrees img edited
  unfolding agree
  edited-Agrees = Agrees-of_node ino (file_node new mode') img img (rw found refl) (Agrees-self img)

append_to_lem :
    (more : List ℕ) (ino : ℕ) (st : State) (found : Option Node)
    → node_at ino st.vol ≡ found
    → IsCoherent st
    → IsCoherent (append_found more ino found st).1
unfolding append_found mark_dirty
append_to_lem more ino st none e h = h
append_to_lem more ino st (some symlink_node) e h = h
append_to_lem more ino st (some (dir_node es m)) e h = h
append_to_lem more ino st (some (file_node bytes mode)) e h =
    Coherent-rewrite st.vol (edited ino st.vol bytes mode mode (bytes ++ more) e) st.dur st.pending
      st.next_ino h (Agrees-edited ino st.vol bytes mode mode (bytes ++ more) e)
      (edited-Agrees ino st.vol bytes mode mode (bytes ++ more) e) refl
      (names_of-edited ino st.vol bytes mode mode (bytes ++ more) e)

pub IsCoherent-append : (p : RelPath) (more : List ℕ) → Keeps IsCoherent (append p more)
unfolding append append_to
IsCoherent-append p more =
    Keeps-checked IsCoherent (existing p) (append_to more)
      (λ st ino found. append_to_lem more ino st (node_at ino st.vol) refl) IsCoherent-count
