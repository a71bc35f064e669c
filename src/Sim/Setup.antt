-- ===== src/Sim/Setup.antt =====
-- States that are only set up: what is visible is durable (src/sim.rs).
use fstx.Base.{
  ℕ, List, [], ◌∷◌, Option, none, some, true, nat_eq, list_eq, ◌≡◌, refl, ap, ◌∙◌, arith, list_ord,
  nat_ord, ◌≤◌, ◌+◌, ok, err,
}
use mathlib.Core.Path.{subst}
use mathlib.Core.Option.{some_inj}
use fstx.Base.Map.{get, insert}
use fstx.Path.{Name, RelPath}
use fstx.Vfs.{IoResult}
use fstx.Sim.{
  Node, file_node, dir_node, symlink_node, Image, Entries, entries, node_at, change_entries, empty,
  dir_mode, file_mode,
}
use fstx.Sim.State.{SimConfig, State, new_state, parent_and_leaf, lookup_leaf}
use fstx.Sim.Calls.{is_dir_node}
use fstx.Sim.Backend.{
  put, put_at, put_found, put_in, link_at, tamper_at, put_file, put_dir, put_symlink, put_hardlink,
  expect_found, expect_leaf, tamper_file, overwrite_found, overwrite,
}
use fstx.Sim.Namespace.{names_of, entry_in, names_of-insert, perform_all, assign}
use fstx.Sim.Agrees.{Agrees, agree, is_node}
use fstx.Sim.Grows.{IsClosed, Grows, KeepsDirs, IsClosed-assign}
use fstx.Sim.Coherent.{
  Coherent, IsCoherent, Agrees-KeepsDirs, Agrees-Grows, Agrees-trans, agree-none, IsClosed-same,
}
use fstx.Sim.Found.{parent_and_leaf-is_dir_node, lookup_leaf-is_node}
use fstx.Sim.Kinds.{
  with_node, node_at-with_node, names_of-with_node, Agrees-with_node, Agrees-of_node, Agrees-self,
  change_entries-Agrees, none-change_entries,
}

-- An image that may be both the visible and the durable one.
pub record IsSettled (img : Image) (next_ino : ℕ) : Type 0 where
  pub root_dir : is_dir_node (node_at img.root_ino img) ≡ true
  pub fresh : (i : ℕ) → next_ino ≤ i → node_at i img ≡ none
  pub closed : IsClosed img

pub Coherent-settled : (img : Image) (next : ℕ) → IsSettled img next → Coherent img img [] next
unfolding perform_all
Coherent-settled img next h = record {
  root_dir = h.root_dir;
  same_root = refl;
  durable_root = h.root_dir;
  fresh = h.fresh;
  visible = h.closed;
  base = record { agrees = Agrees-self img; closed = h.closed };
  tied = tt;
  shows = refl;
}

-- A state in which nothing is pending or dirty.
pub record IsQuiet (st : State) : Type 0 where
  pub settled : IsSettled st.vol st.next_ino
  pub same : st.dur ≡ st.vol
  pub done : st.pending ≡ []

pub IsQuiet-IsCoherent : (st : State) → IsQuiet st → IsCoherent st
IsQuiet-IsCoherent st h = rw (h.same, h.done) (Coherent-settled st.vol st.next_ino h.settled)

IsClosed-empty : IsClosed empty
unfolding IsClosed names_of entry_in empty get
IsClosed-empty d n i h = ground arith

pub IsQuiet-new_state : (cfg : SimConfig) → IsQuiet (new_state cfg)
unfolding new_state empty get is_dir_node native.Mathlib.Decide.ℕ_discrete
IsQuiet-new_state cfg = record {
  settled = record { root_dir = refl; fresh = λ i beyond. ground arith; closed = IsClosed-empty };
  same = refl;
  done = refl;
}

module _ (d : ℕ) (leaf : Name) (ino : ℕ) (img : Image) (next : ℕ) (h : IsSettled img next)
    (is_dir : is_dir_node (node_at d img) ≡ true) where
  abbrev linked : Image
  linked = change_entries d (insert leaf ino) img

  keeps : Agrees linked img
  keeps = change_entries-Agrees d (insert leaf ino) img

  IsSettled-linked : is_node (node_at ino img) ≡ true → IsSettled linked next
  unfolding KeepsDirs Grows change_entries
  IsSettled-linked there = record {
    root_dir = Agrees-KeepsDirs img linked keeps img.root_ino h.root_dir;
    fresh = λ i beyond. none-change_entries d (insert leaf ino) img i (h.fresh i beyond);
    closed =
        IsClosed-assign d leaf ino img linked (names_of-insert d img leaf ino is_dir)
          (Agrees-Grows img linked keeps) (Agrees-Grows img linked keeps ino there) h.closed;
  }

module _ (d : ℕ) (leaf : Name) (n : Node) (img : Image) (next : ℕ) (h : IsSettled img next)
    (is_dir : is_dir_node (node_at d img) ≡ true)
    (bare : (m : Name) → entry_in (some n) m ≡ none) where
  abbrev there : Image
  there = linked d leaf next img next h is_dir

  IsSettled-put : IsSettled (with_node next n there) (next + 1)
  unfolding KeepsDirs Grows agree entry_in is_node change_entries
  IsSettled-put =
      let img' = with_node next n there in
      let new : node_at next there ≡ none =
        none-change_entries d (insert leaf next) img next (h.fresh next (omega arith)) in
      let kept = Agrees-with_node next n there (rw new refl) in
      let all = Agrees-trans there img' kept img (keeps d leaf next img next h is_dir) in
      let same : names_of img' ≡ assign d leaf (some next) (names_of img) =
        names_of-with_node next n there (λ m. bare m ∙ rw new refl)
        ∙ names_of-insert d img leaf next is_dir in
      record {
        root_dir = Agrees-KeepsDirs img img' all img.root_ino h.root_dir;
        fresh = λ i beyond. rw (node_at-with_node next n there i) (
            ground
              (arith, none-change_entries d (insert leaf next) img i (h.fresh i (omega arith))));
        closed =
            IsClosed-assign d leaf next img img' same (Agrees-Grows img img' all)
              (rw (node_at-with_node next n there next) (ground arith)) h.closed;
      }

-- The test setup's calls.
pub data SetupStep : Type 0 where
  file_at : RelPath → List ℕ → SetupStep
  dir_at symlink_at : RelPath → SetupStep
  hardlink_at : RelPath → RelPath → SetupStep
  tampered : RelPath → List ℕ → SetupStep

unfoldable pub setup : SetupStep → State → Option State
unfolding put_file put_dir put_symlink put_hardlink tamper_file
setup (file_at p bytes) = put_file p bytes
setup (dir_at p) = put_dir p
setup (symlink_at p) = put_symlink p
setup (hardlink_at existing p) = put_hardlink existing p
setup (tampered p bytes) = tamper_file p bytes

-- `none` is a panic.
unfoldable pub setup_all : List SetupStep → State → Option State
unfolding setup
setup_all [] st = some st
setup_all (s ∷ steps) st = elim (setup s st) [ none ↦ none | some st' ↦ setup_all steps st' ]

module _ (n : Node) (bare : (m : Name) → entry_in (some n) m ≡ none) where
  IsSettled-put_found :
      (d : ℕ) (leaf : Name) (img : Image) (next : ℕ) (es : Option Entries)
      → IsSettled img next
      → is_dir_node (node_at d img) ≡ true
      → IsSettled (put_found d leaf next n es img) (next + 1)
  unfolding put_found
  IsSettled-put_found d leaf img next none h is_dir = record {
    root_dir = h.root_dir;
    fresh = λ i beyond. h.fresh i (omega arith);
    closed = h.closed;
  }
  IsSettled-put_found d leaf img next (some es) h is_dir =
      IsSettled-put d leaf n img next h is_dir bare

  put_lem :
      (st st' : State) (r : IoResult (ℕ × Name)) (p : RelPath)
      → parent_and_leaf p st ≡ r
      → put_at n r st ≡ some st'
      → IsQuiet st
      → IsQuiet st'
  unfolding put_at put_in
  put_lem st st' (err e) p at h quiet = cc
  put_lem st st' (ok (d, leaf)) p at h quiet =
      let is_dir = parent_and_leaf-is_dir_node st quiet.settled.root_dir p (d, leaf) at in
      subst IsQuiet (some_inj.0 h) (record {
        settled =
            IsSettled-put_found d leaf st.vol st.next_ino (entries d st.vol) quiet.settled is_dir;
        same = ap (put_in d leaf st.next_ino n) quiet.same;
        done = quiet.done;
      })

  IsQuiet-put : (p : RelPath) (st st' : State) → put p n st ≡ some st' → IsQuiet st → IsQuiet st'
  unfolding put
  IsQuiet-put p st st' = put_lem st st' (parent_and_leaf p st) p refl

entry_in-file :
    (bytes : List ℕ) (mode : ℕ) (m : Name) → entry_in (some (file_node bytes mode)) m ≡ none
unfolding entry_in
entry_in-file bytes mode m = refl

entry_in-dir : (mode : ℕ) (m : Name) → entry_in (some (dir_node [] mode)) m ≡ none
unfolding entry_in get
entry_in-dir mode m = refl

entry_in-symlink : (m : Name) → entry_in (some symlink_node) m ≡ none
unfolding entry_in
entry_in-symlink m = refl

expect_leaf_lem :
    (r : IoResult (Option ℕ)) (ino : ℕ) → expect_found r ≡ some ino → r ≡ ok (some ino)
unfolding expect_found
expect_leaf_lem (ok found) ino h = ap ok h
expect_leaf_lem (err e) ino h = cc

expect_leaf-is_node :
    (st : State)
    → IsSettled st.vol st.next_ino
    → (p : RelPath) (ino : ℕ) → expect_leaf p st ≡ some ino
    → is_node (node_at ino st.vol) ≡ true
unfolding expect_leaf
expect_leaf-is_node st settled p ino h =
    lookup_leaf-is_node st settled.root_dir settled.closed p ino
      (expect_leaf_lem (lookup_leaf p st) ino h)

link_lem :
    (st st' : State) (found : Option ℕ) (r : IoResult (ℕ × Name)) (existing p : RelPath)
    → expect_leaf existing st ≡ found
    → parent_and_leaf p st ≡ r
    → link_at found r st ≡ some st'
    → IsQuiet st
    → IsQuiet st'
unfolding link_at
link_lem st st' none r existing p e at h quiet = cc
link_lem st st' (some ino) (err x) existing p e at h quiet = cc
link_lem st st' (some ino) (ok (d, leaf)) existing p e at h quiet =
    let is_dir = parent_and_leaf-is_dir_node st quiet.settled.root_dir p (d, leaf) at in
    subst IsQuiet (some_inj.0 h) (record {
      settled =
          IsSettled-linked d leaf ino st.vol st.next_ino quiet.settled is_dir
            (expect_leaf-is_node st quiet.settled existing ino e);
      same = ap (change_entries d (insert leaf ino)) quiet.same;
      done = quiet.done;
    })

overwritten_lem :
    (ino : ℕ) (bytes : List ℕ) (img : Image) (next : ℕ) (found : Option Node)
    → node_at ino img ≡ found
    → IsSettled img next
    → IsSettled (overwrite_found ino bytes found img) next
unfolding overwrite_found KeepsDirs entry_in agree
overwritten_lem ino bytes img next none e h = h
overwritten_lem ino bytes img next (some symlink_node) e h = h
overwritten_lem ino bytes img next (some (dir_node es m)) e h = h
overwritten_lem ino bytes img next (some (file_node old mode)) e h =
    let img' = with_node ino (file_node bytes mode) img in
    let kept = Agrees-with_node ino (file_node bytes mode) img (rw e refl) in
    let back = Agrees-of_node ino (file_node bytes mode) img img (rw e refl) (Agrees-self img) in
    record {
      root_dir = Agrees-KeepsDirs img img' kept img.root_ino h.root_dir;
      fresh = λ i beyond.
          unfold Agrees in
          (λ (b : Agrees img img').
              agree-none (node_at i img') (node_at i img) (b i) (h.fresh i beyond))
            back;
      closed =
          IsClosed-same img img'
            (names_of-with_node ino (file_node bytes mode) img (λ m. rw e refl))
            (Agrees-Grows img img' kept) h.closed;
    }

tamper_lem :
    (bytes : List ℕ) (st st' : State) (found : Option ℕ)
    → tamper_at bytes found st ≡ some st'
    → IsQuiet st
    → IsQuiet st'
unfolding tamper_at overwrite
tamper_lem bytes st st' none h quiet = cc
tamper_lem bytes st st' (some ino) h quiet = subst IsQuiet (some_inj.0 h) (record {
  settled = overwritten_lem ino bytes st.vol st.next_ino (node_at ino st.vol) refl quiet.settled;
  same = ap (overwrite ino bytes) quiet.same;
  done = quiet.done;
})

IsQuiet-setup :
    (step : SetupStep) (st st' : State) → setup step st ≡ some st' → IsQuiet st → IsQuiet st'
unfolding setup put_file put_dir put_symlink put_hardlink tamper_file
IsQuiet-setup (file_at p bytes) st st' =
    IsQuiet-put (file_node bytes file_mode) (entry_in-file bytes file_mode) p st st'
IsQuiet-setup (dir_at p) st st' =
    IsQuiet-put (dir_node [] dir_mode) (entry_in-dir dir_mode) p st st'
IsQuiet-setup (symlink_at p) st st' = IsQuiet-put symlink_node entry_in-symlink p st st'
IsQuiet-setup (hardlink_at existing p) st st' =
    link_lem st st' (expect_leaf existing st) (parent_and_leaf p st) existing p refl refl
IsQuiet-setup (tampered p bytes) st st' = tamper_lem bytes st st' (expect_leaf p st)

setup_lem :
    (steps : List SetupStep) (st st' : State) (after : Option State)
    → ((mid : State) → after ≡ some mid → IsQuiet mid)
    → ((mid : State) → setup_all steps mid ≡ some st' → IsQuiet mid → IsQuiet st')
    → elim after [ none ↦ none | some mid ↦ setup_all steps mid ] ≡ some st'
    → IsQuiet st'
setup_lem steps st st' none first rest h = cc
setup_lem steps st st' (some mid) first rest h = rest mid h (first mid refl)

pub IsQuiet-setup_all :
    (steps : List SetupStep) (st st' : State)
    → setup_all steps st ≡ some st'
    → IsQuiet st
    → IsQuiet st'
unfolding setup_all
IsQuiet-setup_all [] st st' h quiet = subst IsQuiet (some_inj.0 h) quiet
IsQuiet-setup_all (s ∷ steps) st st' h quiet =
    setup_lem steps st st' (setup s st) (λ mid e. IsQuiet-setup s st mid e quiet)
      (λ mid. IsQuiet-setup_all steps mid st') h
