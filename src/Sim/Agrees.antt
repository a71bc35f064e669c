-- ===== src/Sim/Agrees.antt =====
-- The durable image has for each inode the kind of node that the visible one has (src/sim.rs).
use fstx.Base.{
  ℕ, Option, none, some, Bool, true, false, ◌==◌, nat_eq, list_eq, if◌then◌else◌, ◌≡◌, refl, arith,
  list_ord, nat_ord, Option-cases, inl, inr,
}
use mathlib.Core.Path.{fun_ext}
use fstx.Base.Map.{get, get-insert}
use fstx.Path.{Name}
use fstx.Sim.{Node, file_node, dir_node, symlink_node, Image, Entries, node_at, change_entries}
use fstx.Sim.State.{Op, takes}
use fstx.Sim.Crash.{bare_node, ensure_found, ensure_node}
use fstx.Sim.Calls.{is_dir_node}
use fstx.Sim.Namespace.{with_entries, node_at-change_entries, names_of, entry_in}

-- Nothing, or a node of the same kind.
unfoldable pub agree : Option Node → Option Node → Bool
agree none other = true
agree (some (file_node b m)) (some (file_node c n)) = true
agree (some (dir_node b m)) (some (dir_node c n)) = true
agree (some symlink_node) (some symlink_node) = true
agree _ _ = false

unfoldable pub Agrees : Image → Image → Type 0
Agrees vol img = (i : ℕ) → agree (node_at i img) (node_at i vol) ≡ true

unfoldable pub is_node : Option Node → Bool
is_node none = false
is_node (some n) = true

pub is_node-dir : (found : Option Node) → is_dir_node found ≡ true → is_node found ≡ true
unfolding is_dir_node is_node
is_node-dir none h = cc
is_node-dir (some x) h = refl

-- What an op takes a name in is a visible directory, and what it takes the name for is visible.
unfoldable pub IsTied : Image → Op → Type 0
IsTied vol op =
    (d : ℕ) (n : Name) (i : ℕ)
    → takes op ≡ some (d, n, i)
    → (is_dir_node (node_at d vol) ≡ true) × (is_node (node_at i vol) ≡ true)

agree-with_entries :
    (f : Entries → Entries) (found vol : Option Node)
    → agree found vol ≡ true
    → agree (with_entries f found) vol ≡ true
unfolding agree with_entries
agree-with_entries f none vol h = refl
agree-with_entries f (some symlink_node) vol h = h
agree-with_entries f (some (file_node b m)) vol h = h
agree-with_entries f (some (dir_node b m)) (some (dir_node c n)) h = refl
agree-with_entries f (some (dir_node b m)) (some (file_node c n)) h = h
agree-with_entries f (some (dir_node b m)) (some symlink_node) h = h
agree-with_entries f (some (dir_node b m)) none h = h

agree-bare : (vol : Option Node) → is_node vol ≡ true → agree (some (bare_node vol)) vol ≡ true
unfolding agree bare_node is_node
agree-bare none h = cc
agree-bare (some symlink_node) h = refl
agree-bare (some (file_node b m)) h = refl
agree-bare (some (dir_node b m)) h = refl

entry_in-bare : (vol : Option Node) (n : Name) → entry_in (some (bare_node vol)) n ≡ none
unfolding entry_in bare_node get
entry_in-bare none n = refl
entry_in-bare (some symlink_node) n = refl
entry_in-bare (some (file_node b m)) n = refl
entry_in-bare (some (dir_node b m)) n = refl

pub agree-is_dir_node :
    (found vol : Option Node)
    → agree found vol ≡ true
    → is_dir_node vol ≡ true
    → is_node found ≡ true
    → is_dir_node found ≡ true
unfolding agree is_dir_node is_node
agree-is_dir_node none vol a h k = cc
agree-is_dir_node (some (dir_node b m)) vol a h k = refl
agree-is_dir_node (some (file_node b m)) (some (dir_node c n)) a h k = cc
agree-is_dir_node (some (file_node b m)) (some (file_node c n)) a h k = cc
agree-is_dir_node (some (file_node b m)) (some symlink_node) a h k = cc
agree-is_dir_node (some (file_node b m)) none a h k = cc
agree-is_dir_node (some symlink_node) (some (dir_node c n)) a h k = cc
agree-is_dir_node (some symlink_node) (some (file_node c n)) a h k = cc
agree-is_dir_node (some symlink_node) (some symlink_node) a h k = cc
agree-is_dir_node (some symlink_node) none a h k = cc

-- The node that an inode has once the image surely has one.
unfoldable pub or_bare : Option Node → Option Node → Node
or_bare (some n) vol = n
or_bare none vol = bare_node vol

module _ (vol : Image) where
  ensured_lem :
      (i : ℕ) (img : Image) (found : Option Node) (e : ℕ)
      → node_at i img ≡ found
      → get e (ensure_found i (bare_node (node_at i vol)) found img.nodes)
        ≡ (if e == i then some (or_bare found (node_at i vol)) else node_at e img)
  unfolding ensure_found or_bare
  ensured_lem i img none e h = get-insert e i (bare_node (node_at i vol)) img.nodes
  ensured_lem i img (some n) e h = ground arith

  pub node_at-ensure_node :
      (i : ℕ) (img : Image) (e : ℕ)
      → node_at e (ensure_node vol i img)
        ≡ (if e == i then some (or_bare (node_at i img) (node_at i vol)) else node_at e img)
  unfolding ensure_node
  node_at-ensure_node i img e = ensured_lem i img (node_at i img) e refl

  entry_in-or_bare :
      (found other : Option Node) (n : Name)
      → entry_in (some (or_bare found other)) n ≡ entry_in found n
  unfolding or_bare
  entry_in-or_bare none other n = unfold entry_in in entry_in-bare other n
  entry_in-or_bare (some x) other n = refl

  pub names_of-ensure_node : (i : ℕ) (img : Image) → names_of (ensure_node vol i img) ≡ names_of img
  unfolding names_of
  names_of-ensure_node i img = fun_ext (λ e. fun_ext (λ m.
      rw (node_at-ensure_node i img e)
        (ground (arith, entry_in-or_bare (node_at i img) (node_at i vol) m))))

  pub Agrees-ensure_node :
      (i : ℕ) (img : Image)
      → is_node (node_at i vol) ≡ true
      → Agrees vol img
      → Agrees vol (ensure_node vol i img)
  unfolding Agrees or_bare
  Agrees-ensure_node i img h a e =
      rw (node_at-ensure_node i img e) (elim (Option-cases (node_at i img)) [
        | inl q ↦ rw q (ground (arith, a e, agree-bare (node_at i vol) h))
        | inr (n, q) ↦ rw q (ground (arith, a e, a i))
      ])

  pub Agrees-change_entries :
      (d : ℕ) (f : Entries → Entries) (img : Image)
      → Agrees vol img
      → Agrees vol (change_entries d f img)
  unfolding Agrees
  Agrees-change_entries d f img a e =
      rw (node_at-change_entries d img f e)
        (ground (arith, a e, agree-with_entries f (node_at d img) (node_at d vol) (a d)))
