-- ===== src/Sim/Kinds.antt =====
-- Which changes of an image keep the kinds of its nodes, and its names (src/sim.rs).
use fstx.Base.{
  ℕ, Option, none, some, true, ◌==◌, nat_eq, list_eq, if◌then◌else◌, ◌≡◌, refl, sym, ◌∙◌, arith,
  list_ord, nat_ord,
}
use mathlib.Core.Path.{fun_ext, subst}
use fstx.Base.Map.{insert, get-insert}
use fstx.Path.{Name}
use fstx.Sim.{Node, file_node, dir_node, symlink_node, Image, Entries, node_at, change_entries}
use fstx.Sim.State.{Op, takes}
use fstx.Sim.Calls.{is_dir_node}
use fstx.Sim.Namespace.{with_entries, node_at-change_entries, names_of, entry_in}
use fstx.Sim.Agrees.{Agrees, agree, is_node, IsTied, Agrees-change_entries}
use fstx.Sim.Coherent.{agree_refl, agree-none}

-- The image with this node for the inode.
abbrev pub with_node : ℕ → Node → Image → Image
with_node ino n img = record img { nodes = insert ino n img.nodes }

pub node_at-with_node :
    (ino : ℕ) (n : Node) (img : Image) (e : ℕ)
    → node_at e (with_node ino n img) ≡ (if e == ino then some n else node_at e img)
node_at-with_node ino n img e = get-insert e ino n img.nodes

pub names_of-with_node :
    (ino : ℕ) (n : Node) (img : Image)
    → ((m : Name) → entry_in (some n) m ≡ entry_in (node_at ino img) m)
    → names_of (with_node ino n img) ≡ names_of img
unfolding names_of
names_of-with_node ino n img same =
    fun_ext (λ e. fun_ext (λ m. rw (node_at-with_node ino n img e) (ground (arith, same m))))

pub Agrees-with_node :
    (ino : ℕ) (n : Node) (img : Image)
    → agree (node_at ino img) (some n) ≡ true
    → Agrees (with_node ino n img) img
unfolding Agrees
Agrees-with_node ino n img same e =
    rw (node_at-with_node ino n img e) (ground (arith, agree_refl (node_at e img)))

-- A node that has the kind which the other image has for the inode.
pub Agrees-of_node :
    (ino : ℕ) (n : Node) (vol img : Image)
    → agree (some n) (node_at ino vol) ≡ true
    → Agrees vol img
    → Agrees vol (with_node ino n img)
unfolding Agrees
Agrees-of_node ino n vol img same agrees e =
    rw (node_at-with_node ino n img e) (ground (arith, agrees e))

with_entries-agree : (f : Entries → Entries) (a : Option Node) → agree a (with_entries f a) ≡ true
unfolding agree with_entries
with_entries-agree f none = refl
with_entries-agree f (some (file_node b m)) = refl
with_entries-agree f (some (dir_node es m)) = refl
with_entries-agree f (some symlink_node) = refl

pub change_entries-Agrees :
    (d : ℕ) (f : Entries → Entries) (img : Image) → Agrees (change_entries d f img) img
unfolding Agrees
change_entries-Agrees d f img e =
    rw (node_at-change_entries d img f e)
      (ground (arith, with_entries-agree f (node_at d img), agree_refl (node_at e img)))

pub Agrees-self : (img : Image) → Agrees img img
unfolding Agrees
Agrees-self img e = agree_refl (node_at e img)

-- No node appears.
pub none-change_entries :
    (d : ℕ) (f : Entries → Entries) (img : Image) (i : ℕ)
    → node_at i img ≡ none
    → node_at i (change_entries d f img) ≡ none
unfolding Agrees
none-change_entries d f img i =
    agree-none (node_at i (change_entries d f img)) (node_at i img)
      (Agrees-change_entries img d f img (Agrees-self img) i)

pub takes-IsTied :
    (vol : Image) (op : Op) (taken : ℕ × Name × ℕ)
    → takes op ≡ some taken
    → is_dir_node (node_at taken.0 vol) ≡ true
    → is_node (node_at taken.2 vol) ≡ true
    → IsTied vol op
unfolding IsTied
takes-IsTied vol op taken same is_dir seen d n i h =
    subst
      (λ (t : ℕ × Name × ℕ).
        (is_dir_node (node_at t.0 vol) ≡ true) × (is_node (node_at t.2 vol) ≡ true))
      (some-inj taken (d, n, i) (sym same ∙ h)) (is_dir, seen)
  where
    some-inj : (a b : ℕ × Name × ℕ) → ◌≡◌ {A = Option (ℕ × Name × ℕ)} (some a) (some b) → a ≡ b
    some-inj a b q = ground arith
