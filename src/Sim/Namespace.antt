-- ===== src/Sim/Namespace.antt =====
-- The names of an image as a function of the directory and the name, and what each change does to it
-- (src/sim.rs).
use fstx.Base.{
  ℕ, List, [], ◌∷◌, Option, none, some, true, ◌&&◌, ◌==◌, nat_eq, list_eq, if◌then◌else◌, ◌≡◌, refl,
  arith, list_ord, nat_ord,
}
use mathlib.Core.Path.{fun_ext}
use fstx.Base.Map.{get, insert, remove, get-insert, get-remove}
use fstx.Path.{Name}
use fstx.Sim.{
  Node, file_node, dir_node, symlink_node, Image, Entries, node_at, change_found, change_entries,
}
use fstx.Sim.Calls.{is_dir_node}
use fstx.Sim.State.{Op, link, unlink, rename, Pending}
use fstx.Sim.Crash.{is_the, holds, remove_held}

abbrev pub Space : Type 0
Space = ℕ → Name → Option ℕ

-- The entry that a directory's entries have, if it is one.
unfoldable pub entry_in : Option Node → Name → Option ℕ
entry_in (some (dir_node es mode)) n = get n es
entry_in (some (file_node bytes mode)) n = none
entry_in (some symlink_node) n = none
entry_in none n = none

unfoldable pub names_of : Image → Space
unfolding entry_in
names_of img d n = entry_in (node_at d img) n

unfoldable pub assign : ℕ → Name → Option ℕ → Space → Space
assign d n v f e m = if e == d && m == n then v else f e m

-- The name is taken away where it stands for the inode.
unfoldable pub take_away : ℕ → Name → ℕ → Space → Space
unfolding is_the
take_away d n ino f e m = if is_the (f d n) ino && e == d && m == n then none else f e m

-- What an op that is carried out does to the names.
unfoldable pub perform : Op → Space → Space
unfolding assign take_away
perform (link d n ino) f = assign d n (some ino) f
perform (unlink d n ino) f = take_away d n ino f
perform (rename fdir fname tdir tname ino is_dir) f =
    assign tdir tname (some ino) (take_away fdir fname ino f)

unfoldable pub perform_all : List Pending → Space → Space
unfolding perform
perform_all [] f = f
perform_all (p ∷ ps) f = perform_all ps (perform p.op f)

-- The node of a directory with its entries changed.
unfoldable pub with_entries : (Entries → Entries) → Option Node → Option Node
with_entries f (some (dir_node es mode)) = some (dir_node (f es) mode)
with_entries f (some (file_node bytes mode)) = some (file_node bytes mode)
with_entries f (some symlink_node) = some symlink_node
with_entries f none = none

module _ (d : ℕ) (img : Image) where
  change_found_lem :
      (f : Entries → Entries) (found : Option Node) (e : ℕ)
      → node_at d img ≡ found
      → get e (change_found d f found img.nodes)
        ≡ (if e == d then with_entries f found else node_at e img)
  unfolding change_found with_entries
  change_found_lem f none e h = ground arith
  change_found_lem f (some symlink_node) e h = ground arith
  change_found_lem f (some (file_node bytes mode)) e h = ground arith
  change_found_lem f (some (dir_node es mode)) e h =
      ground (arith, get-insert e d (dir_node (f es) mode) img.nodes)

  pub node_at-change_entries :
      (f : Entries → Entries) (e : ℕ)
      → node_at e (change_entries d f img)
        ≡ (if e == d then with_entries f (node_at d img) else node_at e img)
  unfolding change_entries
  node_at-change_entries f e = change_found_lem f (node_at d img) e refl

  entry_in-insert :
      (n : Name) (ino : ℕ) (found : Option Node) (m : Name)
      → is_dir_node found ≡ true
      → entry_in (with_entries (insert n ino) found) m
        ≡ (if m == n then some ino else entry_in found m)
  unfolding is_dir_node entry_in with_entries
  entry_in-insert n ino none m k = ground arith
  entry_in-insert n ino (some symlink_node) m k = ground arith
  entry_in-insert n ino (some (file_node bytes mode)) m k = ground arith
  entry_in-insert n ino (some (dir_node es mode)) m k = get-insert m n ino es

  entry_in-remove :
      (n : Name) (found : Option Node) (m : Name)
      → entry_in (with_entries (remove n) found) m ≡ (if m == n then none else entry_in found m)
  unfolding entry_in with_entries
  entry_in-remove n none m = ground arith
  entry_in-remove n (some symlink_node) m = ground arith
  entry_in-remove n (some (file_node bytes mode)) m = ground arith
  entry_in-remove n (some (dir_node es mode)) m = get-remove m n es

  insert_at :
      (n : Name) (ino : ℕ) (e : ℕ) (m : Name)
      → is_dir_node (node_at d img) ≡ true
      → names_of (change_entries d (insert n ino) img) e m
        ≡ assign d n (some ino) (names_of img) e m
  unfolding names_of assign
  insert_at n ino e m k =
      rw (node_at-change_entries (insert n ino) e)
        (ground (arith, entry_in-insert n ino (node_at d img) m k))

  pub names_of-insert :
      (n : Name) (ino : ℕ)
      → is_dir_node (node_at d img) ≡ true
      → names_of (change_entries d (insert n ino) img) ≡ assign d n (some ino) (names_of img)
  names_of-insert n ino k = fun_ext (λ e. fun_ext (λ m. insert_at n ino e m k))

  remove_at :
      (n : Name) (e : ℕ) (m : Name)
      → names_of (change_entries d (remove n) img) e m ≡ assign d n none (names_of img) e m
  unfolding names_of assign
  remove_at n e m =
      rw (node_at-change_entries (remove n) e) (ground (arith, entry_in-remove n (node_at d img) m))

  pub names_of-remove :
      (n : Name) → names_of (change_entries d (remove n) img) ≡ assign d n none (names_of img)
  names_of-remove n = fun_ext (λ e. fun_ext (λ m. remove_at n e m))

  held_at :
      (n : Name) (ino : ℕ) (found : Option Node) (m : Name)
      → entry_in (with_entries (remove_held n ino) found) m
        ≡ (if is_the (entry_in found n) ino && m == n then none else entry_in found m)
  unfolding entry_in with_entries remove_held holds is_the
  held_at n ino none m = refl
  held_at n ino (some symlink_node) m = refl
  held_at n ino (some (file_node bytes mode)) m = refl
  held_at n ino (some (dir_node es mode)) m = ground (arith, get-remove m n es)

  take_at :
      (n : Name) (ino e : ℕ) (m : Name)
      → names_of (change_entries d (remove_held n ino) img) e m
        ≡ take_away d n ino (names_of img) e m
  unfolding names_of take_away
  take_at n ino e m =
      rw (node_at-change_entries (remove_held n ino) e)
        (ground (arith, held_at n ino (node_at d img) m))

  pub names_of-remove_held :
      (n : Name) (ino : ℕ)
      → names_of (change_entries d (remove_held n ino) img) ≡ take_away d n ino (names_of img)
  names_of-remove_held n ino = fun_ext (λ e. fun_ext (λ m. take_at n ino e m))
