-- ===== src/Sim/Restart.antt =====
-- Reading after a power loss that loses nothing is reading before it (src/sim.rs).
use fstx.Base.{
  ℕ, [], ◌∷◌, Option, none, some, true, false, ◌≡◌, refl, sym, ap, ◌∙◌, nat_eq, list_eq, ok, err,
  ◌>>=◌, >>=-same, ok_or, nat_ord, if◌then◌else◌, Option-cases, inl, inr,
}
use fstx.Base.Map.{get}
use fstx.Path.{Name, RelPath, file_name, parent_or_root, is_root}
use fstx.Error.{ErrorKind}
use fstx.Vfs.{IoResult}
use fstx.Sim.{
  Node, file_node, dir_node, symlink_node, Image, node_at, entries, entries_of, find_inexact,
  find_entry, lookup, enter, enter_found, resolve_name, resolve_from, resolve_dir,
}
use fstx.Sim.State.{State, ci, ino_of, leaf_at, lookup_leaf, parent_and_leaf}
use fstx.Sim.Namespace.{names_of, entry_in}
use fstx.Sim.Agrees.{Agrees, agree, is_node}
use fstx.Sim.Grows.{IsClosed}
use fstx.Sim.Found.{lookup-names_of}
use fstx.Sim.Reachable.{Reachable}

with_name : Name → Option ℕ → Option (Name × ℕ)
with_name c none = none
with_name c (some i) = some (c, i)

find_entry-exact :
    (c : Name) (found : Option Node)
    → find_entry c false (entries_of found) ≡ with_name c (entry_in found c)
unfolding find_entry entries_of entry_in find_inexact with_name
find_entry-exact c none = refl
find_entry-exact c (some symlink_node) = refl
find_entry-exact c (some (file_node b m)) = refl
find_entry-exact c (some (dir_node es m)) = elim (Option-cases (get c es)) [
  | inl e ↦ rw e refl
  | inr (i, e) ↦ rw e refl
]

lookup-exact :
    (d : ℕ) (c : Name) (img : Image) → lookup d c false img ≡ with_name c (names_of img d c)
unfolding lookup entries names_of
lookup-exact d c img = find_entry-exact c (node_at d img)

-- Two images with the same names and the same kinds of nodes.
module _ (vol img : Image) (names : names_of img ≡ names_of vol) (agrees : Agrees vol img)
    (closed : IsClosed img) where
  lookup-same : (d : ℕ) (c : Name) → lookup d c false img ≡ lookup d c false vol
  lookup-same d c =
      lookup-exact d c img ∙ ap (λ f. with_name c (f d c)) names ∙ sym (lookup-exact d c vol)

  enter-same :
      (ino : ℕ) (found other : Option Node)
      → agree found other ≡ true
      → is_node found ≡ true
      → enter ino found ≡ enter ino other
  unfolding agree is_node enter
  enter-same ino none other a h = cc
  enter-same ino (some (file_node b m)) (some (file_node c n)) a h = refl
  enter-same ino (some (dir_node b m)) (some (dir_node c n)) a h = refl
  enter-same ino (some symlink_node) (some symlink_node) a h = refl
  enter-same ino (some _) _ a h = cc

  entered-same :
      (d : ℕ) (c : Name) (found : Option (Name × ℕ))
      → lookup d c false img ≡ found
      → enter_found found img ≡ enter_found found vol
  unfolding enter_found Agrees IsClosed
  entered-same d c none e = refl
  entered-same d c (some (name, ino)) e =
      enter-same ino (node_at ino img) (node_at ino vol) (agrees ino)
        (closed d name ino (lookup-names_of d c false img name ino e))

  resolve_name-same : (d : ℕ) (c : Name) → resolve_name d c false img ≡ resolve_name d c false vol
  unfolding resolve_name
  resolve_name-same d c =
      entered-same d c (lookup d c false img) refl ∙ ap (λ f. enter_found f vol) (lookup-same d c)

  resolve_from-same :
      (p : RelPath) (cur : ℕ) → resolve_from cur p false img ≡ resolve_from cur p false vol
  unfolding resolve_from
  resolve_from-same [] cur = refl
  resolve_from-same (c ∷ cs) cur = rw (resolve_name-same cur c) (
      >>=-same (resolve_name cur c false vol) (λ next. resolve_from next cs false img)
        (λ next. resolve_from next cs false vol) (λ next. resolve_from-same cs next))

-- Two states with such images.
module _ (before after : State) (folds : ci before ≡ false) (folds' : ci after ≡ false)
    (root : after.vol.root_ino ≡ before.vol.root_ino)
    (names : names_of after.vol ≡ names_of before.vol) (agrees : Agrees before.vol after.vol)
    (closed : IsClosed after.vol) where
  resolve_dir-same :
      (q : RelPath) → resolve_dir q (ci after) after.vol ≡ resolve_dir q (ci before) before.vol
  unfolding resolve_dir
  resolve_dir-same q =
      ap (λ b. resolve_from after.vol.root_ino q b after.vol) folds'
      ∙ ap (λ r. resolve_from r q false after.vol) root
      ∙ resolve_from-same before.vol after.vol names agrees closed q before.vol.root_ino
      ∙ ap (λ b. resolve_from before.vol.root_ino q b before.vol) (sym folds)

  parent_and_leaf-same : (p : RelPath) → parent_and_leaf p after ≡ parent_and_leaf p before
  unfolding parent_and_leaf
  parent_and_leaf-same p =
      >>=-same (ok_or (file_name p) ErrorKind.invalid_input)
        (λ leaf. resolve_dir (parent_or_root p) (ci after) after.vol >>= λ d. ok (d, leaf))
        (λ leaf. resolve_dir (parent_or_root p) (ci before) before.vol >>= λ d. ok (d, leaf))
        (λ leaf. ap (λ r. r >>= λ d. ok (d, leaf)) (resolve_dir-same (parent_or_root p)))

  leaf_at-same : (r : IoResult (ℕ × Name)) → leaf_at r after ≡ leaf_at r before
  unfolding leaf_at
  leaf_at-same (err e) = refl
  leaf_at-same (ok (d, leaf)) =
      ap (λ f. ok (ino_of f))
        (ap (λ b. lookup d leaf b after.vol) folds'
          ∙ lookup-same before.vol after.vol names agrees closed d leaf
          ∙ ap (λ b. lookup d leaf b before.vol) (sym folds))

  pub lookup_leaf-same : (p : RelPath) → lookup_leaf p after ≡ lookup_leaf p before
  unfolding lookup_leaf
  lookup_leaf-same p =
      ap (λ i. if is_root p then ok (some i) else leaf_at (parent_and_leaf p after) after) root
      ∙ ap (λ r. if is_root p then ok (some before.vol.root_ino) else r)
          (leaf_at-same (parent_and_leaf p after)
            ∙ ap (λ r. leaf_at r before) (parent_and_leaf-same p))
