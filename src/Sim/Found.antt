-- ===== src/Sim/Found.antt =====
-- What a call has found when its checks pass (src/sim.rs).
use fstx.Base.{
  ℕ, [], ◌∷◌, Option, none, some, Bool, true, false, not, ◌&&◌, ◌==◌, nat_eq, list_eq, ◌≡◌, ◌≢◌,
  refl, ap, ◌∙◌, arith, list_ord, nat_ord, Bool-cases, inl, inr, ok, err, ◌>>=◌, ◌>>◌, >>=-eq-ok,
  >>-eq-ok, ok_or, fail_if, ok-injective,
}
use mathlib.Core.Path.{subst}
use mathlib.Core.Option.{some_inj}
use fstx.Base.Map.{get}
use fstx.Path.{Name, RelPath, file_name, parent_or_root, is_root}
use fstx.Error.{ErrorKind}
use fstx.Vfs.{FileId, IoResult}
use fstx.Sim.{
  entries_of, find_inexact, enter, enter_found, Node, file_node, dir_node, symlink_node, Image,
  Entries, node_at, entries, fold_name, find_folded, find_entry, lookup, resolve_name, resolve_from,
  resolve_dir,
}
use fstx.Sim.State.{
  State, ci, ino_of, tolerate_missing, leaf_at, lookup_leaf, parent_and_leaf, check_parent,
}
use fstx.Sim.Calls.{
  is_dir_node, check_free, free_place, entry_at, removable, removable_dir, check_empty, movable,
  climbs_to, climb_limit, Move,
}
use fstx.Sim.Namespace.{names_of, entry_in}
use fstx.Sim.Agrees.{is_node, is_node-dir}
use fstx.Sim.Grows.{IsClosed}

find_folded_lem :
    (folded : Name) (es : Entries) (k : Name) (v : ℕ)
    → find_folded folded es ≡ some (k, v)
    → (fold_name k ≡ folded) × (get k es ≡ some v)
unfolding find_folded get
find_folded_lem folded [] k v h = cc
find_folded_lem folded ((j, w) ∷ es) k v h = elim (Bool-cases (fold_name j == folded)) [
  | inl q ↦
      let found : ◌≡◌ {A = Option (Name × ℕ)} (some (j, w)) (some (k, v)) = rw q at h in
      let at : j ≡ k = ground arith in let is : w ≡ v = ground arith in (ground arith, ground arith)
  | inr q ↦
      let later : find_folded folded es ≡ some (k, v) = rw q at h in
      let (same, there) = find_folded_lem folded es k v later in (same, ground arith)
]

find_inexact_lem :
    (exact : Option ℕ) (name : Name) (folds : Bool) (es : Entries) (k : Name) (v : ℕ)
    → get name es ≡ exact
    → find_inexact exact name folds es ≡ some (k, v)
    → get k es ≡ some v
unfolding find_inexact
find_inexact_lem (some i) name folds es k v e h =
    let at : name ≡ k = ground arith in let is : i ≡ v = ground arith in rw (← at, ← is) e
find_inexact_lem none name true es k v e h = (find_folded_lem (fold_name name) es k v h).1
find_inexact_lem none name false es k v e h = cc

find_entry_lem :
    (found : Option Node) (leaf : Name) (folds : Bool) (name : Name) (ino : ℕ)
    → find_entry leaf folds (entries_of found) ≡ some (name, ino)
    → entry_in found name ≡ some ino
unfolding find_entry entries_of entry_in
find_entry_lem none leaf folds name ino h = cc
find_entry_lem (some (file_node b m)) leaf folds name ino h = cc
find_entry_lem (some symlink_node) leaf folds name ino h = cc
find_entry_lem (some (dir_node es m)) leaf folds name ino h =
    find_inexact_lem (get leaf es) leaf folds es name ino refl h

ok_or-inv :
    (found : Option (Name × ℕ)) (entry : Name × ℕ)
    → ok_or found ErrorKind.not_found ≡ ok entry
    → found ≡ some entry
ok_or-inv none entry h = cc
ok_or-inv (some e) entry h = ap some (ok-injective h)

-- What a lookup finds is an entry of the directory.
pub lookup-names_of :
    (d : ℕ) (leaf : Name) (folds : Bool) (img : Image) (name : Name) (ino : ℕ)
    → lookup d leaf folds img ≡ some (name, ino)
    → names_of img d name ≡ some ino
unfolding lookup names_of entries
lookup-names_of d leaf folds img name ino = find_entry_lem (node_at d img) leaf folds name ino

enter_lem :
    (ino : ℕ) (found : Option Node) (d : ℕ)
    → enter ino found ≡ ok d
    → (ino ≡ d) × (is_dir_node found ≡ true)
unfolding enter is_dir_node
enter_lem ino none d h = cc
enter_lem ino (some symlink_node) d h = cc
enter_lem ino (some (file_node b m)) d h = cc
enter_lem ino (some (dir_node es m)) d h = (ok-injective h, refl)

resolve_name_of :
    (img : Image) (found : Option (Name × ℕ)) (d : ℕ)
    → enter_found found img ≡ ok d
    → is_dir_node (node_at d img) ≡ true
unfolding enter_found
resolve_name_of img none d h = cc
resolve_name_of img (some (name, ino)) d h =
    let (same, is_dir) = enter_lem ino (node_at ino img) d h in rw (← same) is_dir

pub resolve_from-is_dir_node :
    (cur : ℕ) (p : RelPath) (folds : Bool) (img : Image) (d : ℕ)
    → is_dir_node (node_at cur img) ≡ true
    → resolve_from cur p folds img ≡ ok d
    → is_dir_node (node_at d img) ≡ true
unfolding resolve_from resolve_name
resolve_from-is_dir_node cur [] folds img d is_dir h = rw (← ok-injective h) is_dir
resolve_from-is_dir_node cur (c ∷ cs) folds img d is_dir h =
    let (next, first, rest) =
      >>=-eq-ok (resolve_name cur c folds img) (λ n. resolve_from n cs folds img) h in
    resolve_from-is_dir_node next cs folds img d
      (resolve_name_of img (lookup cur c folds img) next first) rest

entry_at-names_of :
    (d : ℕ) (leaf : Name) (st : State) (entry : Name × ℕ)
    → entry_at d leaf st ≡ ok entry
    → names_of st.vol d entry.0 ≡ some entry.1
unfolding entry_at
entry_at-names_of d leaf st entry h =
    lookup-names_of d leaf (ci st) st.vol entry.0 entry.1
      (ok_or-inv (lookup d leaf (ci st) st.vol) entry h)

module _ (st : State) (root_dir : is_dir_node (node_at st.vol.root_ino st.vol) ≡ true) where
  pub parent_and_leaf-is_dir_node :
      (p : RelPath) (place : ℕ × Name)
      → parent_and_leaf p st ≡ ok place
      → is_dir_node (node_at place.0 st.vol) ≡ true
  unfolding parent_and_leaf resolve_dir
  parent_and_leaf-is_dir_node p place h =
      let (leaf, named, rest) =
        >>=-eq-ok (ok_or (file_name p) ErrorKind.invalid_input)
          (λ leaf. resolve_dir (parent_or_root p) (ci st) st.vol >>= λ d. ok (d, leaf)) h in
      let (d, at, last) =
        >>=-eq-ok (resolve_dir (parent_or_root p) (ci st) st.vol) (λ d. ok (d, leaf)) rest in
      let same : d ≡ place.0 = ap (λ q. q.0) (ok-injective last) in
      rw (← same)
        (resolve_from-is_dir_node st.vol.root_ino (parent_or_root p) (ci st) st.vol d root_dir at)

  pub free_place-is_dir_node :
      (p : RelPath) (place : ℕ × Name)
      → free_place p st ≡ ok place
      → is_dir_node (node_at place.0 st.vol) ≡ true
  unfolding free_place
  free_place-is_dir_node p place h =
      let (at, found, rest) =
        >>=-eq-ok (parent_and_leaf p st)
          (λ at. check_free (lookup at.0 at.1 (ci st) st.vol) >> ok at) h in
      let (u, free, last) =
        >>=-eq-ok (check_free (lookup at.0 at.1 (ci st) st.vol)) (λ u. ok at) rest in
      parent_and_leaf-is_dir_node p place (found ∙ last)

-- The entry that a chain of checks ends with, in its directory.
abbrev entry : ℕ → Name × ℕ → IoResult (ℕ × Name × ℕ)
entry d e = ok (d, e.0, e.1)

module _ (st : State) where
  pub removable-names_of :
      (p : RelPath) (expect_parent : Option FileId) (d : ℕ) (name : Name) (ino : ℕ)
      → removable p expect_parent st ≡ ok (d, name, ino)
      → names_of st.vol d name ≡ some ino
  unfolding removable
  removable-names_of p expect_parent d name ino h =
      let judge = λ (at : ℕ × Name) (e : Name × ℕ).
        fail_if (is_dir_node (node_at e.1 st.vol)) ErrorKind.is_a_directory >> entry at.0 e in
      let (at, found, rest) =
        >>=-eq-ok (parent_and_leaf p st)
          (λ at. check_parent at.0 expect_parent st >> (entry_at at.0 at.1 st >>= judge at)) h in
      let rest' =
        >>-eq-ok (check_parent at.0 expect_parent st) (entry_at at.0 at.1 st >>= judge at) rest in
      let (e, there, last) = >>=-eq-ok (entry_at at.0 at.1 st) (judge at) rest' in
      let end =
        >>-eq-ok (fail_if (is_dir_node (node_at e.1 st.vol)) ErrorKind.is_a_directory)
          (entry at.0 e) last in
      cc (entry_at-names_of at.0 at.1 st e there, ok-injective end)

  pub removable_dir-names_of :
      (p : RelPath) (d : ℕ) (name : Name) (ino : ℕ)
      → removable_dir p st ≡ ok (d, name, ino)
      → names_of st.vol d name ≡ some ino
  unfolding removable_dir
  removable_dir-names_of p d name ino h =
      let judge =
        λ (at : ℕ × Name) (e : Name × ℕ). check_empty (entries e.1 st.vol) >> entry at.0 e in
      let (at, found, rest) =
        >>=-eq-ok (parent_and_leaf p st) (λ at. entry_at at.0 at.1 st >>= judge at) h in
      let (e, there, last) = >>=-eq-ok (entry_at at.0 at.1 st) (judge at) rest in
      let end = >>-eq-ok (check_empty (entries e.1 st.vol)) (entry at.0 e) last in
      cc (entry_at-names_of at.0 at.1 st e there, ok-injective end)

  abbrev moves : Name × ℕ → ℕ × Name → ℕ × Name → Bool → IoResult Move
  moves e source target is_dir = ok (source.0, e.0, target.0, target.1, e.1, is_dir)

  -- The source is an entry, and the target's parent a directory.
  unfoldable pub IsFound : Move → Type 0
  IsFound move =
      (names_of st.vol move.0 move.1 ≡ some move.4) × (is_dir_node (node_at move.2 st.vol) ≡ true)

  IsFound-moves :
      (e : Name × ℕ) (source target : ℕ × Name) (is_dir : Bool) (move : Move)
      → moves e source target is_dir ≡ ok move
      → names_of st.vol source.0 e.0 ≡ some e.1
      → is_dir_node (node_at target.0 st.vol) ≡ true
      → IsFound move
  IsFound-moves e source target is_dir move h there aimed =
      subst IsFound (ok-injective h) (unfold IsFound in (there, aimed))

  pub movable-IsFound :
      (root_dir : is_dir_node (node_at st.vol.root_ino st.vol) ≡ true) (from : RelPath)
      (expect_from : Option FileId) (to : RelPath) (expect_to : Option FileId) (move : Move)
      → movable from expect_from to expect_to st ≡ ok move
      → IsFound move
  unfolding movable
  movable-IsFound root_dir from expect_from to expect_to move h =
      let kind = λ (e : Name × ℕ). is_dir_node (node_at e.1 st.vol) in
      let loops = λ (e : Name × ℕ) (target : ℕ × Name).
        fail_if (kind e && climbs_to climb_limit e.1 target.0 st.vol) ErrorKind.invalid_input in
      let free = λ (target : ℕ × Name). check_free (lookup target.0 target.1 (ci st) st.vol) in
      let tail = λ (source target : ℕ × Name) (e : Name × ℕ).
        free target >> (loops e target >> moves e source target (kind e)) in
      let checks = λ (source target : ℕ × Name).
        check_parent source.0 expect_from st
        >> (check_parent target.0 expect_to st
            >> (entry_at source.0 source.1 st >>= tail source target)) in
      let supported =
        >>-eq-ok (fail_if (not st.cfg.noreplace) ErrorKind.unsupported)
          (parent_and_leaf from st >>= λ source. parent_and_leaf to st >>= checks source) h in
      let (source, found, rest) =
        >>=-eq-ok (parent_and_leaf from st) (λ source. parent_and_leaf to st >>= checks source)
          supported in
      let (target, aimed, rest') = >>=-eq-ok (parent_and_leaf to st) (checks source) rest in
      let rest'' =
        >>-eq-ok (check_parent target.0 expect_to st)
          (entry_at source.0 source.1 st >>= tail source target)
          (>>-eq-ok (check_parent source.0 expect_from st)
            (check_parent target.0 expect_to st
              >> (entry_at source.0 source.1 st >>= tail source target))
            rest') in
      let (e, there, last) =
        >>=-eq-ok (entry_at source.0 source.1 st) (tail source target) rest'' in
      let end : moves e source target (kind e) ≡ ok move =
        >>-eq-ok (loops e target) (moves e source target (kind e))
          (>>-eq-ok (free target) (loops e target >> moves e source target (kind e)) last) in
      IsFound-moves e source target (kind e) move end
        (entry_at-names_of source.0 source.1 st e there)
        (parent_and_leaf-is_dir_node st root_dir to target aimed)

-- What a path leads to is a node, where every entry stands for one.
module _ (st : State) (root_dir : is_dir_node (node_at st.vol.root_ino st.vol) ≡ true)
    (closed : IsClosed st.vol) where
  ino_of_lem :
      (d : ℕ) (leaf : Name) (ino : ℕ) (found : Option (Name × ℕ))
      → lookup d leaf (ci st) st.vol ≡ found
      → ino_of found ≡ some ino
      → is_node (node_at ino st.vol) ≡ true
  unfolding IsClosed ino_of
  ino_of_lem d leaf ino none e h = cc
  ino_of_lem d leaf ino (some (name, i)) e h =
      let same : i ≡ ino = some_inj.0 h in
      rw (← same) (closed d name i (lookup-names_of d leaf (ci st) st.vol name i e))

  tolerate_missing_lem : (e : ErrorKind) (ino : ℕ) → tolerate_missing e ≢ ok (some ino)
  unfolding tolerate_missing
  tolerate_missing_lem ErrorKind.not_found ino h = cc
  tolerate_missing_lem ErrorKind.not_a_directory ino h = cc
  tolerate_missing_lem ErrorKind.already_exists ino h = cc
  tolerate_missing_lem ErrorKind.is_a_directory ino h = cc
  tolerate_missing_lem ErrorKind.directory_not_empty ino h = cc
  tolerate_missing_lem ErrorKind.invalid_input ino h = cc
  tolerate_missing_lem ErrorKind.unsupported ino h = cc
  tolerate_missing_lem ErrorKind.other ino h = cc

  leaf_at_lem :
      (r : IoResult (ℕ × Name)) (ino : ℕ)
      → leaf_at r st ≡ ok (some ino)
      → is_node (node_at ino st.vol) ≡ true
  unfolding leaf_at
  leaf_at_lem (err e) ino h = absurd (tolerate_missing_lem e ino h)
  leaf_at_lem (ok (d, leaf)) ino h =
      ino_of_lem d leaf ino (lookup d leaf (ci st) st.vol) refl (ok-injective h)

  pub lookup_leaf-is_node :
      (p : RelPath) (ino : ℕ)
      → lookup_leaf p st ≡ ok (some ino)
      → is_node (node_at ino st.vol) ≡ true
  unfolding lookup_leaf
  lookup_leaf-is_node p ino h = elim (Bool-cases (is_root p)) [
    | inl q ↦
        let same : st.vol.root_ino ≡ ino = some_inj.0 (ok-injective (rw q at h)) in
        rw (← same) (is_node-dir (node_at st.vol.root_ino st.vol) root_dir)
    | inr q ↦ leaf_at_lem (parent_and_leaf p st) ino (rw q at h)
  ]
