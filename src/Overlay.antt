-- ===== src/Overlay.antt =====
-- The logical layer: which directory entry is at each path once the operations of a transaction are
-- applied (src/overlay.rs).
pub mod Edit
pub mod Resolve
pub mod Above
pub mod CheckWrite
pub mod ReadYourWrites
pub mod Invariant
pub mod Sound
pub mod Operations
pub mod Reachable
mod Tests
use fstx.Base.{
  ℕ, zero, suc, ◌+◌, ◌-◌, ◌*◌, ◌/◌, ◌%◌, ◌≤◌, ◌<◌, List, [], ◌∷◌, ◌++◌, map, Option, none, some,
  Bool, true, false, ◌&&◌, ◌||◌, not, ltb, leb, ◌==◌, nat_eq, list_eq, if◌then◌else◌, length, take,
  drop, is_empty, contains, any, all, ◌≡◌, refl, sym, ap, ◌∙◌, ◌≢◌, ◌↔◌, ◌⊎◌, inl, inr, arith,
  Bool-cases, Option-cases, ==_iff, ==_refl, Result, ok, err, ◌>>=◌, All, take-append, drop-append,
  take-append-drop, length-append, get_elem?, length-take_of_le, All-append, ok-injective,
  >>=-eq-ok, contains-append, length-set, all_below, all_below_sound, set, fail_if, ok_or, for_each,
  ◌>>◌, map_ok, replicate, Eq, Ord, list_ord, nat_ord,
}
use fstx.Base.Map.{BTreeMap, get, insert, remove, contains_key}
use fstx.Path.{
  Name, RelPath, root, join, parent_or_root, file_name, is_private, is_ancestor_of, depth,
  to_ascii_lowercase,
}
use fstx.Error.{Error, ErrorKind}
use fstx.Vfs.{Vfs, FileId, Kind, file, dir, symlink, other, Meta, IoResult}

-- Where an entry's inode comes from.
pub data Src : Type 0 where
  -- An existing entry: its base path, its identity and its permission bits.
  base : RelPath → FileId → ℕ → Src
  -- A staged file.
  blob : ℕ → Option ℕ → Src
  -- A directory made in this transaction.
  new_dir : ℕ → Src

pub data EKind : Type 0 where
  plain directory special : EKind

pub record Entry : Type 0 where
  pub kind : EKind
  pub source : Src

pub data Slot : Type 0 where
  absent : Slot
  present : Entry → Slot

pub record Overlay : Type 0 where
  pub placed : BTreeMap RelPath Slot
  pub detached : BTreeMap RelPath (FileId × EKind)
  pub root_id : FileId
  pub case_insensitive : Bool
  pub next_dir : ℕ

unfoldable pub ekind : Kind → EKind
ekind file = plain
ekind dir = directory
ekind symlink = special
ekind other = special

abbrev pub is_dir : EKind → Bool
is_dir directory = true
is_dir _ = false

unfoldable pub new : FileId → Bool → Overlay
new root_id case_insensitive = record {
  placed = [];
  detached = [];
  root_id = root_id;
  case_insensitive = case_insensitive;
  next_dir = 0;
}

unfoldable pub root_entry : Overlay → Entry
root_entry ov = record { kind = directory; source = base root ov.root_id 0 }

-- The name of a path that is not the root.
abbrev pub last_name : RelPath → Name
last_name p = elim (file_name p) [ none ↦ [] | some n ↦ n ]

-- The first name that is the same up to ASCII case.
unfoldable pub find_folded : Name → List Name → Option Name
find_folded folded [] = none
find_folded folded (n ∷ names) =
    if to_ascii_lowercase n == folded then some n else find_folded folded names

-- The entries behind a key.
unfoldable pub range_after : RelPath → BTreeMap RelPath Slot → BTreeMap RelPath Slot
range_after k [] = []
range_after k ((j, v) ∷ m) = if list_ord.lt k j then (j, v) ∷ m else range_after k m

unfoldable pub take_descendants : RelPath → BTreeMap RelPath Slot → List RelPath
take_descendants d [] = []
take_descendants d ((j, v) ∷ m) =
    let rest = take_descendants d m in if is_ancestor_of d j then j ∷ rest else []

unfoldable pub children_of_placed : Overlay → RelPath → List RelPath
unfolding range_after take_descendants
children_of_placed ov d = take_descendants d (range_after d ov.placed)

-- The conversion that `?` makes of an I/O error.
abbrev pub from_io : {A : Type 0} → IoResult A → Result Error A
from_io (ok a) = ok a
from_io (err e) = err (Error.io e)

abbrev pub NameSet : Type 0
NameSet = BTreeMap Name (Unit {0})

-- The placed names right under the directory.
unfoldable pub placed_names : Overlay → RelPath → List RelPath → NameSet → NameSet
placed_names ov d [] names = names
placed_names ov d (k ∷ ks) names = placed_names ov d ks (
    if depth k == depth d + 1 && elim (get k ov.placed) [ some (present e) ↦ true | _ ↦ false ]
    then insert (last_name k) tt names
    else names)

-- The base names that are still where they were.
unfoldable pub base_names : Overlay → RelPath → RelPath → List Name → NameSet → NameSet
base_names ov d origin [] names = names
base_names ov d origin (n ∷ ns) names = base_names ov d origin ns (
    if is_private (join d n)
      || contains_key (join d n) ov.placed
      || contains_key (join origin n) ov.detached
    then names
    else insert n tt names)

-- A new directory is a directory, so the last clause is never reached.
unfoldable pub check_overwrite : RelPath → EKind → Src → Result Error (Option ℕ)
check_overwrite p directory src = err (Error.is_a_directory p)
check_overwrite p special src = err (Error.unsupported_file_type p)
check_overwrite p plain (base origin id mode) = ok (some mode)
check_overwrite p plain (blob n mode) = ok mode
check_overwrite p plain (new_dir n) = ok none

module _ (vfs : Vfs) (s : vfs.State) where
  unfoldable pub stat_base : RelPath → Result Error (Option Entry)
  stat_base b = do
    found ← from_io (vfs.stat b s)
    elim found [
      | none ↦ ok none
      | some m ↦ ok (some (record { kind = ekind m.kind; source = base b m.id m.mode }))
    ]

  -- What the case-insensitive filesystem has under exactly this name.
  unfoldable pub lookup_exact : RelPath → List Name → Result Error (Option Entry)
  unfolding stat_base find_folded
  lookup_exact b names =
      if contains names (last_name b)
      then stat_base b
      else elim (find_folded (to_ascii_lowercase (last_name b)) names) [
        | some n ↦ err (Error.case_collision b (join (parent_or_root b) n))
        | none ↦ ok none
      ]

  unfoldable pub base_lookup : Overlay → RelPath → Result Error (Option Entry)
  unfolding lookup_exact
  base_lookup ov b =
      if is_private b
      then ok none
      else if ov.case_insensitive
      then from_io (vfs.read_dir (parent_or_root b) s) >>= lookup_exact b
      else stat_base b

  -- The entry that the directory `cur` at `view` has under the name, by the base tree.
  unfoldable pub inherit : Overlay → Src → Name → Result Error (Option Entry)
  unfolding base_lookup
  inherit ov (base origin id mode) c =
      if contains_key (join origin c) ov.detached then ok none else base_lookup ov (join origin c)
  inherit ov _ c = ok none

  -- One turn of the loop of `resolve`: no entry ends it.
  unfoldable pub resolve_name : Overlay → Entry → RelPath → Name → Result Error (Option Entry)
  unfolding inherit
  resolve_name ov cur view c =
      if not (is_dir cur.kind) then ok none else elim (get (join view c) ov.placed) [
        | some absent ↦ ok none
        | some (present e) ↦ ok (some e)
        | none ↦ inherit ov cur.source c
      ]

  unfoldable pub resolve_from : Overlay → Entry → RelPath → RelPath → Result Error (Option Entry)
  unfolding resolve_name
  resolve_from ov cur view [] = ok (some cur)
  resolve_from ov cur view (c ∷ cs) = do
    found ← resolve_name ov cur view c
    elim found [ none ↦ ok none | some e ↦ resolve_from ov e (join view c) cs ]

  -- The entry at a view path, if there is one.
  unfoldable pub resolve : Overlay → RelPath → Result Error (Option Entry)
  unfolding resolve_from
  resolve ov p = resolve_from ov (root_entry ov) root p

  unfoldable pub require_parent_dir : Overlay → RelPath → Result Error Entry
  require_parent_dir ov p = do
    found ← resolve ov (parent_or_root p)
    elim found [
      | some e ↦ if is_dir e.kind then ok e else err (Error.not_a_directory (parent_or_root p))
      | none ↦ err (Error.not_found (parent_or_root p))
    ]

  -- The names visible in the view directory whose entry is `e`.
  unfoldable pub list : Overlay → RelPath → Entry → Result Error NameSet
  list ov d e = elim e.source [
    | base origin id mode ↦ do
      names ← from_io (vfs.read_dir origin s)
      ok (base_names ov d origin names (placed_names ov d (children_of_placed ov d) []))
    | _ ↦ ok (placed_names ov d (children_of_placed ov d) [])
  ]

  unfoldable pub check_new_name : Overlay → RelPath → Entry → Result Error (Unit {0})
  check_new_name ov p parent = if not ov.case_insensitive then ok tt else do
    names ← list ov (parent_or_root p) parent
    elim (find_folded (to_ascii_lowercase (last_name p)) (map (λ e. e.0) names)) [
      | none ↦ ok tt
      | some n ↦ err (Error.case_collision p (join (parent_or_root p) n))
    ]

  -- The permission bits that a new file at the path must inherit.
  unfoldable pub check_write : Overlay → RelPath → Result Error (Option ℕ)
  check_write ov p = do
    parent ← require_parent_dir ov p
    found ← resolve ov p
    elim found [
      | none ↦ do check_new_name ov p parent; ok none
      | some e ↦ check_overwrite p e.kind e.source
    ]
