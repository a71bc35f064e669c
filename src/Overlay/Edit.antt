-- ===== src/Overlay/Edit.antt =====
-- The operations of the logical layer (src/overlay.rs).
use fstx.Base.{
  ℕ, ◌+◌, List, [], ◌∷◌, ◌++◌, Option, none, some, Bool, true, false, ◌==◌, nat_eq, list_eq,
  if◌then◌else◌, is_empty, Result, ok, err, map_ok, list_ord, nat_ord,
}
use fstx.Base.Action.{Action, ◌>>=◌, ◌>>◌, pure, fail, reads, lift, for_each}
use fstx.Base.Map.{BTreeMap, get, insert, remove}
use fstx.Path.{RelPath, proper_prefixes, strip_prefix, join_path, is_ancestor_of}
use fstx.Error.{Error}
use fstx.Vfs.{Vfs}
use fstx.Overlay.{
  Overlay, Entry, Slot, absent, present, Src, base, blob, new_dir, EKind, plain, directory, special,
  is_dir, resolve, require_parent_dir, check_new_name, children_of_placed, list, from_io,
}

-- An operation changes the overlay; what it changed before an error stays changed.
abbrev pub Edit : Type 0 → Type 0
Edit = Action Overlay Error

abbrev pub place : RelPath → Slot → Overlay → Overlay
place p slot ov = record ov { placed = insert p slot ov.placed }

unfoldable pub detach : Entry → Overlay → Overlay
detach e ov = elim e.source [
  | base origin id mode ↦ record ov { detached = insert origin (id, e.kind) ov.detached }
  | _ ↦ ov
]

-- Takes the keys out of the map; each of them is there.
unfoldable pub remove_keys :
    List RelPath → BTreeMap RelPath Slot → List (RelPath × Slot) × BTreeMap RelPath Slot
remove_keys [] m = ([], m)
remove_keys (k ∷ ks) m =
    let (taken, rest) = remove_keys ks (remove k m) in
    elim (get k m) [ some slot ↦ ((k, slot) ∷ taken, rest) | none ↦ (taken, rest) ]

unfoldable pub drop_placed_under : RelPath → Overlay → List (RelPath × Slot) × Overlay
unfolding remove_keys
drop_placed_under p ov =
    let (taken, rest) = remove_keys (children_of_placed ov p) ov.placed in
    (taken, record ov { placed = rest })

-- The slots that were under `from`, now under `to`.
unfoldable pub place_moved :
    RelPath → RelPath → List (RelPath × Slot) → BTreeMap RelPath Slot → BTreeMap RelPath Slot
place_moved from to [] m = m
place_moved from to ((k, slot) ∷ moved) m = elim (strip_prefix k from) [
  | some rest ↦ place_moved from to moved (insert (join_path to rest) slot m)
  | none ↦ place_moved from to moved m
]

-- What `rename` does once nothing can fail any more.
unfoldable pub move_entry : RelPath → RelPath → Entry → Overlay → Overlay
unfolding drop_placed_under detach place_moved
move_entry from to e ov =
    let (moved, dropped) = drop_placed_under from ov in
    let gone = detach e (place from absent dropped) in
    place to (present e) (record gone { placed = place_moved from to moved gone.placed })

-- What `remove` and `remove_dir_all` do once nothing can fail any more.
unfoldable pub remove_entry : RelPath → Entry → Overlay → Overlay
unfolding drop_placed_under detach
remove_entry p e ov = detach e (place p absent (drop_placed_under p ov).1)

unfoldable pub check_removable : RelPath → EKind → Bool → Result Error (Unit {0})
check_removable p special empty = err (Error.unsupported_file_type p)
check_removable p directory false = err (Error.directory_not_empty p)
check_removable p _ _ = ok tt

unfoldable pub check_removable_dir : RelPath → EKind → Result Error (Unit {0})
check_removable_dir p directory = ok tt
check_removable_dir p plain = err (Error.not_a_directory p)
check_removable_dir p special = err (Error.unsupported_file_type p)

abbrev pub is_special : EKind → Bool
is_special special = true
is_special _ = false

module _ (vfs : Vfs) (s : vfs.State) where
  -- `self.resolve(vfs, p)?.ok_or_else(|| Error::NotFound(..))?`
  unfoldable pub resolve_present : RelPath → Edit Entry
  resolve_present p = do
    found ← reads (λ ov. resolve vfs s ov p)
    elim found [ none ↦ fail (Error.not_found p) | some e ↦ pure e ]

  unfoldable pub apply_write : RelPath → ℕ → Option ℕ → Edit (Unit {0})
  unfolding detach
  apply_write p n mode = do
    found ← reads (λ ov. resolve vfs s ov p)
    λ ov. (
      ok tt,
      place p (present (record { kind = plain; source = blob n mode }))
          (elim found [ none ↦ ov | some e ↦ detach e ov ]),
    )

  -- `next_dir` is a `u32`, whose increment panics in a debug build where it overflows.
  unfoldable pub add_dir : RelPath → Edit (Unit {0})
  add_dir q = do
    parent ← reads (λ ov. require_parent_dir vfs s ov q)
    reads (λ ov. check_new_name vfs s ov q parent)
    λ ov. (
      ok tt,
      place q (present (record { kind = directory; source = new_dir ov.next_dir }))
          (record ov { next_dir = ov.next_dir + 1 }),
    )

  unfoldable pub create_dir : RelPath → Edit (Unit {0})
  unfolding add_dir
  create_dir q = do
    found ← reads (λ ov. resolve vfs s ov q)
    elim found [
      | some e ↦ if is_dir e.kind then pure tt else fail (Error.not_a_directory q)
      | none ↦ add_dir q
    ]

  unfoldable pub create_dir_all : RelPath → Edit (Unit {0})
  unfolding create_dir
  create_dir_all p = for_each (proper_prefixes p ++ (p ∷ [])) create_dir

  unfoldable pub check_target : RelPath → RelPath → Overlay → Result Error (Unit {0})
  check_target from to ov =
      if is_ancestor_of from to
      then err (Error.invalid_move from to)
      else elim (require_parent_dir vfs s ov to) [
        | err e ↦ err e
        | ok parent ↦ elim (resolve vfs s ov to) [
          | err e ↦ err e
          | ok (some _) ↦ err (Error.already_exists to)
          | ok none ↦ check_new_name vfs s ov to parent
        ]
      ]

  unfoldable pub rename : RelPath → RelPath → Edit (Unit {0})
  unfolding resolve_present check_target move_entry
  rename from to = do
    e ← resolve_present from
    if is_special e.kind
        then fail (Error.unsupported_file_type from)
        else if from == to
        then pure tt
        else reads (check_target from to) >> (λ ov. (ok tt, move_entry from to e ov))

  -- The directory is listed only where the entry is one.
  unfoldable pub is_empty_dir : RelPath → Entry → Overlay → Result Error Bool
  is_empty_dir p e ov = if is_dir e.kind then map_ok is_empty (list vfs s ov p e) else ok true

  unfoldable pub remove_path : RelPath → Edit (Unit {0})
  unfolding resolve_present check_removable remove_entry is_empty_dir
  remove_path p = do
    e ← resolve_present p
    empty ← reads (is_empty_dir p e)
    lift (check_removable p e.kind empty)
    λ ov. (ok tt, remove_entry p e ov)

  unfoldable pub remove_dir_all : RelPath → Edit (Unit {0})
  unfolding resolve_present check_removable_dir remove_entry
  remove_dir_all p = do
    e ← resolve_present p
    lift (check_removable_dir p e.kind)
    λ ov. (ok tt, remove_entry p e ov)

  -- `blob_path` says where a staged file is.
  unfoldable pub read_entry : (ℕ → RelPath) → RelPath → EKind → Src → Result Error (List ℕ)
  read_entry blob_path p directory src = err (Error.is_a_directory p)
  read_entry blob_path p special src = err (Error.unsupported_file_type p)
  read_entry blob_path p plain (base origin id mode) = from_io (vfs.read_file origin s)
  read_entry blob_path p plain (blob n mode) = from_io (vfs.read_file (blob_path n) s)
  read_entry blob_path p plain (new_dir n) = err (Error.is_a_directory p)

  unfoldable pub read : (ℕ → RelPath) → RelPath → Overlay → Result Error (List ℕ)
  unfolding read_entry
  read blob_path p ov = elim (resolve vfs s ov p) [
    | err e ↦ err e
    | ok none ↦ err (Error.not_found p)
    | ok (some e) ↦ read_entry blob_path p e.kind e.source
  ]
