-- ===== src/Overlay/Tests.antt =====
-- Operations on the view over the sample filesystem (src/overlay.rs).
use fstx.Base.{ℕ, List, [], ◌∷◌, ◌++◌, Option, none, some, false, ok, ◌≡◌, refl, list_eq, nat_eq}
use fstx.Base.Map.{contains_key, get}
use fstx.Path.{RelPath}
use fstx.Vfs.{file, dir}
use fstx.Overlay.{Overlay, Entry, Slot, present, base, new, resolve, check_write, from_io, plain}
use fstx.Overlay.Edit.{read}
use fstx.Overlay.Above.{IsDetached}
use fstx.Overlay.ReadYourWrites.{written}
use fstx.Overlay.Operations.{move, write, run, run_all}
use fstx.Overlay.Reachable.{run_all-IsDetached, read-write}
use fstx.Samples.{table_vfs, Table, entry, private_entries, a, a_old, z, id, root_id, staged_b0}

-- `a/old` in the tree.
abbrev tree : Table
tree = entry a dir (id 10) ∷ entry a_old file (id 11) ∷ private_entries

-- `a` becomes `z`.
abbrev moved : Overlay
moved = run_all table_vfs tree (move a z ∷ []) (new root_id false)

-- `z/old`
abbrev z_old : RelPath
z_old = z ++ ((b'o' ∷ b'l' ∷ b'd' ∷ []) ∷ [])

-- The file is found under its directory's new name, with its old base path.
old_is_moved :
    resolve table_vfs tree moved z_old
    ≡ ok (some (record { kind = plain; source = base a_old (id 11) 0 }))
unfolding resolve run_all fstx.Overlay.root_entry get fstx.Overlay.Edit.rename new
    fstx.Path.is_private fstx.Path.join list_eq fstx.Overlay.ekind fstx.Path.is_ancestor_of
    fstx.Overlay.require_parent_dir fstx.Path.parent_or_root fstx.Overlay.check_new_name
    fstx.Base.Map.insert fstx.Overlay.children_of_placed fstx.Base.list_ord fstx.Base.nat_ord
old_is_moved = refl

old_is_gone : resolve table_vfs tree moved a_old ≡ ok none
unfolding resolve run_all fstx.Overlay.root_entry get fstx.Overlay.Edit.rename new
    fstx.Path.is_private fstx.Path.join list_eq fstx.Overlay.ekind fstx.Path.is_ancestor_of
    fstx.Overlay.require_parent_dir fstx.Path.parent_or_root fstx.Overlay.check_new_name
    fstx.Base.Map.insert fstx.Overlay.children_of_placed fstx.Base.list_ord fstx.Base.nat_ord
old_is_gone = refl

old_can_be_written : check_write table_vfs tree moved z_old ≡ ok (some 0)
unfolding check_write run_all fstx.Overlay.require_parent_dir resolve fstx.Path.parent_or_root
    fstx.Overlay.root_entry get fstx.Overlay.Edit.rename new fstx.Path.is_private fstx.Path.join
    list_eq fstx.Overlay.ekind fstx.Path.is_ancestor_of fstx.Overlay.check_new_name
    fstx.Base.Map.insert fstx.Overlay.children_of_placed fstx.Base.list_ord fstx.Base.nat_ord
    fstx.Base.Map.remove fstx.Overlay.Edit.add_dir fstx.Overlay.Edit.apply_write
    fstx.Overlay.Edit.check_removable fstx.Overlay.Edit.check_removable_dir
    fstx.Overlay.Edit.check_target fstx.Overlay.Edit.create_dir fstx.Overlay.Edit.create_dir_all
    fstx.Overlay.Edit.detach fstx.Overlay.Edit.drop_placed_under fstx.Overlay.Edit.is_empty_dir
    fstx.Overlay.Edit.move_entry fstx.Overlay.Edit.place_moved fstx.Overlay.Edit.remove_dir_all
    fstx.Overlay.Edit.remove_entry fstx.Overlay.Edit.remove_keys fstx.Overlay.Edit.remove_path
    fstx.Overlay.Edit.resolve_present run fstx.Overlay.base_lookup fstx.Overlay.base_names
    fstx.Overlay.check_overwrite fstx.Overlay.find_folded fstx.Overlay.inherit fstx.Overlay.list
    fstx.Overlay.lookup_exact fstx.Overlay.placed_names fstx.Overlay.range_after
    fstx.Overlay.resolve_from fstx.Overlay.resolve_name fstx.Overlay.stat_base
    fstx.Overlay.take_descendants fstx.Path.depth fstx.Path.file_name fstx.Path.join_path
    fstx.Path.parent fstx.Path.prefixes_from fstx.Path.proper_prefixes fstx.Path.strip_prefix
    fstx.Path.to_ascii_lowercase native.Mathlib.Decide.ℕ_discrete
old_can_be_written = refl

run_all-IsDetached_example : IsDetached moved
run_all-IsDetached_example = run_all-IsDetached table_vfs tree (move a z ∷ []) root_id false

read-write_example :
    ((run table_vfs tree (write z_old 0 (some 420)) moved).0 ≡ ok tt)
    × (resolve table_vfs tree
          (run_all table_vfs tree (move a z ∷ write z_old 0 (some 420) ∷ []) (new root_id false))
          z_old
        ≡ ok (some (written 0 (some 420))))
    × (read table_vfs tree
          (λ n. staged_b0)
          z_old
          (run_all table_vfs tree (move a z ∷ write z_old 0 (some 420) ∷ []) (new root_id false))
        ≡ from_io (table_vfs.read_file staged_b0 tree))
read-write_example =
    read-write table_vfs tree (λ n. staged_b0) (move a z ∷ []) root_id false z_old 0 (some 420)
      (some 0) old_can_be_written
