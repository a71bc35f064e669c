-- ===== src/Sim/Kept.antt =====
-- Files and directories that an image has are kept by an op that becomes durable (`apply_op` of
-- src/sim.rs).
use fstx.Base.{ℕ, List, Bool, true, false, nat_eq, list_eq, ◌∙◌, list_ord, nat_ord}
use fstx.Base.Map.{insert}
use fstx.Path.{Name}
use fstx.Sim.{Image}
use fstx.Sim.State.{Op, link, unlink, rename, Violation}
use fstx.Sim.Crash.{
  Fate, apply, both_names, Replay, ensure_node, insert_entry, remove_held, remove_entry, persist,
  apply_op,
}
use fstx.Sim.Grows.{
  KeepsFiles, KeepsDirs, KeepsFiles-change_entries, is_dir_node-change_entries,
  KeepsFiles-ensure_node, KeepsDirs-ensure_node, ready,
}

module _ (vol : Image) where
  KeepsFiles-insert_entry :
      (d : ℕ) (name : Name) (ino : ℕ) (img : Image) (vs : List Violation)
      → KeepsFiles img (insert_entry vol d name ino (img, vs)).0
  unfolding insert_entry KeepsFiles
  KeepsFiles-insert_entry d name ino img vs i b h =
      KeepsFiles-change_entries d (insert name ino) (ready vol d ino img) i b (
        KeepsFiles-ensure_node vol ino (ensure_node vol d img) i b
          (KeepsFiles-ensure_node vol d img i b h))

  KeepsFiles-remove_entry :
      (d : ℕ) (name : Name) (ino : ℕ) (img : Image) (vs : List Violation)
      → KeepsFiles img (remove_entry d name ino (img, vs)).0
  unfolding remove_entry
  KeepsFiles-remove_entry d name ino img vs = KeepsFiles-change_entries d (remove_held name ino) img

  KeepsFiles-persist :
      (op : Op) (keeps : Bool) (img : Image) (vs : List Violation)
      → KeepsFiles img (persist vol op keeps (img, vs)).0
  unfolding persist KeepsFiles
  KeepsFiles-persist (link d name ino) keeps img vs i b h =
      KeepsFiles-insert_entry d name ino img vs i b h
  KeepsFiles-persist (unlink d name ino) keeps img vs i b h =
      KeepsFiles-remove_entry d name ino img vs i b h
  KeepsFiles-persist (rename fdir fname tdir tname ino is_dir) true img vs i b h =
      KeepsFiles-insert_entry tdir tname ino img vs i b h
  KeepsFiles-persist (rename fdir fname tdir tname ino is_dir) false img vs i b h =
      KeepsFiles-insert_entry tdir tname ino (remove_entry fdir fname ino (img, vs)).0
        (remove_entry fdir fname ino (img, vs)).1 i b
        (KeepsFiles-remove_entry fdir fname ino img vs i b h)

  pub KeepsFiles-apply_op :
      (op : Op) (fate : Fate) (r : Replay) → KeepsFiles r.0 (apply_op vol op fate r).0
  unfolding apply_op KeepsFiles
  KeepsFiles-apply_op op Fate.drop r i b h = h
  KeepsFiles-apply_op op apply (img, vs) i b h = KeepsFiles-persist op false img vs i b h
  KeepsFiles-apply_op op both_names (img, vs) i b h = KeepsFiles-persist op true img vs i b h

  KeepsDirs-insert_entry :
      (d : ℕ) (name : Name) (ino : ℕ) (img : Image) (vs : List Violation)
      → KeepsDirs img (insert_entry vol d name ino (img, vs)).0
  unfolding insert_entry KeepsDirs
  KeepsDirs-insert_entry d name ino img vs i h =
      is_dir_node-change_entries d (insert name ino) (ready vol d ino img) i
      ∙ KeepsDirs-ensure_node vol ino (ensure_node vol d img) i
          (KeepsDirs-ensure_node vol d img i h)

  KeepsDirs-remove_entry :
      (d : ℕ) (name : Name) (ino : ℕ) (img : Image) (vs : List Violation)
      → KeepsDirs img (remove_entry d name ino (img, vs)).0
  unfolding remove_entry KeepsDirs
  KeepsDirs-remove_entry d name ino img vs i h =
      is_dir_node-change_entries d (remove_held name ino) img i ∙ h

  KeepsDirs-persist :
      (op : Op) (keeps : Bool) (img : Image) (vs : List Violation)
      → KeepsDirs img (persist vol op keeps (img, vs)).0
  unfolding persist KeepsDirs
  KeepsDirs-persist (link d name ino) keeps img vs i h =
      KeepsDirs-insert_entry d name ino img vs i h
  KeepsDirs-persist (unlink d name ino) keeps img vs i h =
      KeepsDirs-remove_entry d name ino img vs i h
  KeepsDirs-persist (rename fdir fname tdir tname ino is_dir) true img vs i h =
      KeepsDirs-insert_entry tdir tname ino img vs i h
  KeepsDirs-persist (rename fdir fname tdir tname ino is_dir) false img vs i h =
      KeepsDirs-insert_entry tdir tname ino (remove_entry fdir fname ino (img, vs)).0
        (remove_entry fdir fname ino (img, vs)).1 i
        (KeepsDirs-remove_entry fdir fname ino img vs i h)

  pub KeepsDirs-apply_op :
      (op : Op) (fate : Fate) (r : Replay) → KeepsDirs r.0 (apply_op vol op fate r).0
  unfolding apply_op KeepsDirs
  KeepsDirs-apply_op op Fate.drop r i h = h
  KeepsDirs-apply_op op apply (img, vs) i h = KeepsDirs-persist op false img vs i h
  KeepsDirs-apply_op op both_names (img, vs) i h = KeepsDirs-persist op true img vs i h
