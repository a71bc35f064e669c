-- ===== src/Sim/MovesKeep.antt =====
-- Renames and removals of the simulated filesystem keep the invariant on names (src/sim.rs).
use fstx.Base.{
  ℕ, Option, none, some, Bool, true, false, nat_eq, list_eq, ◌≡◌, refl, sym, ap, ◌∙◌, arith,
  list_ord, nat_ord,
}
use mathlib.Core.Path.{fun_ext}
use fstx.Base.Map.{insert, remove}
use fstx.Path.{Name, RelPath}
use fstx.Vfs.{FileId}
use fstx.Sim.{Image, node_at, change_entries}
use fstx.Sim.State.{Op, rename, takes, dirs, State, record_op}
use fstx.Sim.Crash.{is_the}
use fstx.Sim.Calls.{is_dir_node, removable, removable_dir, movable}
use fstx.Sim.Changes.{
  change_id, move_entry, move_node, rename_noreplace, remove_node, unlink, rmdir,
}
use fstx.Sim.Namespace.{
  Space, names_of, names_of-insert, names_of-remove, assign, take_away, perform,
}
use fstx.Sim.Agrees.{IsTied}
use fstx.Sim.Grows.{IsClosed, Grows, KeepsDirs, IsClosed-assign, IsClosed-take_away}
use fstx.Sim.Coherent.{IsCoherent, Agrees-Grows, Agrees-KeepsDirs, Agrees-trans, Coherent-extend}
use fstx.Sim.Kinds.{change_entries-Agrees, none-change_entries, takes-IsTied}
use fstx.Sim.Found.{removable-names_of, removable_dir-names_of, IsFound, movable-IsFound}
use fstx.Sim.CallsKeep.{Keeps, Keeps-checked, IsCoherent-count}

-- An entry that stands for the inode is taken away as any entry is.
take_away-held :
    (d : ℕ) (n : Name) (ino : ℕ) (f : Space)
    → f d n ≡ some ino
    → take_away d n ino f ≡ assign d n none f
unfolding take_away assign is_the
take_away-held d n ino f h = fun_ext (λ e. fun_ext (λ m. rw h (ground arith)))

module _ (st : State) (d : ℕ) (name : Name) (ino : ℕ) (h : IsCoherent st)
    (found : names_of st.vol d name ≡ some ino) where
  abbrev without : Image
  without = change_entries d (remove name) st.vol

  names_of-without : names_of without ≡ take_away d name ino (names_of st.vol)
  names_of-without =
      names_of-remove d st.vol name ∙ sym (take_away-held d name ino (names_of st.vol) found)

  IsClosed-without : IsClosed without
  IsClosed-without =
      IsClosed-take_away d name ino st.vol without names_of-without
        (Agrees-Grows st.vol without (change_entries-Agrees d (remove name) st.vol)) h.visible

  pub IsCoherent-remove_node : IsCoherent (remove_node (d, name, ino) st).1
  unfolding remove_node record_op perform IsTied takes
  IsCoherent-remove_node =
      let op = Op.unlink d name ino in
      Coherent-extend st.vol without st.dur st.pending (record { op = op; unsynced = dirs op })
        st.next_ino st.next_ino h (change_entries-Agrees d (remove name) st.vol) refl
        (λ i beyond. none-change_entries d (remove name) st.vol i (h.fresh i beyond))
        IsClosed-without (λ e m i t. cc) names_of-without

  pub IsCoherent-moved :
      (tdir : ℕ) (tname : Name) (is_dir : Bool)
      → is_dir_node (node_at tdir st.vol) ≡ true
      → IsCoherent (
          record_op
            (rename d name tdir tname ino is_dir)
            (record st { vol = move_entry d name tdir tname ino st.vol }))
  unfolding record_op move_entry perform takes IsClosed Grows KeepsDirs
  IsCoherent-moved tdir tname is_dir aimed =
      let op = rename d name tdir tname ino is_dir in
      let vol' = change_entries tdir (insert tname ino) without in
      let gone = change_entries-Agrees d (remove name) st.vol in
      let put = change_entries-Agrees tdir (insert tname ino) without in
      let agrees = Agrees-trans without vol' put st.vol gone in
      let same : names_of vol' ≡ perform op (names_of st.vol) =
        names_of-insert tdir without tname ino (Agrees-KeepsDirs st.vol without gone tdir aimed)
        ∙ ap (assign tdir tname (some ino)) names_of-without in
      let grows = Agrees-Grows without vol' put in
      let there = Agrees-Grows st.vol vol' agrees ino (h.visible d name ino found) in
      Coherent-extend st.vol vol' st.dur st.pending (record { op = op; unsynced = dirs op })
        st.next_ino st.next_ino h agrees refl
        (λ i beyond.
          none-change_entries tdir (insert tname ino) without i
            (none-change_entries d (remove name) st.vol i (h.fresh i beyond)))
        (IsClosed-assign tdir tname ino without vol'
          (names_of-insert tdir without tname ino (Agrees-KeepsDirs st.vol without gone tdir aimed))
          grows there IsClosed-without)
        (takes-IsTied vol' op (tdir, tname, ino) refl
          (Agrees-KeepsDirs st.vol vol' agrees tdir aimed) there)
        same

IsCoherent-change_id :
    (op : Op) (stable : Bool) (ino : ℕ) (st : State)
    → IsCoherent (record_op op st)
    → IsCoherent (record_op op (change_id stable ino st))
unfolding change_id record_op
IsCoherent-change_id op true ino st h = h
IsCoherent-change_id op false ino st h = h

pub IsCoherent-rename_noreplace :
    (from : RelPath) (expect_from : Option FileId) (to : RelPath) (expect_to : Option FileId)
    → Keeps IsCoherent (rename_noreplace from expect_from to expect_to)
unfolding rename_noreplace move_node IsFound
IsCoherent-rename_noreplace from expect_from to expect_to =
    Keeps-checked IsCoherent (movable from expect_from to expect_to) move_node
      (λ st move found h.
        let (there, aimed) =
          movable-IsFound st h.root_dir from expect_from to expect_to move found in
        let (fdir, fname, tdir, tname, ino, is_dir) = move in
        IsCoherent-change_id (rename fdir fname tdir tname ino is_dir) st.cfg.stable_ids ino
          (record st { vol = move_entry fdir fname tdir tname ino st.vol })
          (IsCoherent-moved st fdir fname ino h there tdir tname is_dir aimed))
      IsCoherent-count

pub IsCoherent-unlink :
    (p : RelPath) (expect_parent : Option FileId) → Keeps IsCoherent (unlink p expect_parent)
unfolding unlink
IsCoherent-unlink p expect_parent =
    Keeps-checked IsCoherent (removable p expect_parent) remove_node
      (λ st entry found h.
        IsCoherent-remove_node st entry.0 entry.1 entry.2 h
          (removable-names_of st p expect_parent entry.0 entry.1 entry.2 found))
      IsCoherent-count

pub IsCoherent-rmdir : (p : RelPath) → Keeps IsCoherent (rmdir p)
unfolding rmdir
IsCoherent-rmdir p =
    Keeps-checked IsCoherent (removable_dir p) remove_node
      (λ st entry found h.
        IsCoherent-remove_node st entry.0 entry.1 entry.2 h
          (removable_dir-names_of st p entry.0 entry.1 entry.2 found))
      IsCoherent-count
