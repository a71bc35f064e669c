-- ===== src/Sim/Loss.antt =====
-- What a power loss leaves is a coherent state again, whichever ops persist (src/sim.rs).
use fstx.Base.{
  ℕ, List, [], ◌∷◌, Option, none, some, true, nat_eq, list_eq, ◌≡◌, refl, ◌∙◌, list_ord, nat_ord,
}
use fstx.Sim.{Node, file_node, dir_node, symlink_node, Image, BTreeSet, node_at, change_entries}
use fstx.Sim.State.{Op, link, unlink, rename, Pending, State}
use fstx.Sim.Crash.{
  Fate, apply, both_names, Replay, apply_op, insert_entry, remove_entry, ensure_node, persist,
  next_fate, lose_ops, garble, data_variant, lose_data, power_loss,
}
use fstx.Sim.Calls.{is_dir_node}
use fstx.Sim.Namespace.{entry_in, perform_all}
use fstx.Sim.Agrees.{Agrees, agree}
use fstx.Sim.Grows.{KeepsDirs}
use fstx.Sim.Persist.{IsBase, IsBase-apply_op}
use fstx.Sim.Kept.{KeepsDirs-apply_op}
use fstx.Sim.Coherent.{
  IsCoherent, AllTied, Agrees-KeepsDirs, Agrees-Grows, agree-none, IsClosed-same,
}
use fstx.Sim.Kinds.{with_node, names_of-with_node, Agrees-with_node, Agrees-of_node, Agrees-self}

root_ino-apply_op :
    (vol : Image) (op : Op) (fate : Fate) (r : Replay)
    → (apply_op vol op fate r).0.root_ino ≡ r.0.root_ino
unfolding apply_op persist insert_entry remove_entry ensure_node change_entries
root_ino-apply_op vol op Fate.drop r = refl
root_ino-apply_op vol (link d n i) apply (img, vs) = refl
root_ino-apply_op vol (unlink d n i) apply (img, vs) = refl
root_ino-apply_op vol (rename d n e m i b) apply (img, vs) = refl
root_ino-apply_op vol (link d n i) both_names (img, vs) = refl
root_ino-apply_op vol (unlink d n i) both_names (img, vs) = refl
root_ino-apply_op vol (rename d n e m i b) both_names (img, vs) = refl

-- What an outcome of a power loss keeps of the durable image.
pub record IsOutcome (vol dur img : Image) : Type 0 where
  pub base : IsBase vol img
  pub root : img.root_ino ≡ dur.root_ino
  pub dirs : KeepsDirs dur img

IsOutcome-lose_ops :
    (vol dur : Image) (ps : List Pending) (fates : List Fate) (r : Replay)
    → AllTied vol ps
    → IsOutcome vol dur r.0
    → IsOutcome vol dur (lose_ops vol ps fates r).0
unfolding lose_ops KeepsDirs
IsOutcome-lose_ops vol dur [] fates r tied h = h
IsOutcome-lose_ops vol dur (p ∷ ps) fates r tied h =
    let fate = (next_fate p fates).0 in
    IsOutcome-lose_ops vol dur ps (next_fate p fates).1 (apply_op vol p.op fate r) tied.1 (record {
      base = IsBase-apply_op vol p.op fate r tied.0 h.base;
      root = root_ino-apply_op vol p.op fate r ∙ h.root;
      dirs = λ i is_dir. KeepsDirs-apply_op vol p.op fate r i (h.dirs i is_dir);
    })

module _ (vol : Image) (seed : ℕ) where
  abbrev garbled : ℕ → Option Node → Option Node → Image → Image
  garbled ino new old img = record img { nodes = garble seed ino new old img.nodes }

  IsOutcome-edit :
      (dur img : Image) (ino : ℕ) (b c d : List ℕ) (m mode : ℕ)
      → node_at ino img ≡ some (file_node b mode)
      → node_at ino vol ≡ some (file_node c m)
      → IsOutcome vol dur img
      → IsOutcome vol dur (with_node ino (file_node d mode) img)
  unfolding agree entry_in KeepsDirs
  IsOutcome-edit dur img ino b c d m mode old new h =
      let img' = with_node ino (file_node d mode) img in
      let keeps = Agrees-with_node ino (file_node d mode) img (rw old refl) in
      record {
        base = record {
          agrees = Agrees-of_node ino (file_node d mode) vol img (rw new refl) h.base.agrees;
          closed =
              IsClosed-same img img'
                (names_of-with_node ino (file_node d mode) img (λ n. rw old refl))
                (Agrees-Grows img img' keeps) h.base.closed;
        };
        root = h.root;
        dirs = λ i is_dir. Agrees-KeepsDirs img img' keeps i (h.dirs i is_dir);
      }

  IsOutcome-garble :
      (dur : Image) (ino : ℕ) (new old : Option Node) (img : Image)
      → node_at ino vol ≡ new
      → node_at ino img ≡ old
      → IsOutcome vol dur img
      → IsOutcome vol dur (garbled ino new old img)
  unfolding garble
  IsOutcome-garble dur ino none old img e f h = h
  IsOutcome-garble dur ino (some symlink_node) old img e f h = h
  IsOutcome-garble dur ino (some (dir_node es m)) old img e f h = h
  IsOutcome-garble dur ino (some (file_node c m)) none img e f h = h
  IsOutcome-garble dur ino (some (file_node c m)) (some symlink_node) img e f h = h
  IsOutcome-garble dur ino (some (file_node c m)) (some (dir_node es o)) img e f h = h
  IsOutcome-garble dur ino (some (file_node c m)) (some (file_node b mode)) img e f h =
      IsOutcome-edit dur img ino b c (data_variant b c seed) m mode f e h

  IsOutcome-lose_data :
      (dur : Image) (dirty : BTreeSet ℕ) (img : Image)
      → IsOutcome vol dur img
      → IsOutcome vol dur (lose_data vol seed dirty img)
  unfolding lose_data
  IsOutcome-lose_data dur [] img h = h
  IsOutcome-lose_data dur ((ino, u) ∷ dirty) img h =
      let new = node_at ino vol in
      let old = node_at ino img in
      IsOutcome-lose_data dur dirty (garbled ino new old img)
        (IsOutcome-garble dur ino new old img refl refl h)

pub IsOutcome-power_loss :
    (fates : List Fate) (seed : ℕ) (st : State)
    → IsCoherent st
    → IsOutcome st.vol st.dur (power_loss fates seed st).vol
unfolding power_loss KeepsDirs
IsOutcome-power_loss fates seed st h =
    IsOutcome-lose_data st.vol seed st.dur st.dirty
      (lose_ops st.vol st.pending fates (st.dur, st.violations)).0
      (IsOutcome-lose_ops st.vol st.dur st.pending fates (st.dur, st.violations) h.tied
        (record { base = h.base; root = refl; dirs = λ i is_dir. is_dir }))

pub IsCoherent-power_loss :
    (fates : List Fate) (seed : ℕ) (st : State)
    → IsCoherent st
    → IsCoherent (power_loss fates seed st)
unfolding power_loss perform_all KeepsDirs Agrees
IsCoherent-power_loss fates seed st h =
    let img = (power_loss fates seed st).vol in
    let out = IsOutcome-power_loss fates seed st h in
    let is_dir : is_dir_node (node_at img.root_ino img) ≡ true =
      rw out.root (out.dirs st.dur.root_ino h.durable_root) in
    record {
      root_dir = is_dir;
      same_root = refl;
      durable_root = is_dir;
      fresh = λ i beyond.
          agree-none (node_at i img) (node_at i st.vol) (out.base.agrees i) (h.fresh i beyond);
      visible = out.base.closed;
      base = record { agrees = Agrees-self img; closed = out.base.closed };
      tied = tt;
      shows = refl;
    }
