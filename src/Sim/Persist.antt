-- ===== src/Sim/Persist.antt =====
-- What an op that becomes durable does to an image (`apply_op` of src/sim.rs).
use fstx.Base.{
  ℕ, List, some, Bool, true, false, nat_eq, list_eq, ◌≡◌, refl, ap, ◌∙◌, list_ord, nat_ord,
}
use fstx.Base.Map.{insert}
use fstx.Path.{Name}
use fstx.Sim.{Image, node_at}
use fstx.Sim.State.{Op, link, unlink, rename, takes, Violation}
use fstx.Sim.Crash.{
  Fate, apply, both_names, Replay, ensure_node, insert_entry, remove_held, remove_entry, persist,
  apply_op,
}
use fstx.Sim.Calls.{is_dir_node}
use fstx.Sim.Namespace.{names_of, names_of-insert, names_of-remove_held, assign, take_away, perform}
use fstx.Sim.Agrees.{
  Agrees, is_node, is_node-dir, IsTied, names_of-ensure_node, Agrees-ensure_node,
  Agrees-change_entries, agree-is_dir_node,
}
use fstx.Sim.Grows.{
  IsClosed, Grows, is_node-change_entries, IsClosed-assign, IsClosed-take_away, Grows-ensure_node,
  is_node-ensured, ready,
}

module _ (vol : Image) where
  module _ (d : ℕ) (name : Name) (ino : ℕ) (img : Image) (vs : List Violation)
      (is_dir : is_dir_node (node_at d vol) ≡ true) (seen : is_node (node_at ino vol) ≡ true)
      (agrees : Agrees vol img) where
    Agrees-ready : Agrees vol (ready vol d ino img)
    Agrees-ready =
        Agrees-ensure_node vol ino (ensure_node vol d img) seen
          (Agrees-ensure_node vol d img (is_node-dir (node_at d vol) is_dir) agrees)

    -- The `expect` of the code: the directory is one.
    pub is_dir_node-ready : is_dir_node (node_at d (ready vol d ino img)) ≡ true
    unfolding Agrees Grows
    is_dir_node-ready =
        agree-is_dir_node (node_at d (ready vol d ino img)) (node_at d vol) (Agrees-ready d) is_dir
          (Grows-ensure_node vol ino (ensure_node vol d img) d (is_node-ensured vol d img))

    pub names_of-insert_entry :
        names_of (insert_entry vol d name ino (img, vs)).0 ≡ assign d name (some ino) (names_of img)
    unfolding insert_entry
    names_of-insert_entry =
        names_of-insert d (ready vol d ino img) name ino is_dir_node-ready
        ∙ ap (assign d name (some ino))
            (names_of-ensure_node vol ino (ensure_node vol d img) ∙ names_of-ensure_node vol d img)

    pub Agrees-insert_entry : Agrees vol (insert_entry vol d name ino (img, vs)).0
    unfolding insert_entry
    Agrees-insert_entry =
        Agrees-change_entries vol d (insert name ino) (ready vol d ino img) Agrees-ready

    abbrev inserted : Image
    inserted = (insert_entry vol d name ino (img, vs)).0

    pub Grows-insert_entry : Grows img inserted
    unfolding insert_entry Grows
    Grows-insert_entry i h =
        is_node-change_entries d (insert name ino) (ready vol d ino img) i
        ∙ Grows-ensure_node vol ino (ensure_node vol d img) i (Grows-ensure_node vol d img i h)

    is_node-inserted : is_node (node_at ino inserted) ≡ true
    unfolding insert_entry
    is_node-inserted =
        is_node-change_entries d (insert name ino) (ready vol d ino img) ino
        ∙ is_node-ensured vol ino (ensure_node vol d img)

    pub IsClosed-insert_entry : IsClosed img → IsClosed inserted
    IsClosed-insert_entry closed =
        IsClosed-assign d name ino img inserted names_of-insert_entry Grows-insert_entry
          is_node-inserted closed

module _ (d : ℕ) (name : Name) (ino : ℕ) (img : Image) (vs : List Violation) where
  abbrev removed : Image
  removed = (remove_entry d name ino (img, vs)).0

  names_of-remove_entry : names_of removed ≡ take_away d name ino (names_of img)
  unfolding remove_entry
  names_of-remove_entry = names_of-remove_held d img name ino

  Grows-remove_entry : Grows img removed
  unfolding remove_entry Grows
  Grows-remove_entry i h = is_node-change_entries d (remove_held name ino) img i ∙ h

  Agrees-remove_entry : (vol : Image) → Agrees vol img → Agrees vol removed
  unfolding remove_entry
  Agrees-remove_entry vol = Agrees-change_entries vol d (remove_held name ino) img

  IsClosed-remove_entry : IsClosed img → IsClosed removed
  IsClosed-remove_entry =
      IsClosed-take_away d name ino img removed names_of-remove_entry Grows-remove_entry

-- What an image needs for the next op, whatever persists of it.
pub record IsBase (vol img : Image) : Type 0 where
  pub agrees : Agrees vol img
  pub closed : IsClosed img

IsBase-remove_entry :
    (vol : Image) (d : ℕ) (name : Name) (ino : ℕ) (img : Image) (vs : List Violation)
    → IsBase vol img
    → IsBase vol (remove_entry d name ino (img, vs)).0
IsBase-remove_entry vol d name ino img vs base = record {
  agrees = Agrees-remove_entry d name ino img vs vol base.agrees;
  closed = IsClosed-remove_entry d name ino img vs base.closed;
}

module _ (vol : Image) (d : ℕ) (name : Name) (ino : ℕ) (op : Op) (tied : IsTied vol op)
    (taken : takes op ≡ some (d, name, ino)) where
  dir_of : is_dir_node (node_at d vol) ≡ true
  unfolding IsTied
  dir_of = (tied d name ino taken).0

  node_of : is_node (node_at ino vol) ≡ true
  unfolding IsTied
  node_of = (tied d name ino taken).1

  IsBase-insert_tied :
      (img : Image) (vs : List Violation)
      → IsBase vol img
      → IsBase vol (insert_entry vol d name ino (img, vs)).0
  IsBase-insert_tied img vs base = record {
    agrees = Agrees-insert_entry vol d name ino img vs dir_of node_of base.agrees;
    closed = IsClosed-insert_entry vol d name ino img vs dir_of node_of base.agrees base.closed;
  }

  names_of-insert_tied :
      (img : Image) (vs : List Violation)
      → IsBase vol img
      → names_of (insert_entry vol d name ino (img, vs)).0 ≡ assign d name (some ino) (names_of img)
  names_of-insert_tied img vs base =
      names_of-insert_entry vol d name ino img vs dir_of node_of base.agrees

module _ (vol : Image) where
  pub names_of-persist :
      (op : Op) (img : Image) (vs : List Violation)
      → IsTied vol op
      → IsBase vol img
      → names_of (persist vol op false (img, vs)).0 ≡ perform op (names_of img)
  unfolding persist perform takes
  names_of-persist (link d name ino) img vs tied base =
      names_of-insert_tied vol d name ino (link d name ino) tied refl img vs base
  names_of-persist (unlink d name ino) img vs tied base = names_of-remove_entry d name ino img vs
  names_of-persist (rename fdir fname tdir tname ino is_dir) img vs tied base =
      names_of-insert_tied vol tdir tname ino (rename fdir fname tdir tname ino is_dir) tied refl
        (remove_entry fdir fname ino (img, vs)).0 (remove_entry fdir fname ino (img, vs)).1
        (IsBase-remove_entry vol fdir fname ino img vs base)
      ∙ ap (assign tdir tname (some ino)) (names_of-remove_entry fdir fname ino img vs)

  pub IsBase-persist :
      (op : Op) (keeps : Bool) (img : Image) (vs : List Violation)
      → IsTied vol op
      → IsBase vol img
      → IsBase vol (persist vol op keeps (img, vs)).0
  unfolding persist takes
  IsBase-persist (link d name ino) keeps img vs tied base =
      IsBase-insert_tied vol d name ino (link d name ino) tied refl img vs base
  IsBase-persist (unlink d name ino) keeps img vs tied base =
      IsBase-remove_entry vol d name ino img vs base
  IsBase-persist (rename fdir fname tdir tname ino is_dir) true img vs tied base =
      IsBase-insert_tied vol tdir tname ino (rename fdir fname tdir tname ino is_dir) tied refl img
        vs base
  IsBase-persist (rename fdir fname tdir tname ino is_dir) false img vs tied base =
      IsBase-insert_tied vol tdir tname ino (rename fdir fname tdir tname ino is_dir) tied refl
        (remove_entry fdir fname ino (img, vs)).0 (remove_entry fdir fname ino (img, vs)).1
        (IsBase-remove_entry vol fdir fname ino img vs base)

  pub IsBase-apply_op :
      (op : Op) (fate : Fate) (r : Replay)
      → IsTied vol op
      → IsBase vol r.0
      → IsBase vol (apply_op vol op fate r).0
  unfolding apply_op
  IsBase-apply_op op Fate.drop r tied base = base
  IsBase-apply_op op apply (img, vs) tied base = IsBase-persist op false img vs tied base
  IsBase-apply_op op both_names (img, vs) tied base = IsBase-persist op true img vs tied base
