-- ===== src/Sim/Coherent.antt =====
-- The simulator's invariant on names: the visible names are the durable ones with the pending ops
-- carried out (src/sim.rs).
use fstx.Base.{
  ℕ, List, [], ◌∷◌, ◌++◌, ◌≤◌, Option, none, some, true, nat_eq, list_eq, ◌≡◌, refl, sym, ap, ◌∙◌,
  list_ord, nat_ord, All, All-append,
}
use fstx.Sim.{Node, file_node, dir_node, symlink_node, Image, BTreeSet, node_at, change_entries}
use fstx.Sim.State.{Op, link, unlink, rename, Pending, State}
use fstx.Sim.Crash.{apply, apply_op, insert_entry, remove_entry, ensure_node, persist, fold_pending}
use fstx.Sim.Calls.{is_dir_node}
use fstx.Sim.Namespace.{Space, names_of, perform, perform_all}
use fstx.Sim.Agrees.{Agrees, agree, is_node, IsTied}
use fstx.Sim.Grows.{IsClosed, Grows, KeepsDirs}
use fstx.Sim.Persist.{IsBase, names_of-persist, IsBase-apply_op}
use fstx.Sim.Kept.{KeepsDirs-apply_op}

abbrev pub AllTied : Image → List Pending → Type 0
AllTied vol = All (λ p. IsTied vol p.op)

pub record Coherent (vol dur : Image) (pending : List Pending) (next_ino : ℕ) : Type 0 where
  pub root_dir : is_dir_node (node_at vol.root_ino vol) ≡ true
  pub same_root : dur.root_ino ≡ vol.root_ino
  pub durable_root : is_dir_node (node_at dur.root_ino dur) ≡ true
  pub fresh : (i : ℕ) → next_ino ≤ i → node_at i vol ≡ none
  pub visible : IsClosed vol
  pub base : IsBase vol dur
  pub tied : AllTied vol pending
  pub shows : perform_all pending (names_of dur) ≡ names_of vol

abbrev pub IsCoherent : State → Type 0
IsCoherent st = Coherent st.vol st.dur st.pending st.next_ino

agree_trans : (a b c : Option Node) → agree a b ≡ true → agree b c ≡ true → agree a c ≡ true
unfolding agree
agree_trans none b c p q = refl
agree_trans (some (file_node x m)) (some (file_node y n)) c p q = keep c q
  where
    keep :
        (c : Option Node)
        → agree (some (file_node y n)) c ≡ true
        → agree (some (file_node x m)) c ≡ true
    keep (some (file_node z o)) q = refl
    keep (some (dir_node z o)) q = q
    keep (some symlink_node) q = q
    keep none q = q
agree_trans (some (dir_node x m)) (some (dir_node y n)) c p q = keep c q
  where
    keep :
        (c : Option Node)
        → agree (some (dir_node y n)) c ≡ true
        → agree (some (dir_node x m)) c ≡ true
    keep (some (file_node z o)) q = q
    keep (some (dir_node z o)) q = refl
    keep (some symlink_node) q = q
    keep none q = q
agree_trans (some symlink_node) (some symlink_node) c p q = q
agree_trans _ _ c p q = cc

pub agree_refl : (a : Option Node) → agree a a ≡ true
unfolding agree
agree_refl none = refl
agree_refl (some (file_node x m)) = refl
agree_refl (some (dir_node x m)) = refl
agree_refl (some symlink_node) = refl

agree-is_node : (a b : Option Node) → agree a b ≡ true → is_node a ≡ true → is_node b ≡ true
unfolding agree is_node
agree-is_node none b p q = cc
agree-is_node (some a) (some b) p q = refl
agree-is_node (some (file_node x m)) none p q = p
agree-is_node (some (dir_node x m)) none p q = p
agree-is_node (some symlink_node) none p q = p

agree-dir : (a b : Option Node) → agree a b ≡ true → is_dir_node a ≡ true → is_dir_node b ≡ true
unfolding agree is_dir_node
agree-dir none b p q = cc
agree-dir (some (file_node x m)) b p q = cc
agree-dir (some symlink_node) b p q = cc
agree-dir (some (dir_node x m)) (some (dir_node y n)) p q = refl
agree-dir (some (dir_node x m)) (some (file_node y n)) p q = p
agree-dir (some (dir_node x m)) (some symlink_node) p q = p
agree-dir (some (dir_node x m)) none p q = p

-- Where each node of `img` has its kind in `img'`, nodes and directories are kept.
module _ (img img' : Image) (agrees : Agrees img' img) where
  pub Agrees-Grows : Grows img img'
  unfolding Agrees Grows
  Agrees-Grows i = agree-is_node (node_at i img) (node_at i img') (agrees i)

  pub Agrees-KeepsDirs : KeepsDirs img img'
  unfolding Agrees KeepsDirs
  Agrees-KeepsDirs i = agree-dir (node_at i img) (node_at i img') (agrees i)

  pub Agrees-trans : (dur : Image) → Agrees img dur → Agrees img' dur
  unfolding Agrees
  Agrees-trans dur other i =
      agree_trans (node_at i dur) (node_at i img) (node_at i img') (other i) (agrees i)

  pub IsTied-kept : (op : Op) → IsTied img op → IsTied img' op
  unfolding IsTied Grows KeepsDirs
  IsTied-kept op tied d n i taken =
      (Agrees-KeepsDirs d (tied d n i taken).0, Agrees-Grows i (tied d n i taken).1)

  pub AllTied-kept : (ps : List Pending) → AllTied img ps → AllTied img' ps
  AllTied-kept [] tied = tt
  AllTied-kept (p ∷ ps) tied = (IsTied-kept p.op tied.0, AllTied-kept ps tied.1)

pub perform_all-append :
    (ps : List Pending) (p : Pending) (f : Space)
    → perform_all (ps ++ (p ∷ [])) f ≡ perform p.op (perform_all ps f)
unfolding perform_all
perform_all-append [] p f = refl
perform_all-append (q ∷ ps) p f = perform_all-append ps p (perform q.op f)

pub agree-none : (a b : Option Node) → agree a b ≡ true → b ≡ none → a ≡ none
unfolding agree
agree-none none b p q = refl
agree-none (some (file_node x m)) b p q = cc (p, ap (agree (some (file_node x m))) q)
agree-none (some (dir_node x m)) b p q = cc (p, ap (agree (some (dir_node x m))) q)
agree-none (some symlink_node) b p q = cc (p, ap (agree (some symlink_node)) q)

pub IsClosed-same :
    (img img' : Image)
    → names_of img' ≡ names_of img
    → Grows img img'
    → IsClosed img
    → IsClosed img'
unfolding IsClosed Grows
IsClosed-same img img' same grows closed d n i h =
    grows i (closed d n i (ap (λ f. f d n) (sym same) ∙ h))

-- A call that changes the visible image and notes an op.
pub Coherent-extend :
    (vol vol' dur : Image) (pending : List Pending) (p : Pending) (next next' : ℕ)
    → Coherent vol dur pending next
    → Agrees vol' vol
    → vol'.root_ino ≡ vol.root_ino
    → ((i : ℕ) → next' ≤ i → node_at i vol' ≡ none)
    → IsClosed vol'
    → IsTied vol' p.op
    → names_of vol' ≡ perform p.op (names_of vol)
    → Coherent vol' dur (pending ++ (p ∷ [])) next'
unfolding KeepsDirs
Coherent-extend vol vol' dur pending p next next' h agrees root fresh closed tied same = record {
  root_dir = rw root (Agrees-KeepsDirs vol vol' agrees vol.root_ino h.root_dir);
  same_root = h.same_root ∙ sym root;
  durable_root = h.durable_root;
  fresh = fresh;
  visible = closed;
  base = record { agrees = Agrees-trans vol vol' agrees dur h.base.agrees; closed = h.base.closed };
  tied =
      All-append (λ q. IsTied vol' q.op) pending (p ∷ [])
        (AllTied-kept vol vol' agrees pending h.tied) (tied, tt);
  shows = perform_all-append pending p (names_of dur) ∙ ap (perform p.op) h.shows ∙ sym same;
}

-- A call that changes the data of visible files.
pub Coherent-rewrite :
    (vol vol' dur : Image) (pending : List Pending) (next : ℕ)
    → Coherent vol dur pending next
    → Agrees vol' vol
    → Agrees vol vol'
    → vol'.root_ino ≡ vol.root_ino
    → names_of vol' ≡ names_of vol
    → Coherent vol' dur pending next
unfolding KeepsDirs Agrees
Coherent-rewrite vol vol' dur pending next h agrees back root same = record {
  root_dir = rw root (Agrees-KeepsDirs vol vol' agrees vol.root_ino h.root_dir);
  same_root = h.same_root ∙ sym root;
  durable_root = h.durable_root;
  fresh = λ i beyond. agree-none (node_at i vol') (node_at i vol) (back i) (h.fresh i beyond);
  visible = IsClosed-same vol vol' same (Agrees-Grows vol vol' agrees) h.visible;
  base = record { agrees = Agrees-trans vol vol' agrees dur h.base.agrees; closed = h.base.closed };
  tied = AllTied-kept vol vol' agrees pending h.tied;
  shows = h.shows ∙ sym same;
}

-- A call that changes the data of durable files.
pub Coherent-sync :
    (vol dur dur' : Image) (pending : List Pending) (next : ℕ)
    → Coherent vol dur pending next
    → Agrees vol dur'
    → Agrees dur' dur
    → dur'.root_ino ≡ dur.root_ino
    → names_of dur' ≡ names_of dur
    → Coherent vol dur' pending next
unfolding KeepsDirs
Coherent-sync vol dur dur' pending next h agrees keeps root same = record {
  root_dir = h.root_dir;
  same_root = root ∙ h.same_root;
  durable_root = rw root (Agrees-KeepsDirs dur dur' keeps dur.root_ino h.durable_root);
  fresh = h.fresh;
  visible = h.visible;
  base = record {
    agrees = agrees;
    closed = IsClosed-same dur dur' same (Agrees-Grows dur dur' keeps) h.base.closed;
  };
  tied = h.tied;
  shows = ap (perform_all pending) same ∙ h.shows;
}

root_ino-persist :
    (vol : Image) (op : Op) (dur : Image)
    → (apply_op vol op apply (dur, [])).0.root_ino ≡ dur.root_ino
unfolding apply_op persist insert_entry remove_entry ensure_node change_entries
root_ino-persist vol (link d n i) dur = refl
root_ino-persist vol (unlink d n i) dur = refl
root_ino-persist vol (rename d n e m i b) dur = refl

-- The op at the front becomes durable.
Coherent-settle :
    (vol dur : Image) (p : Pending) (ps : List Pending) (next : ℕ)
    → Coherent vol dur (p ∷ ps) next
    → Coherent vol (apply_op vol p.op apply (dur, [])).0 ps next
unfolding KeepsDirs perform_all apply_op
Coherent-settle vol dur p ps next h =
    let dur' = (apply_op vol p.op apply (dur, [])).0 in
    let root = root_ino-persist vol p.op dur in
    record {
      root_dir = h.root_dir;
      same_root = root ∙ h.same_root;
      durable_root =
          rw root (KeepsDirs-apply_op vol p.op apply (dur, []) dur.root_ino h.durable_root);
      fresh = h.fresh;
      visible = h.visible;
      base = IsBase-apply_op vol p.op apply (dur, []) h.tied.0 h.base;
      tied = h.tied.1;
      shows = ap (perform_all ps) (names_of-persist vol p.op dur [] h.tied.0 h.base) ∙ h.shows;
    }

-- The fold stops at an op that some directory is not synced for.
fold_pending_lem :
    (vol dur : Image) (op : Op) (u : BTreeSet ℕ) (ps : List Pending) (next : ℕ)
    → Coherent vol dur (record { op = op; unsynced = u } ∷ ps) next
    → (let after = fold_pending vol ps (apply_op vol op apply (dur, [])).0 in
        Coherent vol after.0 after.1 next)
    → (let folded = fold_pending vol (record { op = op; unsynced = u } ∷ ps) dur in
        Coherent vol folded.0 folded.1 next)
unfolding fold_pending
fold_pending_lem vol dur op [] ps next h settled = settled
fold_pending_lem vol dur op (d ∷ ds) ps next h settled = h

pub Coherent-fold_pending :
    (vol : Image) (ps : List Pending) (dur : Image) (next : ℕ)
    → Coherent vol dur ps next
    → Coherent vol (fold_pending vol ps dur).0 (fold_pending vol ps dur).1 next
unfolding fold_pending
Coherent-fold_pending vol [] dur next h = h
Coherent-fold_pending vol (p ∷ ps) dur next h =
    let dur' = (apply_op vol p.op apply (dur, [])).0 in
    fold_pending_lem vol dur p.op p.unsynced ps next h
      (Coherent-fold_pending vol ps dur' next (Coherent-settle vol dur p ps next h))
