-- ===== src/Transaction/Sealed.antt =====
-- What a commit that returns `Ok` has done (src/transaction.rs).
use fstx.Base.{ℕ, true, nat_eq, list_eq, is_empty, ◌≡◌, ◌⊎◌, ok, list_ord, nat_ord}
use fstx.Base.Action.{Action, ◌>>=◌, ◌>>◌, pure, fail, reads, handle}
use fstx.Error.{Error, ErrorKind}
use fstx.Vfs.{Vfs, FileId, Event, prepared}
use fstx.Plan.{Plan}
use fstx.State
use fstx.State.{TxDir, set_marker, gc}
use fstx.Journal.{Journal, Codec, format_version}
use fstx.Recover.Rollback.{Act, io}
use fstx.Caps.{attempt}
use fstx.Transaction.{Transaction}
use fstx.Transaction.Commit.{prepare, apply, seal, undo_apply, run_plan}

module _ (vfs : Vfs) (codec : Codec) (fuel : ℕ) (tx : TxDir) where
  abbrev committed_event : Act vfs (Unit {0})
  committed_event s = (ok tt, vfs.event Event.committed s)

  abbrev journal_of : FileId → Plan → Journal
  journal_of root_id plan = record {
    format = format_version;
    tx = tx.name;
    root = root_id;
    plan = plan;
  }

  -- The journal is prepared, every wave is applied, and the marker is durable, in this order; what
  -- is left is the deletion, whose result does not matter.
  abbrev pub IsSealed : Journal → vfs.State → vfs.State → Type 0
  IsSealed j s s' =
      (s1 : vfs.State) × (s2 : vfs.State) × (s3 : vfs.State) × (prepare vfs codec tx j s
        ≡ (ok tt, s1))
      × (apply vfs codec.hash tx j.plan (vfs.event prepared s1) ≡ (ok tt, s2))
      × (set_marker vfs tx State.committed s2 ≡ (ok tt, s3))
      × (s' ≡ (gc vfs fuel tx (vfs.event Event.committed s3)).1)

  -- The parts of `run_plan`, in the code's order.
  abbrev after_marker : Unit {0} → Act vfs (Unit {0})
  after_marker _ = committed_event >> attempt (gc vfs fuel tx)

  abbrev mark : Act vfs (Unit {0})
  mark =
      handle (set_marker vfs tx State.committed) (λ _. pure tt)
        (λ e. fail (Error.commit_outcome_unknown tx.name e))

  abbrev apply_all : Journal → Unit {0} → Act vfs (Unit {0})
  apply_all j _ =
      (λ s. (ok tt, vfs.event prepared s))
      >> handle (apply vfs codec.hash tx j.plan) (λ _. seal vfs fuel tx)
          (undo_apply vfs codec fuel tx j)

  abbrev give_up : ErrorKind → Act vfs (Unit {0})
  give_up e = attempt (gc vfs fuel tx) >> fail (Error.io e)

  abbrev with_root : Plan → Act vfs (Unit {0})
  with_root plan =
      io vfs (reads vfs.root_id) >>= λ root_id. run_plan vfs codec fuel tx (journal_of root_id plan)

  abbrev pub HasCommitted : Plan → vfs.State → vfs.State → Type 0
  HasCommitted plan s s' =
      ((is_empty plan.waves ≡ true) × (gc vfs fuel tx s ≡ (ok tt, s')))
      ⊎ ((root_id : FileId) × (vfs.root_id s ≡ ok root_id)
          × IsSealed (journal_of root_id plan) s s')

module _ (vfs : Vfs) (codec : Codec) (fuel : ℕ) where
  abbrev clean_up : TxDir → Error → Act vfs (Unit {0})
  clean_up tx e = attempt (gc vfs fuel tx) >> fail e
