-- ===== src/Transaction/Tests.antt =====
-- A commit over a filesystem that counts its renames (src/transaction.rs).
use fstx.Base.{ℕ, ◌+◌, List, [], ◌∷◌, none, some, false, ok, Result, nat_eq}
use fstx.Base.Action.{pure}
use fstx.Path.{RelPath}
use fstx.Vfs.{Vfs, dir, Meta, Probe, missing}
use fstx.Plan.{Plan}
use fstx.Recover.Decide.{empty_report}
use fstx.Overlay.{Overlay, present, blob, plain}
use fstx.Transaction.{Transaction}
use fstx.Samples.{a, id, root_id, tx_1}

abbrev some_dir : Meta
some_dir = record { kind = dir; id = root_id; len = 0; mode = 0; nlink = 1 }

abbrev counting : Vfs
counting = record {
  State = ℕ;
  root_id = λ s. ok root_id;
  stat = λ p s. ok (some some_dir);
  read_file = λ p s. ok [];
  read_dir = λ p s. ok [];
  create_file = λ p bytes mode s. (ok some_dir, s);
  append = λ p bytes. pure tt;
  mkdir = λ p s. (ok some_dir, s);
  rename_noreplace = λ from i to j s. (ok tt, s + 1);
  unlink = λ p i. pure tt;
  rmdir = λ p. pure tt;
  sync_file = λ p. pure tt;
  sync_dir = λ p. pure tt;
  lock = λ exclusive s. ok tt;
  untrusted_fs_type = λ s. ok none;
  probe_cache_key = none;
  probe = λ p i s. ok missing;
  event = λ e s. s;
}

-- One file was written to `a`.
abbrev one_write : Overlay
one_write = record {
  placed = (a, present (record { kind = plain; source = blob 0 none })) ∷ [];
  detached = [];
  root_id = root_id;
  case_insensitive = false;
  next_dir = 0;
}

abbrev transaction : Transaction
transaction = record {
  tx = record { name = tx_1 };
  overlay = one_write;
  blobs = (0, id 20) ∷ [];
  next_blob = 1;
  caps = record { case_insensitive = false };
  recovered = empty_report;
  finished = false;
}
