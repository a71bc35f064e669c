-- ===== src/Changes/Samples.antt =====
-- A small tree, and a transaction on it, for the tests of cli/src/changes.rs.
use fstx.Base.{ℕ, List, [], ◌∷◌, none, some, true, false, nat_eq, list_eq, list_ord, nat_ord}
use fstx.Path.{private_dir_name}
use fstx.State.{staged_name}
use fstx.Sim.{Image, dir_node}
use fstx.Sim.State.{strict}
use fstx.Sim.Backend.{SimFs}
use fstx.Transaction.{Transaction}
use fstx.Recover.Decide.{empty_report}
use fstx.Changes.{Outside}

abbrev pub a : List ℕ
a = b'a' ∷ []

-- A directory `a`, and the transaction's own directories.
abbrev pub img : Image
img = record {
  nodes =
      (1, dir_node ((private_dir_name, 3) ∷ (a, 2) ∷ []) 493)
      ∷ (2, dir_node [] 493)
      ∷ (3, dir_node ((b't' ∷ [], 4) ∷ []) 448)
      ∷ (4, dir_node ((staged_name, 5) ∷ []) 448)
      ∷ (5, dir_node [] 448)
      ∷ [];
  root_ino = 1;
}

abbrev pub fs : SimFs
fs = record {
  st = record {
    cfg = record {
      profile = strict;
      noreplace = true;
      stable_ids = true;
      case_insensitive = false;
    };
    vol = img;
    dur = img;
    pending = [];
    dirty = [];
    next_ino = 6;
    id_salt = [];
    budget = none;
    calls = 0;
    mutations = 0;
    crashed = false;
    events = [];
    violations = [];
  };
  stabilized_st = none;
}

abbrev pub transaction : Transaction
transaction = record {
  tx = record { name = b't' ∷ [] };
  overlay = record {
    placed = [];
    detached = [];
    root_id = record { dev = 1; ino = 1 };
    case_insensitive = false;
    next_dir = 0;
  };
  blobs = [];
  next_blob = 0;
  caps = record { case_insensitive = false };
  recovered = empty_report;
  finished = false;
}

abbrev pub outside : Outside
outside = record { digest = λ b. b; decode_base64 = λ b. some b; read_source = λ f. none }
