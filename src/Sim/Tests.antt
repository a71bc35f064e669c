-- ===== src/Sim/Tests.antt =====
-- The simulator on small trees (src/sim.rs).
use fstx.Base.{
  ℕ, List, [], ◌∷◌, ◌++◌, Option, none, Bool, true, false, ◌≡◌, refl, Result, ok, err, nat_eq, ◌≤◌,
  ◌<◌, ◌+◌,
}
use fstx.Base.Map.{BTreeMap, get}
use fstx.Path.{Name, RelPath}
use fstx.Error.{ErrorKind}
use fstx.Sim.{Node, Image, Entries, file_node, dir_node}
use fstx.Sim.State.{SimConfig, strict, link, rename, State}
use fstx.Sim.Crash.{apply, both_names, power_loss, volatile_ops, data_variant}
use fstx.Sim.Calls.{read_file}
use fstx.Sim.Backend.{crash_after}
use fstx.Sim.Setup.{SetupStep, file_at, dir_at}
use fstx.Sim.Reachable.{SysCall, create_file, rename_noreplace, call, calls, Reachable}
use fstx.Sim.Budget.{run_calls, call-crashed, crash_after-run_calls}
use fstx.Sim.Torn.{data_variant-append}

abbrev a : Name
a = b'a' ∷ []

abbrev b : Name
b = b'b' ∷ []

abbrev x : Name
x = b'x' ∷ []

abbrev y : Name
y = b'y' ∷ []

-- A directory with a file.
abbrev steps : List SetupStep
steps = dir_at (a ∷ []) ∷ file_at (a ∷ x ∷ []) (1 ∷ 2 ∷ []) ∷ []

abbrev tree : Entries → Entries → BTreeMap ℕ Node → Image
tree top inner others = record {
  nodes =
      (1, dir_node top 493) ∷ (2, dir_node inner 493) ∷ (3, file_node (1 ∷ 2 ∷ []) 420) ∷ others;
  root_ino = 1;
}

abbrev before : State
before = record {
  cfg = record { profile = strict; noreplace = true; stable_ids = true; case_insensitive = false };
  vol = tree ((a, 2) ∷ []) ((x, 3) ∷ []) [];
  dur = tree ((a, 2) ∷ []) ((x, 3) ∷ []) [];
  pending = [];
  dirty = [];
  next_ino = 4;
  id_salt = [];
  budget = none;
  calls = 0;
  mutations = 0;
  crashed = false;
  events = [];
  violations = [];
}

-- A new file, whose data and name are not durable.
abbrev new_call : SysCall
new_call = create_file (a ∷ y ∷ []) (7 ∷ []) none

abbrev created : State
created = record before {
  vol = tree ((a, 2) ∷ []) ((x, 3) ∷ (y, 4) ∷ []) ((4, file_node (7 ∷ []) 420) ∷ []);
  pending = record { op = link 2 y 4; unsynced = (2, tt) ∷ [] } ∷ [];
  dirty = (4, tt) ∷ [];
  next_ino = 5;
  calls = 1;
  mutations = 1;
}

-- Its data is synced.
abbrev synced : State
synced = record created {
  dur = tree ((a, 2) ∷ []) ((x, 3) ∷ []) ((4, file_node (7 ∷ []) 420) ∷ []);
  dirty = [];
  calls = 2;
}

-- The other file is renamed.
abbrev move_call : SysCall
move_call = rename_noreplace (a ∷ x ∷ []) none (x ∷ []) none

abbrev renamed : State
renamed = record synced {
  vol = tree ((a, 2) ∷ (x, 3) ∷ []) ((y, 4) ∷ []) ((4, file_node (7 ∷ []) 420) ∷ []);
  pending =
      record { op = link 2 y 4; unsynced = (2, tt) ∷ [] }
      ∷ record { op = rename 2 x 1 x 3 false; unsynced = (1, tt) ∷ (2, tt) ∷ [] }
      ∷ [];
  calls = 3;
  mutations = 2;
}

read_synced : read_file (a ∷ y ∷ []) renamed ≡ ok (7 ∷ [])
unfolding read_file fstx.Path.is_root fstx.Path.file_name fstx.Sim.resolve_dir fstx.Sim.resolve_from
    fstx.Path.parent_or_root fstx.Sim.resolve_name get native.Mathlib.Decide.ℕ_discrete
    fstx.Base.list_eq
read_synced = refl

two_volatile : volatile_ops renamed ≡ false ∷ false ∷ []
unfolding volatile_ops
two_volatile = refl

-- Without its name the synced file is gone, with it the data is there.
dropped : read_file (a ∷ y ∷ []) (power_loss [] 0 renamed) ≡ err ErrorKind.not_found
unfolding read_file power_loss fstx.Path.is_root fstx.Path.file_name fstx.Sim.resolve_dir
    fstx.Sim.resolve_from fstx.Path.parent_or_root fstx.Sim.resolve_name get
    native.Mathlib.Decide.ℕ_discrete fstx.Base.list_eq
dropped = refl

kept : read_file (a ∷ y ∷ []) (power_loss (apply ∷ []) 0 renamed) ≡ ok (7 ∷ [])
unfolding read_file power_loss fstx.Path.is_root fstx.Path.file_name fstx.Sim.resolve_dir
    fstx.Sim.resolve_from fstx.Path.parent_or_root fstx.Sim.resolve_name get fstx.Sim.change_entries
    native.Mathlib.Decide.ℕ_discrete fstx.Base.Map.insert fstx.Base.nat_ord fstx.Base.list_eq
    fstx.Base.list_ord
kept = refl

-- A rename that persists half.
half_persisted :
    read_file (a ∷ x ∷ []) (power_loss (apply ∷ both_names ∷ []) 0 renamed) ≡ ok (1 ∷ 2 ∷ [])
unfolding read_file power_loss fstx.Path.is_root fstx.Path.file_name fstx.Sim.resolve_dir
    fstx.Sim.resolve_from fstx.Path.parent_or_root fstx.Sim.resolve_name get fstx.Sim.change_entries
    native.Mathlib.Decide.ℕ_discrete fstx.Base.Map.insert fstx.Base.nat_ord fstx.Base.list_eq
    fstx.Base.list_ord
half_persisted = refl

-- A directory does not move under itself.
into_itself :
    (call (rename_noreplace (a ∷ []) none (a ∷ b ∷ []) none) synced).0 ≡ err ErrorKind.invalid_input
unfolding call fstx.Sim.Changes.rename_noreplace fstx.Path.file_name fstx.Sim.resolve_dir
    fstx.Sim.resolve_from fstx.Path.parent_or_root fstx.Sim.resolve_name get
    native.Mathlib.Decide.ℕ_discrete fstx.Base.list_eq
into_itself = refl

call-crashed_example :
    call move_call (record synced { crashed = true })
    ≡ (err ErrorKind.other, record synced { crashed = true })
call-crashed_example = call-crashed move_call (record synced { crashed = true }) refl

crash_after-run_calls_example :
    (2 ≤ 1
      → ((run_calls (move_call ∷ new_call ∷ []) (crash_after 1 synced)).crashed ≡ false)
        × ((run_calls (move_call ∷ new_call ∷ []) (crash_after 1 synced)).calls ≡ synced.calls + 2))
    × (1 < 2
        → ((run_calls (move_call ∷ new_call ∷ []) (crash_after 1 synced)).crashed ≡ true)
          × ((run_calls (move_call ∷ new_call ∷ []) (crash_after 1 synced)).calls
              ≡ synced.calls + 1))
crash_after-run_calls_example = crash_after-run_calls 1 (move_call ∷ new_call ∷ []) synced refl

data_variant-append_example :
    (rest : List ℕ) × (data_variant (1 ∷ []) ((1 ∷ []) ++ (2 ∷ 3 ∷ [])) 2 ≡ (1 ∷ []) ++ rest)
data_variant-append_example = data_variant-append (1 ∷ []) (2 ∷ 3 ∷ []) 2
