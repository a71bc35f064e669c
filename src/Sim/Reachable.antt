-- ===== src/Sim/Reachable.antt =====
-- The states that the simulator can reach: set up, changed by calls, killed, hit by power losses
-- (src/sim.rs).
use fstx.Base.{ℕ, List, Option, some, ◌≡◌, map_ok}
use fstx.Path.{RelPath}
use fstx.Vfs.{FileId, Event}
use fstx.Sim.State.{SimConfig, State, new_state}
use fstx.Sim.Crash.{Fate, power_loss}
use fstx.Sim.Changes
use fstx.Sim.Changes.{Call}
use fstx.Sim.Backend.{SimFs, crash_after, clear_events, process_kill, event}
use fstx.Sim.Coherent.{IsCoherent}
use fstx.Sim.CallsKeep.{Keeps, IsCoherent-create_file, IsCoherent-append, IsCoherent-mkdir}
use fstx.Sim.MovesKeep.{IsCoherent-rename_noreplace, IsCoherent-unlink, IsCoherent-rmdir}
use fstx.Sim.SyncsKeep.{IsCoherent-sync_file, IsCoherent-sync_dir}
use fstx.Sim.Loss.{IsCoherent-power_loss}
use fstx.Sim.Setup.{SetupStep, setup_all, IsQuiet-IsCoherent, IsQuiet-new_state, IsQuiet-setup_all}
use fstx.Sim.Synced.{
  IsSynced, IsSynced-create_file, IsSynced-append, IsSynced-mkdir, IsSynced-rename_noreplace,
  IsSynced-unlink, IsSynced-rmdir, IsSynced-sync_file, IsSynced-sync_dir, IsSynced-same,
  IsSynced-power_loss,
}

-- The calls that are counted, with their arguments.
pub data SysCall : Type 0 where
  create_file : RelPath → List ℕ → Option ℕ → SysCall
  append : RelPath → List ℕ → SysCall
  mkdir : RelPath → SysCall
  rename_noreplace : RelPath → Option FileId → RelPath → Option FileId → SysCall
  unlink : RelPath → Option FileId → SysCall
  rmdir sync_file sync_dir : RelPath → SysCall

abbrev ignore : {A : Type 0} → Call A → Call (Unit {0})
ignore m st = (map_ok (λ a. tt) (m st).0, (m st).1)

unfoldable pub call : SysCall → Call (Unit {0})
call (create_file p bytes mode) = ignore (Changes.create_file p bytes mode)
call (append p more) = Changes.append p more
call (mkdir p) = ignore (Changes.mkdir p)
call (rename_noreplace from expect_from to expect_to) =
    Changes.rename_noreplace from expect_from to expect_to
call (unlink p expect_parent) = Changes.unlink p expect_parent
call (rmdir p) = Changes.rmdir p
call (sync_file p) = Changes.sync_file p
call (sync_dir p) = Changes.sync_dir p

abbrev pub bare_fs : State → SimFs
bare_fs st = record { st = st; stabilized_st = Option.none }

pub data Step : State → State → Type 0 where
  calls : (c : SysCall) (st : State) → Step st (call c st).1
  notes : (e : Event) (st : State) → Step st (event e (bare_fs st)).st
  clears : (st : State) → Step st (clear_events st)
  limits : (n : ℕ) (st : State) → Step st (crash_after n st)
  dies : (st : State) → Step st (process_kill (bare_fs st)).st
  loses : (fates : List Fate) (seed : ℕ) (st : State) → Step st (power_loss fates seed st)

pub data Reachable : State → Type 0 where
  set_up :
      (cfg : SimConfig) (steps : List SetupStep) (st : State)
      → setup_all steps (new_state cfg) ≡ some st
      → Reachable st
  goes_on : {st st' : State} → Reachable st → Step st st' → Reachable st'

IsCoherent-call : (c : SysCall) → Keeps IsCoherent (call c)
unfolding call
IsCoherent-call (create_file p bytes mode) = IsCoherent-create_file p bytes mode
IsCoherent-call (append p more) = IsCoherent-append p more
IsCoherent-call (mkdir p) = IsCoherent-mkdir p
IsCoherent-call (rename_noreplace from expect_from to expect_to) =
    IsCoherent-rename_noreplace from expect_from to expect_to
IsCoherent-call (unlink p expect_parent) = IsCoherent-unlink p expect_parent
IsCoherent-call (rmdir p) = IsCoherent-rmdir p
IsCoherent-call (sync_file p) = IsCoherent-sync_file p
IsCoherent-call (sync_dir p) = IsCoherent-sync_dir p

IsCoherent-step : {st st' : State} → Step st st' → IsCoherent st → IsCoherent st'
unfolding event clear_events crash_after process_kill
IsCoherent-step (calls c st) h = IsCoherent-call c st h
IsCoherent-step (notes e st) h = h
IsCoherent-step (clears st) h = h
IsCoherent-step (limits n st) h = h
IsCoherent-step (dies st) h = h
IsCoherent-step (loses fates seed st) h = IsCoherent-power_loss fates seed st h

pub Reachable-IsCoherent : {st : State} → Reachable st → IsCoherent st
Reachable-IsCoherent (set_up cfg steps st h) =
    IsQuiet-IsCoherent st (IsQuiet-setup_all steps (new_state cfg) st h (IsQuiet-new_state cfg))
Reachable-IsCoherent (goes_on r s) = IsCoherent-step s (Reachable-IsCoherent r)

IsSynced-call : (c : SysCall) → Keeps IsSynced (call c)
unfolding call
IsSynced-call (create_file p bytes mode) = IsSynced-create_file p bytes mode
IsSynced-call (append p more) = IsSynced-append p more
IsSynced-call (mkdir p) = IsSynced-mkdir p
IsSynced-call (rename_noreplace from expect_from to expect_to) =
    IsSynced-rename_noreplace from expect_from to expect_to
IsSynced-call (unlink p expect_parent) = IsSynced-unlink p expect_parent
IsSynced-call (rmdir p) = IsSynced-rmdir p
IsSynced-call (sync_file p) = IsSynced-sync_file p
IsSynced-call (sync_dir p) = IsSynced-sync_dir p

IsSynced-step : {st st' : State} → Step st st' → IsSynced st → IsSynced st'
unfolding event clear_events crash_after process_kill IsSynced
IsSynced-step (calls c st) h = IsSynced-call c st h
IsSynced-step (notes e st) h = h
IsSynced-step (clears st) h = h
IsSynced-step (limits n st) h = h
IsSynced-step (dies st) h = h
IsSynced-step (loses fates seed st) h = IsSynced-power_loss fates seed st

pub Reachable-IsSynced : {st : State} → Reachable st → IsSynced st
Reachable-IsSynced (set_up cfg steps st h) =
    IsSynced-same st (IsQuiet-setup_all steps (new_state cfg) st h (IsQuiet-new_state cfg)).same
Reachable-IsSynced (goes_on r s) = IsSynced-step s (Reachable-IsSynced r)
