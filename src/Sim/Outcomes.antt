-- ===== src/Sim/Outcomes.antt =====
-- What a power loss shows, from a state that the simulator can reach (src/sim.rs).
use fstx.Base.{ℕ, List, ◌≡◌, nat_eq, list_eq, take, replicate, nat_ord}
use fstx.Sim.State.{State}
use fstx.Sim.Crash.{Fate, apply}
use fstx.Sim.Reachable.{Reachable}

-- The fates of the ops are all to persist.
abbrev AllApply : ℕ → List Fate → Type 0
AllApply k fates = take k fates ≡ replicate k apply
