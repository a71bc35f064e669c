-- ===== src/Sim/Budget.antt =====
-- The crash that a budget of calls brings (src/sim.rs).
use fstx.Base.{
  ℕ, List, [], ◌∷◌, Option, none, some, Bool, true, false, ◌≡◌, refl, ap, ◌+◌, ◌≤◌, ◌<◌, leb,
  length, arith, Bool-cases, inl, inr, err, map_ok,
}
use mathlib.Core.Path.{subst}
use fstx.Base.Action.{◌>>=◌, reads}
use fstx.Path.{Name}
use fstx.Error.{ErrorKind}
use fstx.Sim.{Node, file_node, dir_node, symlink_node, node_at, resolve_dir}
use fstx.Sim.State.{Op, rename, State, ci, is_spent, count_if, count, record_op}
use fstx.Sim.Crash.{fold}
use fstx.Sim.Calls.{existing, free_place, removable, removable_dir, movable, Move}
use fstx.Sim.Changes
use fstx.Sim.Changes.{
  Call, add_node, mark_dirty, add_file, add_dir, append_found, append_to, change_id, move_node,
  remove_node, sync_found, sync_node, sync_entries,
}
use fstx.Sim.Backend.{crash_after}
use fstx.Sim.CallsKeep.{Keeps, checked_lem}
use fstx.Sim.Reachable.{
  SysCall, create_file, append, mkdir, rename_noreplace, unlink, rmdir, sync_file, sync_dir, call,
}

-- The fields that say when the crash comes.
unfoldable pub HasClock : Bool → ℕ → Option ℕ → State → Type 0
HasClock crashed calls budget st =
    (st.crashed ≡ crashed) × (st.calls ≡ calls) × (st.budget ≡ budget)

module _ (crashed : Bool) (calls : ℕ) (budget : Option ℕ) where
  abbrev Has : State → Type 0
  Has = HasClock crashed calls budget

  Has-add_file :
      (bytes : List ℕ) (mode : Option ℕ) (place : ℕ × Name) → Keeps Has (add_file bytes mode place)
  unfolding HasClock add_file mark_dirty add_node record_op
  Has-add_file bytes mode (d, leaf) st h = h

  Has-add_dir : (place : ℕ × Name) → Keeps Has (add_dir place)
  unfolding HasClock add_dir add_node record_op
  Has-add_dir (d, leaf) st h = h

  Has-append_found :
      (more : List ℕ) (ino : ℕ) (found : Option Node) → Keeps Has (append_found more ino found)
  unfolding HasClock append_found mark_dirty
  Has-append_found more ino none st h = h
  Has-append_found more ino (some symlink_node) st h = h
  Has-append_found more ino (some (dir_node es m)) st h = h
  Has-append_found more ino (some (file_node bytes mode)) st h = h

  Has-change_id :
      (op : Op) (stable : Bool) (ino : ℕ) (st : State)
      → Has st
      → Has (record_op op (change_id stable ino st))
  unfolding HasClock change_id record_op
  Has-change_id op true ino st h = h
  Has-change_id op false ino st h = h

  Has-move_node : (move : Move) → Keeps Has (move_node move)
  unfolding HasClock move_node
  Has-move_node (fdir, fname, tdir, tname, ino, is_dir) st h =
      Has-change_id (rename fdir fname tdir tname ino is_dir) st.cfg.stable_ids ino
        (record st { vol = Changes.move_entry fdir fname tdir tname ino st.vol }) h

  Has-remove_node : (entry : ℕ × Name × ℕ) → Keeps Has (remove_node entry)
  unfolding HasClock remove_node record_op
  Has-remove_node (d, name, ino) st h = h

  Has-sync_found : (ino : ℕ) (found : Option Node) → Keeps Has (sync_found ino found)
  unfolding HasClock sync_found
  Has-sync_found ino none st h = h
  Has-sync_found ino (some symlink_node) st h = h
  Has-sync_found ino (some (dir_node es m)) st h = h
  Has-sync_found ino (some (file_node bytes mode)) st h = h

  Has-sync_entries : (d : ℕ) → Keeps Has (sync_entries d)
  unfolding HasClock sync_entries fold
  Has-sync_entries d st h = h

  -- After a call the clock stands where counting put it.
  Has-call : (c : SysCall) (st : State) → Has (count st).1 → Has (call c st).1
  unfolding call Changes.create_file Changes.append Changes.mkdir Changes.rename_noreplace
      Changes.unlink Changes.rmdir Changes.sync_file Changes.sync_dir append_to sync_node
  Has-call (create_file p bytes mode) =
      checked_lem Has (free_place p) (add_file bytes mode)
        (λ st x found. Has-add_file bytes mode x st)
  Has-call (append p more) =
      checked_lem Has (existing p) (append_to more)
        (λ st x found. Has-append_found more x (node_at x st.vol) st)
  Has-call (mkdir p) = checked_lem Has (free_place p) add_dir (λ st x found. Has-add_dir x st)
  Has-call (rename_noreplace from expect_from to expect_to) =
      checked_lem Has (movable from expect_from to expect_to) move_node
        (λ st x found. Has-move_node x st)
  Has-call (unlink p expect_parent) =
      checked_lem Has (removable p expect_parent) remove_node (λ st x found. Has-remove_node x st)
  Has-call (rmdir p) =
      checked_lem Has (removable_dir p) remove_node (λ st x found. Has-remove_node x st)
  Has-call (sync_file p) =
      checked_lem Has (existing p) sync_node (λ st x found. Has-sync_found x (node_at x st.vol) st)
  Has-call (sync_dir p) =
      checked_lem Has (λ st. resolve_dir p (ci st) st.vol) sync_entries
        (λ st x found. Has-sync_entries x st)

module _ {A : Type 0} (k : Call A) where
  down_lem :
      (down spent : Bool) (st : State)
      → down ≡ true
      → (count_if down spent >>= λ u. k) st ≡ (err ErrorKind.other, st)
  unfolding count_if
  down_lem true spent st h = refl
  down_lem false spent st h = cc

  counted_down :
      (st : State) → st.crashed ≡ true → (count >>= λ u. k) st ≡ (err ErrorKind.other, st)
  unfolding count
  counted_down st h = down_lem st.crashed (is_spent st) st h

-- Once the simulator has crashed, every counted call fails and changes nothing.
pub call-crashed :
    (c : SysCall) (st : State) → st.crashed ≡ true → call c st ≡ (err ErrorKind.other, st)
unfolding call Changes.create_file Changes.append Changes.mkdir Changes.rename_noreplace
    Changes.unlink Changes.rmdir Changes.sync_file Changes.sync_dir
call-crashed (create_file p bytes mode) st h =
    ap (λ r. (map_ok (λ a. tt) r.0, r.1))
      (counted_down (reads (free_place p) >>= add_file bytes mode) st h)
call-crashed (append p more) st h = counted_down (reads (existing p) >>= append_to more) st h
call-crashed (mkdir p) st h =
    ap (λ r. (map_ok (λ a. tt) r.0, r.1)) (counted_down (reads (free_place p) >>= add_dir) st h)
call-crashed (rename_noreplace from expect_from to expect_to) st h =
    counted_down (reads (movable from expect_from to expect_to) >>= move_node) st h
call-crashed (unlink p expect_parent) st h =
    counted_down (reads (removable p expect_parent) >>= remove_node) st h
call-crashed (rmdir p) st h = counted_down (reads (removable_dir p) >>= remove_node) st h
call-crashed (sync_file p) st h = counted_down (reads (existing p) >>= sync_node) st h
call-crashed (sync_dir p) st h =
    counted_down (reads (λ s. resolve_dir p (ci s) s.vol) >>= sync_entries) st h

-- The caller goes on after an error.
unfoldable pub run_calls : List SysCall → State → State
unfolding call
run_calls [] st = st
run_calls (c ∷ cs) st = run_calls cs (call c st).1

clock_stops :
    (cs : List SysCall) (k : ℕ) (budget : Option ℕ) (st : State)
    → HasClock true k budget st
    → HasClock true k budget (run_calls cs st)
unfolding run_calls HasClock
clock_stops [] k budget st h = h
clock_stops (c ∷ cs) k budget st h =
    clock_stops cs k budget (call c st).1 (rw (ap (λ r. r.1) (call-crashed c st h.0)) h)

-- What counting does to a clock that has not stopped.
tick_lem :
    (down spent : Bool) (k b : ℕ) (st : State)
    → down ≡ false
    → spent ≡ leb b k
    → HasClock false k (some b) st
    → ((b ≤ k → HasClock true k (some b) (count_if down spent st).1)
        × (k < b → HasClock false (k + 1) (some b) (count_if down spent st).1))
unfolding HasClock count_if
tick_lem true spent k b st d s h = cc
tick_lem false true k b st d s h = (λ le. (refl, h.1, h.2), λ lt. absurd (ground arith))
tick_lem false false k b st d s h =
    (λ le. absurd (ground arith), λ lt. (h.0, ap (λ c. c + 1) h.1, h.2))

tick :
    (k b : ℕ) (st : State)
    → HasClock false k (some b) st
    → ((b ≤ k → HasClock true k (some b) (count st).1)
        × (k < b → HasClock false (k + 1) (some b) (count st).1))
unfolding count HasClock is_spent
tick k b st h = tick_lem st.crashed (is_spent st) k b st h.0 (spent_lem st.budget h.2) h
  where
    spent_lem :
        (budget : Option ℕ)
        → budget ≡ some b
        → elim budget [ some c ↦ leb c st.calls | none ↦ false ] ≡ leb b k
    spent_lem budget e = rw (e, h.1) refl

clock_runs :
    (cs : List SysCall) (k b : ℕ) (st : State)
    → HasClock false k (some b) st
    → k ≤ b
    → ((k + length cs ≤ b → HasClock false (k + length cs) (some b) (run_calls cs st))
        × (b < k + length cs → HasClock true b (some b) (run_calls cs st)))
unfolding run_calls
clock_runs [] k b st h le = (λ l. rw (zero_lem k) h, λ l. absurd (omega arith))
  where
    zero_lem : (k : ℕ) → k + 0 ≡ k
    zero_lem k = omega arith
clock_runs (c ∷ cs) k b st h le = elim (Bool-cases (leb b k)) [
  | inl q ↦
      let same : k ≡ b = ground arith in
      let stopped = Has-call true k (some b) c st ((tick k b st h).0 (ground arith)) in
      (
        λ l. absurd (ground arith),
        λ l.
            subst (λ n. HasClock true n (some b) (run_calls cs (call c st).1)) same
              (clock_stops cs k (some b) (call c st).1 stopped),
      )
  | inr q ↦
      let going = Has-call false (k + 1) (some b) c st ((tick k b st h).1 (ground arith)) in
      let (before, beyond) = clock_runs cs (k + 1) b (call c st).1 going (ground arith) in
      (
        λ l.
            subst (λ n. HasClock false n (some b) (run_calls cs (call c st).1)) (omega arith)
              (before (ground arith)),
        λ l. beyond (ground arith),
      )
]

-- After `crash_after n` on a simulator that has not crashed, any `n` calls are counted without a
-- crash, and any longer sequence of calls ends in a crash, with exactly `n` calls counted.
pub crash_after-run_calls :
    (n : ℕ) (cs : List SysCall) (st : State)
    → st.crashed ≡ false
    → (length cs ≤ n
        → ((run_calls cs (crash_after n st)).crashed ≡ false)
          × ((run_calls cs (crash_after n st)).calls ≡ st.calls + length cs))
      × (n < length cs
          → ((run_calls cs (crash_after n st)).crashed ≡ true)
            × ((run_calls cs (crash_after n st)).calls ≡ st.calls + n))
unfolding HasClock crash_after
crash_after-run_calls n cs st h =
    let (before, beyond) =
      clock_runs cs st.calls (st.calls + n) (crash_after n st) (h, refl, refl) (omega arith) in
    (
      λ l. let c = before (omega arith) in (c.0, c.1),
      λ l. let c = beyond (omega arith) in (c.0, c.1),
    )
