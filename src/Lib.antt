-- ===== src/Lib.antt =====
-- fstx: atomic, crash-safe transactions over many files of one directory tree.
--
-- A transaction stages new content under `<root>/.fstx/tx-<id>/`, compiles the staged changes to a
-- physical plan of tokens (entries that keep their identity), locations and waves of renames, writes
-- the plan to a checksummed journal, and then makes the renames wave by wave. Recovery reads the
-- journal back, observes where each token is, and either settles the transaction, undoes it, or
-- refuses without touching anything.
--
-- Which file models what:
--   Path, Path/Validate, Path/Hex     src/path.rs: `RelPath` is the list of its components, and a
--     component the list of its bytes; `validate_user_path`, the hex form of the journal.
--   Error                             src/error.rs: `Error`; `Reason` has one constructor for each
--     text that the code formats.
--   Vfs                               src/vfs.rs: the trait is a record of functions over a state,
--     so the backend is arbitrary, and any call may fail.
--   Plan, Plan/Validate               src/plan.rs: the plan's types and `validate`.
--   State                             src/state.rs: the private paths, the markers, `gc`.
--   Journal                           src/journal.rs: `encode` and `decode`.
--   Progress                          src/progress.rs: the log of waves, `encode` and `parse`.
--   Recover, Recover/Rollback, Recover/Decide
--                                     src/recover.rs: classification, the shape and progress
--     checks, `preflight`, `rollback`, `decide`, `recover_locked`.
--   Overlay, Overlay/Edit             src/overlay.rs: the view of the tree that the operations make.
--   Plan/Compile                      src/plan.rs: `compile`.
--   Transaction, Transaction/Commit   src/transaction.rs: start, methods, `commit`.
--   Caps                              src/caps.rs: the probe; the process's cache is a value.
--   Inspect, Api                      src/inspect.rs, src/lib.rs: the report, `recover_on`.
--   Changes, Changes/Text             cli/src/changes.rs: change sets and `stage`; SHA-256, base64 and
--     the files that a change set copies are the parameter `Outside`.
--   Changes/Sync                      cli/src/changes.rs: `stage_sync`; the source tree is the parameter
--     `Source`. The loop runs on fuel, one for each directory and one for its end: Changes/Sync/Ends says
--     how much is enough for a finite tree.
--   Sim, Sim/State, Sim/Crash, Sim/Calls, Sim/Changes, Sim/Backend
--                                     src/sim.rs: the images, the state, what a power loss leaves,
--     the calls that read and those that change, and the backend `sim_vfs` with the setup of tests.
--     A panic of the setup is `none`; `expect` and `unwrap` on a directory's entries leave the image
--     as it is, where the directory is not one. The climb to the root in `rename_noreplace` runs on
--     10,001 as fuel, which is what the code's guard counts to.
--   Sim/Namespace, Sim/Coherent, Sim/CallsKeep, Sim/Loss, Sim/Setup, Sim/Synced, Sim/Reachable
--                                     the names of an image as a function, and the invariants.
--   Base                              shared helpers: lists, equality tests, results, maps, and the
--     actions (a state passed along that an error keeps).
--   Samples                           the plan of the source's own tests, and a small filesystem.
--
-- Conventions. Numbers are natural numbers; the wave number of a progress record is cut to 32 bits
-- as the code does, and the counters `next_blob` and `next_dir` are not cut, since a transaction
-- would have to stage 2^32 files first. A loop over a list is a structural recursion; the loop of the
-- progress parser runs on the length of its input, which is enough because each turn drops a byte at
-- least. `delete_tree` runs on fuel for the depth of the nesting and fails where the fuel runs out, as
-- a recursion too deep for its stack would. A reason that the code formats as a text is a constructor
-- that holds what is formatted.
--
-- Not modelled: the Linux backend (src/sys/linux.rs) and its system calls, which the `Vfs` record
-- stands for; the JSON codec and the hash function, which belong to other packages and are the
-- parameters `Codec` and `hash`; the listings of the simulated filesystem that only tests read
-- (`tree`, `private_tree`, `private_leftovers` and `fingerprint` of src/sim.rs); the command line itself, the bindings, the fuzz targets and the examples. The
-- names made of the time and the process are parameters.
pub mod Base
pub mod Path
pub mod Error
pub mod Progress
pub mod Vfs
pub mod Plan
pub mod Sim
pub mod State
pub mod Journal
pub mod Recover
pub mod Samples
pub mod Overlay
pub mod Caps
pub mod Transaction
pub mod Inspect
pub mod Api
pub mod Changes
