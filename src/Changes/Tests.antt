-- ===== src/Changes/Tests.antt =====
-- Change sets on a small simulated tree (cli/src/changes.rs).
use fstx.Base.{
  ℕ, zero, suc, ◌-◌, ◌/◌, ◌%◌, ◌≤◌, ◌<◌, List, [], ◌∷◌, ◌++◌, map, Option, none, some, Bool, true,
  false, ◌&&◌, ◌||◌, not, ltb, leb, ◌==◌, nat_eq, list_eq, if◌then◌else◌, length, take, drop,
  is_empty, contains, any, all, ◌≡◌, refl, sym, ap, ◌∙◌, ◌≢◌, ◌↔◌, ◌⊎◌, inl, inr, arith, Bool-cases,
  Option-cases, ==_iff, ==_refl, Result, ok, err, ◌>>=◌, All, take-append, drop-append,
  take-append-drop, length-append, get_elem?, length-take_of_le, All-append, ok-injective,
  >>=-eq-ok, contains-append, length-set, all_below, all_below_sound, set, fail_if, ok_or, for_each,
  ◌>>◌, map_ok, replicate, Eq, Ord, list_ord, nat_ord,
}
use fstx.Error.{Error}
use fstx.Sim.{Image, Node, dir_node, file_node}
use fstx.Sim.Backend.{sim_vfs}
use fstx.Transaction.{Transaction}
use fstx.Changes.{
  Expect, Op, write_op, replace_op, mkdir_op, rename_op, remove_op, remove_all_op, ChangeSet,
  written, replaced, made_dir, renamed, removed, removed_all, Done, Failure, Outside, invalid_input,
  refused, Message, stage, parse_mode,
}
use fstx.Changes.Samples.{a, fs, transaction, outside}
use fstx.Changes.Text.{matches, replace_all}
use fstx.Changes.Reports.{report}
use fstx.Changes.Stage.{stage-outcome}

abbrev must_exist : Expect
must_exist = record { must_exist = some true; sha256 = none }

-- `a/n`
abbrev inner : List ℕ
inner = b'a' ∷ b'/' ∷ b'n' ∷ []

abbrev change_set : ChangeSet
change_set = record {
  expect = (a, must_exist) ∷ [];
  ops = mkdir_op inner ∷ rename_op inner (b'm' ∷ []) ∷ remove_op (b'z' ∷ []) ∷ [];
}

-- The simulator as the state of its backend.
unfoldable start : sim_vfs.State
unfolding sim_vfs
start = fs

-- The third op names what is not there.
third_fails :
    (stage outside sim_vfs change_set (start, transaction)).0
    ≡ err (record {
      kind = refused;
      failed_op = some 2;
      message = Message.of_error (Error.not_found ((b'z' ∷ []) ∷ []));
    })
unfolding stage fstx.Transaction.exists fstx.Path.Validate.validate_user_path
    native.Mathlib.Decide.ℕ_discrete list_eq fstx.Overlay.resolve fstx.Overlay.root_entry
    fstx.Base.Map.get fstx.Path.join sim_vfs fstx.Sim.Calls.stat start fstx.Path.is_root
    fstx.Path.file_name fstx.Sim.resolve_dir fstx.Sim.resolve_from fstx.Path.parent_or_root
    fstx.Sim.lookup fstx.Transaction.make_dir_all fstx.Overlay.Edit.create_dir_all
    fstx.Path.proper_prefixes fstx.Overlay.ekind fstx.Sim.resolve_name
    fstx.Overlay.require_parent_dir fstx.Overlay.check_new_name fstx.Transaction.rename_path
    fstx.Overlay.Edit.rename fstx.Base.Map.insert fstx.Path.is_ancestor_of fstx.Transaction.remove
    fstx.Overlay.Edit.remove_path fstx.Overlay.children_of_placed list_ord nat_ord
    fstx.Changes.from_fstx
third_fails = refl

stage-outcome_example :
    ((done : List Done)
      → (stage outside sim_vfs change_set (start, transaction)).0 ≡ ok done
      → map report change_set.ops ≡ done)
    × ((f : Failure)
        → (stage outside sim_vfs change_set (start, transaction)).0 ≡ err f
        → ((f.failed_op ≡ none)
            × ((stage outside sim_vfs change_set (start, transaction)).1 ≡ (start, transaction)))
          ⊎ ((k : ℕ) × (k < length change_set.ops) × (f.failed_op ≡ some k)))
stage-outcome_example = stage-outcome outside sim_vfs change_set (start, transaction)

two_found : matches (1 ∷ 1 ∷ []) (1 ∷ 1 ∷ 1 ∷ 2 ∷ 1 ∷ 1 ∷ []) ≡ 2
unfolding matches native.Mathlib.Decide.ℕ_discrete
two_found = refl

both_changed : replace_all (1 ∷ 1 ∷ []) (9 ∷ []) (1 ∷ 1 ∷ 1 ∷ 2 ∷ 1 ∷ 1 ∷ []) ≡ 9 ∷ 1 ∷ 2 ∷ 9 ∷ []
unfolding replace_all native.Mathlib.Decide.ℕ_discrete
both_changed = refl

too_large : parse_mode (b'1' ∷ b'0' ∷ b'0' ∷ b'0' ∷ b'0' ∷ []) ≡ none
unfolding parse_mode fstx.Base.Radix.from_str_radix native.Mathlib.Decide.ℕ_discrete
too_large = refl
