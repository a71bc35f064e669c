-- ===== src/Plan/Tests.antt =====
-- The sample plan passes the validation (src/plan.rs).
use fstx.Base.{◌∷◌, ok, ◌≡◌, refl, err, []}
use fstx.Error.{Reason}
use fstx.Plan.{Plan}
use fstx.Plan.Validate.{validate}
use fstx.Plan.Validate.Order.{IsOrdered, validate-IsOrdered}
use fstx.Samples.{sample, step}

pub sample_is_valid : validate sample ≡ ok tt
unfolding validate fstx.Plan.Validate.scan_waves fstx.Plan.Validate.record_steps fstx.Base.Map.get
    fstx.Plan.Validate.check_overlaps fstx.Base.Map.insert fstx.Base.nat_ord
    fstx.Path.is_ancestor_of fstx.Path.overlaps fstx.Path.parent fstx.Path.parent_or_root
    fstx.Plan.Validate.advance fstx.Plan.Validate.check_finals fstx.Plan.Validate.check_free
    fstx.Plan.Validate.check_loc fstx.Plan.Validate.check_pair
    fstx.Plan.Validate.check_parent_tokens fstx.Plan.Validate.check_paths
    fstx.Plan.Validate.check_step fstx.Plan.Validate.check_tokens fstx.Plan.Validate.collect_waves
    fstx.Plan.Validate.execute fstx.Plan.Validate.has_descent fstx.Plan.Validate.token_at
    fstx.Plan.dst fstx.Plan.loc_at fstx.Plan.location fstx.Plan.src fstx.Vfs.kind_eq
    fstx.Vfs.file_id_eq native.Mathlib.Decide.ℕ_discrete fstx.Base.list_eq
sample_is_valid = refl

validate-IsOrdered_example : IsOrdered sample
validate-IsOrdered_example = validate-IsOrdered sample sample_is_valid

-- The waves of the sample, its two middle ones in the wrong order.
abbrev swapped : Plan
swapped = record sample {
  waves = (step 0 0 ∷ []) ∷ (step 1 1 ∷ []) ∷ (step 1 0 ∷ []) ∷ (step 2 0 ∷ []) ∷ [];
}

swapped_is_refused : validate swapped ≡ err (Reason.not_increasing 1)
unfolding validate fstx.Plan.Validate.scan_waves fstx.Plan.Validate.record_steps fstx.Base.Map.get
    fstx.Plan.Validate.check_overlaps fstx.Base.Map.insert fstx.Base.nat_ord
    fstx.Path.is_ancestor_of fstx.Path.overlaps fstx.Path.parent fstx.Path.parent_or_root
    fstx.Plan.Validate.advance fstx.Plan.Validate.check_finals fstx.Plan.Validate.check_free
    fstx.Plan.Validate.check_loc fstx.Plan.Validate.check_pair
    fstx.Plan.Validate.check_parent_tokens fstx.Plan.Validate.check_paths
    fstx.Plan.Validate.check_step fstx.Plan.Validate.check_tokens fstx.Plan.Validate.collect_waves
    fstx.Plan.Validate.execute fstx.Plan.Validate.has_descent fstx.Plan.Validate.token_at
    fstx.Plan.dst fstx.Plan.loc_at fstx.Plan.location fstx.Plan.src fstx.Vfs.kind_eq
    fstx.Vfs.file_id_eq native.Mathlib.Decide.ℕ_discrete fstx.Base.list_eq
swapped_is_refused = refl
