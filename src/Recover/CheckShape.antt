-- ===== src/Recover/CheckShape.antt =====
-- The shape check is the search for a wave that cuts the plan in two (src/recover.rs).
use fstx.Base.{
  ℕ, ◌≤◌, ◌<◌, List, Option, none, some, false, nat_eq, list_eq, length, ◌≡◌, refl, sym, ap, ◌∙◌,
  ◌↔◌, inl, inr, arith, Bool-cases, Option-cases, ok, get_elem?, list_ord, nat_ord,
}
use fstx.Plan.{Step, Plan}
use fstx.Plan.Validate.Steps.{lt_of_get_elem?}
use fstx.Recover.{Pos, Shape, shape_of_waves, judge_shape, check_shape}
use fstx.Recover.Waves.{some_not_post, some_not_pre, firsts, firsts_inv, lasts, lasts_inv}

abbrev untouched : Shape
untouched = record { first_not_post = none; last_not_pre = none }

module _ (plan : Plan) (pos : List Pos) where
  -- One wave may be underway: all steps of the waves before it are made, and none of those after.
  abbrev pub HasCut : Type 0
  HasCut =
      (cut : ℕ) × ((k : ℕ) (wave : List Step)
        → get_elem? plan.waves k ≡ some wave
        → (k < cut → some_not_post pos wave ≡ false) × (cut < k → some_not_pre pos wave ≡ false))

  abbrev final : Shape
  final = shape_of_waves pos 0 plan.waves untouched

  all_post_before :
      (cut k : ℕ) (wave : List Step)
      → ((a : ℕ) → final.first_not_post ≡ some a → cut ≤ a)
      → get_elem? plan.waves k ≡ some wave
      → k < cut
      → some_not_post pos wave ≡ false
  all_post_before cut k wave least at lt = elim (Bool-cases (some_not_post pos wave)) [
    | inr done ↦ done
    | inl yet ↦
        let (a, e, n) = firsts pos 0 plan.waves untouched k wave at yet (λ a e. cc) in
        let m = least a e in absurd (omega arith)
  ]

  judged : (a b : ℕ) → judge_shape (some a) (some b) ≡ ok tt → b ≤ a
  unfolding judge_shape
  judged a b h = ground arith

  cut_of_ok : judge_shape final.first_not_post final.last_not_pre ≡ ok tt → HasCut
  cut_of_ok h = elim (Option-cases final.first_not_post) [
    | inl e ↦ (
      length plan.waves,
      λ k wave at. (
        all_post_before (length plan.waves) k wave (λ a e'. cc) at,
        λ lt. let n = lt_of_get_elem? plan.waves k at in absurd (omega arith),
      ),
    )
    | inr (a, e) ↦ (
      a,
      λ k wave at. (
        all_post_before a k wave (λ a' e'. ground arith) at,
        λ lt. elim (Bool-cases (some_not_pre pos wave)) [
          | inr done ↦ done
          | inl yet ↦
              let (b, e', n) = lasts pos 0 plan.waves untouched k wave at yet in
              let m = judged a b (
                ap (judge_shape (some a)) (sym e')
                ∙ (ap (λ f. judge_shape f final.last_not_pre) (sym e) ∙ h)) in
              absurd (omega arith)
        ],
      ),
    )
  ]

  no_cut : (a b : ℕ) → HasCut → final.first_not_post ≡ some a → final.last_not_pre ≡ some b → b ≤ a
  no_cut a b (cut, h) e e' = elim (firsts_inv pos 0 plan.waves untouched a e) [
    | inl start ↦ cc
    | inr (k, wave, n, at, yet) ↦ elim (lasts_inv pos 0 plan.waves untouched b e') [
      | inl start ↦ cc
      | inr (k', wave', n', at', yet') ↦
          let before = (h k wave at).0 in let after = (h k' wave' at').1 in ground arith
    ]
  ]

  judge_ok :
      (first last : Option ℕ)
      → ((a b : ℕ) → first ≡ some a → last ≡ some b → b ≤ a)
      → judge_shape first last ≡ ok tt
  unfolding judge_shape
  judge_ok (some a) (some b) h = let le = h a b refl refl in ground arith
  judge_ok (some a) none h = refl
  judge_ok none last h = refl

  -- The shape check passes exactly where one wave cuts the plan: every step of the waves before it
  -- is made, and no step of the waves after it.
  pub check_shape-HasCut : (check_shape plan pos ≡ ok tt) ↔ HasCut
  unfolding check_shape
  check_shape-HasCut =
      (cut_of_ok, λ cut. judge_ok final.first_not_post final.last_not_pre (λ a b. no_cut a b cut))
