-- ===== src/Changes/Stage.antt =====
-- What staging a change set does (`stage` of cli/src/changes.rs).
use fstx.Base.{
  ℕ, ◌<◌, List, [], ◌∷◌, map, Option, none, some, Bool, true, false, ◌==◌, nat_eq, list_eq, length,
  ◌≡◌, refl, ap, ◌∙◌, ◌⊎◌, inl, inr, arith, Result, ok, err, list_ord, nat_ord,
}
use fstx.Base.Action.{◌>>=◌, ◌>>◌, lift, map_err, lift_keeps}
use fstx.Base.Map.{BTreeMap}
use fstx.Path.{to_ascii_lowercase}
use fstx.Path.Validate.{validate_user_path}
use fstx.Error.{Error}
use fstx.Vfs.{Vfs}
use fstx.Transaction.{Method, read_path, exists, read_at, exists_at}
use fstx.Changes.{
  Expect, ChangeSet, Done, FailKind, Message, failure, Failure, from_fstx, Outside, sha256_hex,
  Staging, method, check_exists, check_hash, check_sha256, check_expect, check_expectations,
  stage_ops, stage,
}
use fstx.Changes.Chains.{St, bind_ok, bind_err}
use fstx.Changes.Reports.{report, stage_ops-report}
use fstx.Changes.Fails.{
  stage_ops-failed, FailsAt, FailsAt-bind, FailsAt-method, FailsAt-pure, FailsAt-err, FailsAt-if,
}

module _ (outside : Outside) (vfs : Vfs) where
  abbrev Keeping : {A : Type 0} → Staging outside vfs A → Type 0
  Keeping m = (st : St outside vfs) → (m st).1 ≡ st

  Keeping-bind :
      {A B : Type 0} (m : Staging outside vfs A) (k : A → Staging outside vfs B)
      → Keeping m
      → ((a : A) → Keeping (k a))
      → Keeping (m >>= k)
  Keeping-bind {A} {B} m k first rest st = go (m st).0
    where
      go : (r : Result Failure A) → ((lift r >>= k) (m st).1).1 ≡ st
      go (ok a) = rest a (m st).1 ∙ first st
      go (err x) = first st

  Keeping-method :
      {A : Type 0} (at : Option ℕ) (m : Method vfs A)
      → ((st : St outside vfs) → (m st).1 ≡ st)
      → Keeping (method outside vfs at m)
  Keeping-method {A} at m first st = go (m st).0
    where
      go : (r : Result Error A) → (map_err (from_fstx at) (lift r) (m st).1).1 ≡ st
      go (ok a) = first st
      go (err x) = first st

  -- A chain whose first call fails ends there.
  failed_first :
      {A B : Type 0} (m : Staging outside vfs A) (k : A → Staging outside vfs B)
      (st : St outside vfs) (f : Failure)
      → (m st).0 ≡ err f
      → (m st).1 ≡ st
      → ((m >>= k) st).1 ≡ st
  failed_first m k st f e kept = ap (λ r. ((lift r >>= k) (m st).1).1) e ∙ kept

  exists-kept : (path : List ℕ) (st : St outside vfs) → (exists vfs path st).1 ≡ st
  unfolding exists
  exists-kept path st = lift_keeps (validate_user_path path) (exists_at vfs) st (λ p. refl)

  read_path-kept : (path : List ℕ) (st : St outside vfs) → (read_path vfs path st).1 ≡ st
  unfolding read_path
  read_path-kept path st = lift_keeps (validate_user_path path) (read_at vfs) st (λ p. refl)

  Keeping-check_sha256 :
      (path : List ℕ) (want : Option (List ℕ)) (there : Bool)
      → Keeping (check_sha256 outside vfs path want there)
  unfolding check_sha256
  Keeping-check_sha256 path none there st = refl
  Keeping-check_sha256 path (some want) false st = refl
  Keeping-check_sha256 path (some want) true st =
      Keeping-bind (method outside vfs none (read_path vfs path))
        (λ bytes. lift (check_hash outside vfs path want bytes))
        (Keeping-method none (read_path vfs path) (read_path-kept path)) (λ bytes st. refl) st

  Keeping-check_expect : (path : List ℕ) (e : Expect) → Keeping (check_expect outside vfs path e)
  unfolding check_expect
  Keeping-check_expect path e =
      Keeping-bind (method outside vfs none (exists vfs path))
        (λ there.
          lift (check_exists outside vfs path e.must_exist there)
          >> check_sha256 outside vfs path e.sha256 there)
        (Keeping-method none (exists vfs path) (exists-kept path))
        (λ there.
          Keeping-bind (lift (check_exists outside vfs path e.must_exist there))
            (λ u. check_sha256 outside vfs path e.sha256 there) (λ st. refl)
            (λ u. Keeping-check_sha256 path e.sha256 there))

  Keeping-check_expectations :
      (expect : BTreeMap (List ℕ) Expect) → Keeping (check_expectations outside vfs expect)
  unfolding check_expectations
  Keeping-check_expectations [] st = refl
  Keeping-check_expectations ((path, e) ∷ rest) st =
      Keeping-bind (check_expect outside vfs path e) (λ u. check_expectations outside vfs rest)
        (Keeping-check_expect path e) (λ u. Keeping-check_expectations rest) st

  abbrev Unnamed : {A : Type 0} → Staging outside vfs A → Type 0
  Unnamed = FailsAt outside vfs none

  Unnamed-check_exists :
      (path : List ℕ) (want : Option Bool) (there : Bool)
      → Unnamed (lift (check_exists outside vfs path want there))
  unfolding check_exists
  Unnamed-check_exists path none there = FailsAt-pure outside vfs none tt
  Unnamed-check_exists path (some true) true = FailsAt-pure outside vfs none tt
  Unnamed-check_exists path (some true) false =
      FailsAt-err outside vfs (Unit {0}) none
        (failure FailKind.refused none (Message.does_not_exist path)) refl
  Unnamed-check_exists path (some false) true =
      FailsAt-err outside vfs (Unit {0}) none
        (failure FailKind.refused none (Message.already_there path)) refl
  Unnamed-check_exists path (some false) false = FailsAt-pure outside vfs none tt

  Unnamed-check_hash :
      (path want bytes : List ℕ) → Unnamed (lift (check_hash outside vfs path want bytes))
  unfolding check_hash
  Unnamed-check_hash path want bytes =
      let x : Failure =
        failure FailKind.refused none (Message.hash_is path (sha256_hex outside bytes) want) in
      FailsAt-if outside vfs none
        (to_ascii_lowercase (sha256_hex outside bytes) == to_ascii_lowercase want) (ok tt) (err x)
        (FailsAt-pure outside vfs none tt) (FailsAt-err outside vfs (Unit {0}) none x refl)

  Unnamed-check_sha256 :
      (path : List ℕ) (want : Option (List ℕ)) (there : Bool)
      → Unnamed (check_sha256 outside vfs path want there)
  unfolding check_sha256
  Unnamed-check_sha256 path none there = FailsAt-pure outside vfs none tt
  Unnamed-check_sha256 path (some want) false =
      FailsAt-err outside vfs (Unit {0}) none
        (failure FailKind.refused none (Message.does_not_exist path)) refl
  Unnamed-check_sha256 path (some want) true =
      FailsAt-bind outside vfs none (method outside vfs none (read_path vfs path))
        (λ bytes. lift (check_hash outside vfs path want bytes))
        (FailsAt-method outside vfs none (read_path vfs path)) (Unnamed-check_hash path want)

  Unnamed-check_expectations :
      (expect : BTreeMap (List ℕ) Expect) → Unnamed (check_expectations outside vfs expect)
  unfolding check_expectations check_expect
  Unnamed-check_expectations [] = FailsAt-pure outside vfs none tt
  Unnamed-check_expectations ((path, e) ∷ rest) =
      FailsAt-bind outside vfs none (check_expect outside vfs path e)
        (λ u. check_expectations outside vfs rest)
        (FailsAt-bind outside vfs none (method outside vfs none (exists vfs path))
          (λ there.
            lift (check_exists outside vfs path e.must_exist there)
            >> check_sha256 outside vfs path e.sha256 there)
          (FailsAt-method outside vfs none (exists vfs path))
          (λ there.
            FailsAt-bind outside vfs none (lift (check_exists outside vfs path e.must_exist there))
              (λ u. check_sha256 outside vfs path e.sha256 there)
              (Unnamed-check_exists path e.must_exist there)
              (λ u. Unnamed-check_sha256 path e.sha256 there)))
        (λ u. Unnamed-check_expectations rest)

  -- Staging a change set that succeeds reports every op in order. One that fails either names one of the
  -- ops by its index, or names none and has left the filesystem and the transaction as they were.
  pub stage-outcome :
      (cs : ChangeSet) (st : St outside vfs)
      → ((done : List Done) → (stage outside vfs cs st).0 ≡ ok done → map report cs.ops ≡ done)
        × ((f : Failure)
            → (stage outside vfs cs st).0 ≡ err f
            → ((f.failed_op ≡ none) × ((stage outside vfs cs st).1 ≡ st))
              ⊎ ((k : ℕ) × (k < length cs.ops) × (f.failed_op ≡ some k)))
  unfolding stage FailsAt
  stage-outcome cs st =
      let checks = check_expectations outside vfs cs.expect in
      let ops = λ (u : Unit {0}). stage_ops outside vfs 0 cs.ops in
      (
        (λ done h.
            let (u, first, rest) = bind_ok outside vfs checks ops st done h in
            stage_ops-report outside vfs 0 cs.ops (checks st).1 done rest),
        (λ f h. elim (bind_err outside vfs checks ops st f h) [
          | inl e ↦ inl (
            Unnamed-check_expectations cs.expect st f e,
            failed_first checks ops st f e (Keeping-check_expectations cs.expect st),
          )
          | inr (u, first, e) ↦
              let (k, below, at) = stage_ops-failed outside vfs 0 cs.ops (checks st).1 f e in
              inr (k, below, at ∙ ap some (omega arith))
        ]),
      )
