-- ===== src/Changes/Fails.antt =====
-- A failure of an op names the op (`stage` of cli/src/changes.rs).
use fstx.Base.{
  ℕ, ◌+◌, ◌<◌, List, [], ◌∷◌, Option, none, some, Bool, true, false, not, ◌==◌, nat_eq, list_eq,
  if◌then◌else◌, length, is_empty, all, ◌≡◌, refl, sym, ap, ◌∙◌, inl, inr, arith, Result, ok, err,
  fail_if, ok_or, list_ord, nat_ord,
}
use fstx.Base.Action.{◌>>=◌, ◌>>◌, pure, lift, map_err}
use fstx.Base.Utf8.{is_utf8}
use fstx.Changes.Text.{matches, replace_all}
use fstx.Error.{Error}
use fstx.Vfs.{Vfs}
use fstx.Transaction.{
  write_with_mode, Method, read_path, write, make_dir_all, rename_path, remove, remove_tree,
}
use fstx.Changes.{
  Op, write_op, replace_op, mkdir_op, rename_op, remove_op, remove_all_op, written, replaced,
  made_dir, renamed, removed, removed_all, Done, FailKind, invalid_input, Message, failure, Failure,
  from_fstx, parse_mode, Outside, content_of, Staging, method, write_as, replaced_text, stage_op,
  stage_ops,
}
use fstx.Changes.Chains.{St, bind_err}

module _ (outside : Outside) (vfs : Vfs) where
  -- What fails, fails with this op named.
  unfoldable pub FailsAt : {A : Type 0} → Option ℕ → Staging outside vfs A → Type 0
  FailsAt at m = (st : St outside vfs) (f : Failure) → (m st).0 ≡ err f → f.failed_op ≡ at

  pub FailsAt-bind :
      {A B : Type 0} (at : Option ℕ) (m : Staging outside vfs A) (k : A → Staging outside vfs B)
      → FailsAt at m
      → ((a : A) → FailsAt at (k a))
      → FailsAt at (m >>= k)
  unfolding FailsAt
  FailsAt-bind at m k first rest st f h = elim (bind_err outside vfs m k st f h) [
    | inl e ↦ first st f e
    | inr (a, done, e) ↦ rest a (m st).1 f e
  ]

  pub FailsAt-pure : {A : Type 0} (at : Option ℕ) (a : A) → FailsAt at (pure a)
  unfolding FailsAt
  FailsAt-pure at a st f h = cc

  err_lem : {A : Type 0} (x f : Failure) → ◌≡◌ {A = Result Failure A} (err x) (err f) → x ≡ f
  err_lem x f h = ground arith

  pub FailsAt-method :
      {A : Type 0} (at : Option ℕ) (m : Method vfs A) → FailsAt at (method outside vfs at m)
  unfolding FailsAt
  FailsAt-method {A} at m st f h = go (m st).0 h
    where
      go :
          (r : Result Error A)
          → ((map_err (from_fstx at) (lift r)) (m st).1).0 ≡ err f
          → f.failed_op ≡ at
      go (ok a) q = cc
      go (err e) q =
          ap (λ x. x.failed_op) (sym (err_lem (from_fstx at e) f q)) ∙ unfold from_fstx in refl

  -- A value or this failure.
  FailsAt-ok_or :
      {A : Type 0} (at : Option ℕ) (found : Option A) (x : Failure)
      → x.failed_op ≡ at
      → FailsAt at (lift (ok_or found x))
  unfolding FailsAt
  FailsAt-ok_or at (some a) x same st f h = cc
  FailsAt-ok_or at none x same st f h = ap (λ y. y.failed_op) (sym (err_lem x f h)) ∙ same

  pub FailsAt-err :
      (A : Type 0) (at : Option ℕ) (x : Failure)
      → x.failed_op ≡ at
      → FailsAt {A = A} at (lift (err x))
  unfolding FailsAt
  FailsAt-err A at x same st f h = ap (λ y. y.failed_op) (sym (err_lem x f h)) ∙ same

  FailsAt-content_of :
      (i : ℕ) (content content_base64 from_file : Option (List ℕ))
      → FailsAt (some i) (lift (content_of outside i content content_base64 from_file))
  unfolding content_of
  FailsAt-content_of i (some c) none none = FailsAt-pure (some i) c
  FailsAt-content_of i none (some b) none =
      FailsAt-ok_or (some i) (outside.decode_base64 b)
        (failure invalid_input (some i) (Message.not_base64 b)) refl
  FailsAt-content_of i none none (some f) =
      FailsAt-ok_or (some i) (outside.read_source f)
        (failure FailKind.refused (some i) (Message.no_from_file f)) refl
  FailsAt-content_of i none none none =
      FailsAt-err (List ℕ) (some i) (failure invalid_input (some i) Message.needs_one_content) refl
  FailsAt-content_of i (some c) (some b) f =
      FailsAt-err (List ℕ) (some i) (failure invalid_input (some i) Message.needs_one_content) refl
  FailsAt-content_of i (some c) none (some f) =
      FailsAt-err (List ℕ) (some i) (failure invalid_input (some i) Message.needs_one_content) refl
  FailsAt-content_of i none (some b) (some f) =
      FailsAt-err (List ℕ) (some i) (failure invalid_input (some i) Message.needs_one_content) refl

  FailsAt-write_as :
      (i : ℕ) (path bytes : List ℕ) (mode : Option (List ℕ))
      → FailsAt (some i) (write_as outside vfs i path bytes mode)
  unfolding write_as
  FailsAt-write_as i path bytes none = FailsAt-method (some i) (write vfs path bytes)
  FailsAt-write_as i path bytes (some m) =
      FailsAt-bind (some i)
        (lift (ok_or (parse_mode m) (failure invalid_input (some i) Message.mode_not_octal)))
        (λ mode. method outside vfs (some i) (write_with_mode vfs path bytes mode))
        (FailsAt-ok_or (some i) (parse_mode m)
          (failure invalid_input (some i) Message.mode_not_octal) refl)
        (λ mode. FailsAt-method (some i) (write_with_mode vfs path bytes mode))

  pub FailsAt-if :
      {A : Type 0} (at : Option ℕ) (b : Bool) (r q : Result Failure A)
      → FailsAt at (lift r)
      → FailsAt at (lift q)
      → FailsAt at (lift (if b then r else q))
  FailsAt-if at true r q h k = h
  FailsAt-if at false r q h k = k

  FailsAt-replaced_text :
      (i : ℕ) (path find replace : List ℕ) (count : ℕ) (bytes : List ℕ)
      → FailsAt (some i) (lift (replaced_text outside vfs i path find replace count bytes))
  unfolding replaced_text
  FailsAt-replaced_text i path find replace count bytes =
      let bad : Failure = failure FailKind.refused (some i) (Message.not_text path) in
      let wrong : Failure =
        failure FailKind.refused (some i) (Message.found_times path (matches find bytes) count) in
      let good : Result Failure (List ℕ) = ok (replace_all find replace bytes) in
      FailsAt-if (some i) (not (is_utf8 bytes)) (err bad)
        (if matches find bytes == count then good else err wrong)
        (FailsAt-err (List ℕ) (some i) bad refl)
        (FailsAt-if (some i) (matches find bytes == count) good (err wrong)
          (FailsAt-pure (some i) (replace_all find replace bytes))
          (FailsAt-err (List ℕ) (some i) wrong refl))

  FailsAt-fail_if :
      (at : Option ℕ) (b : Bool) (x : Failure) → x.failed_op ≡ at → FailsAt at (lift (fail_if b x))
  FailsAt-fail_if at true x same = FailsAt-err (Unit {0}) at x same
  FailsAt-fail_if at false x same = FailsAt-pure at tt

  -- A method, and then a report.
  FailsAt-reported :
      (i : ℕ) (m : Method vfs (Unit {0})) (d : Done)
      → FailsAt (some i) (method outside vfs (some i) m >> pure d)
  FailsAt-reported i m d =
      FailsAt-bind (some i) (method outside vfs (some i) m) (λ u. pure d)
        (FailsAt-method (some i) m) (λ u. FailsAt-pure (some i) d)

  FailsAt-stage_op : (i : ℕ) (op : Op) → FailsAt (some i) (stage_op outside vfs i op)
  unfolding stage_op
  FailsAt-stage_op i (write_op path content content_base64 from_file mode) =
      let end : Done = record { op = written; path = path; to = none } in
      FailsAt-bind (some i) (lift (content_of outside i content content_base64 from_file))
        (λ bytes. write_as outside vfs i path bytes mode >> pure end)
        (FailsAt-content_of i content content_base64 from_file)
        (λ bytes.
          FailsAt-bind (some i) (write_as outside vfs i path bytes mode) (λ u. pure end)
            (FailsAt-write_as i path bytes mode) (λ u. FailsAt-pure (some i) end))
  FailsAt-stage_op i (replace_op path find replace count) =
      let end : Done = record { op = replaced; path = path; to = none } in
      let put = λ (text : List ℕ). method outside vfs (some i) (write vfs path text) >> pure end in
      let change = λ (bytes : List ℕ).
        lift (replaced_text outside vfs i path find replace count bytes) >>= put in
      let bad : Failure = failure invalid_input (some i) Message.empty_find in
      FailsAt-bind (some i) (lift (fail_if (is_empty find) bad))
        (λ u. method outside vfs (some i) (read_path vfs path) >>= change)
        (FailsAt-fail_if (some i) (is_empty find) bad refl)
        (λ u.
          FailsAt-bind (some i) (method outside vfs (some i) (read_path vfs path)) change
            (FailsAt-method (some i) (read_path vfs path))
            (λ bytes.
              FailsAt-bind (some i)
                (lift (replaced_text outside vfs i path find replace count bytes)) put
                (FailsAt-replaced_text i path find replace count bytes)
                (λ text. FailsAt-reported i (write vfs path text) end)))
  FailsAt-stage_op i (mkdir_op path) =
      FailsAt-reported i (make_dir_all vfs path) (record { op = made_dir; path = path; to = none })
  FailsAt-stage_op i (rename_op from to) =
      FailsAt-reported i (rename_path vfs from to)
        (record { op = renamed; path = from; to = some to })
  FailsAt-stage_op i (remove_op path) =
      FailsAt-reported i (remove vfs path) (record { op = removed; path = path; to = none })
  FailsAt-stage_op i (remove_all_op path) =
      FailsAt-reported i (remove_tree vfs path)
        (record { op = removed_all; path = path; to = none })

  pub stage_ops-failed :
      (i : ℕ) (ops : List Op) (st : St outside vfs) (f : Failure)
      → (stage_ops outside vfs i ops st).0 ≡ err f
      → (k : ℕ) × (k < length ops) × (f.failed_op ≡ some (i + k))
  unfolding stage_ops FailsAt
  stage_ops-failed i [] st f h = cc
  stage_ops-failed i (op ∷ ops) st f h =
      let later = λ (d : Done). stage_ops outside vfs (i + 1) ops >>= λ rest. pure (d ∷ rest) in
      let st' = (stage_op outside vfs i op st).1 in
      elim (bind_err outside vfs (stage_op outside vfs i op) later st f h) [
        | inl e ↦ (0, omega arith, FailsAt-stage_op i op st f e ∙ ap some (omega arith))
        | inr (d, one, e) ↦
            elim (bind_err outside vfs (stage_ops outside vfs (i + 1) ops) (λ rest. pure (d ∷ rest))
              st' f e) [
                | inl e' ↦
                    let (k, below, at) = stage_ops-failed (i + 1) ops st' f e' in
                    (k + 1, omega arith, at ∙ ap some (omega arith))
                | inr (ds, all, e') ↦ absurd (cc e')
              ]
      ]
