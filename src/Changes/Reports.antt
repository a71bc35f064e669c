-- ===== src/Changes/Reports.antt =====
-- What staging reports (`stage` of cli/src/changes.rs).
use fstx.Base.{
  ℕ, ◌+◌, List, [], ◌∷◌, map, none, some, nat_eq, list_eq, is_empty, all, ◌≡◌, ap, ◌∙◌, ok,
  ok-injective, fail_if, list_ord, nat_ord,
}
use fstx.Base.Action.{◌>>=◌, ◌>>◌, pure, lift}
use fstx.Vfs.{Vfs}
use fstx.Transaction.{read_path, write, make_dir_all, rename_path, remove, remove_tree}
use fstx.Changes.{
  Op, write_op, replace_op, mkdir_op, rename_op, remove_op, remove_all_op, written, replaced,
  made_dir, renamed, removed, removed_all, Done, invalid_input, Message, failure, Outside,
  content_of, Staging, method, write_as, replaced_text, stage_op, stage_ops,
}
use fstx.Changes.Chains.{St, bind_ok}

-- What is reported of an op.
unfoldable pub report : Op → Done
report (write_op path content content_base64 from_file mode) = record {
  op = written;
  path = path;
  to = none;
}
report (replace_op path find replace count) = record { op = replaced; path = path; to = none }
report (mkdir_op path) = record { op = made_dir; path = path; to = none }
report (rename_op from to) = record { op = renamed; path = from; to = some to }
report (remove_op path) = record { op = removed; path = path; to = none }
report (remove_all_op path) = record { op = removed_all; path = path; to = none }

module _ (outside : Outside) (vfs : Vfs) where
  -- A report at the end of a chain is what the chain gives.
  last_ok :
      {A : Type 0} (m : Staging outside vfs A) (d : Done) (st : St outside vfs) (b : Done)
      → ((m >> pure d) st).0 ≡ ok b
      → d ≡ b
  last_ok m d st b h =
      let (a, done, same) = bind_ok outside vfs m (λ a. pure d) st b h in ok-injective same

  stage_op-report :
      (i : ℕ) (op : Op) (st : St outside vfs) (d : Done)
      → (stage_op outside vfs i op st).0 ≡ ok d
      → report op ≡ d
  unfolding stage_op report
  stage_op-report i (write_op path content content_base64 from_file mode) st d h =
      let end : Done = record { op = written; path = path; to = none } in
      let (bytes, found, rest) =
        bind_ok outside vfs (lift (content_of outside i content content_base64 from_file))
          (λ bytes. write_as outside vfs i path bytes mode >> pure end) st d h in
      last_ok (write_as outside vfs i path bytes mode) end st d rest
  stage_op-report i (replace_op path find replace count) st d h =
      let end : Done = record { op = replaced; path = path; to = none } in
      let put = λ (text : List ℕ). method outside vfs (some i) (write vfs path text) >> pure end in
      let change = λ (bytes : List ℕ).
        lift (replaced_text outside vfs i path find replace count bytes) >>= put in
      let (u, full, rest) =
        bind_ok outside vfs
          (lift (fail_if (is_empty find) (failure invalid_input (some i) Message.empty_find)))
          (λ u. method outside vfs (some i) (read_path vfs path) >>= change) st d h in
      let (bytes, found, rest') =
        bind_ok outside vfs (method outside vfs (some i) (read_path vfs path)) change st d rest in
      let st' = (method outside vfs (some i) (read_path vfs path) st).1 in
      let (text, changed, rest'') =
        bind_ok outside vfs (lift (replaced_text outside vfs i path find replace count bytes)) put
          st' d rest' in
      last_ok (method outside vfs (some i) (write vfs path text)) end st' d rest''
  stage_op-report i (mkdir_op path) st d h =
      last_ok (method outside vfs (some i) (make_dir_all vfs path))
        (record { op = made_dir; path = path; to = none }) st d h
  stage_op-report i (rename_op from to) st d h =
      last_ok (method outside vfs (some i) (rename_path vfs from to))
        (record { op = renamed; path = from; to = some to }) st d h
  stage_op-report i (remove_op path) st d h =
      last_ok (method outside vfs (some i) (remove vfs path))
        (record { op = removed; path = path; to = none }) st d h
  stage_op-report i (remove_all_op path) st d h =
      last_ok (method outside vfs (some i) (remove_tree vfs path))
        (record { op = removed_all; path = path; to = none }) st d h

  pub stage_ops-report :
      (i : ℕ) (ops : List Op) (st : St outside vfs) (done : List Done)
      → (stage_ops outside vfs i ops st).0 ≡ ok done
      → map report ops ≡ done
  unfolding stage_ops
  stage_ops-report i [] st done h = ok-injective h
  stage_ops-report i (op ∷ ops) st done h =
      let later = λ (d : Done). stage_ops outside vfs (i + 1) ops >>= λ rest. pure (d ∷ rest) in
      let (d, one, rest) = bind_ok outside vfs (stage_op outside vfs i op) later st done h in
      let st' = (stage_op outside vfs i op st).1 in
      let (ds, all, last) =
        bind_ok outside vfs (stage_ops outside vfs (i + 1) ops) (λ rest. pure (d ∷ rest)) st' done
          rest in
      ap (λ e. e ∷ map report ops) (stage_op-report i op st d one)
      ∙ ap (λ es. d ∷ es) (stage_ops-report (i + 1) ops st' ds all)
      ∙ ok-injective last
