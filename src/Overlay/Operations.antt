-- ===== src/Overlay/Operations.antt =====
-- The operations of a transaction on the view, in any order (src/overlay.rs, src/transaction.rs).
use fstx.Base.{
  ℕ, ◌+◌, List, [], ◌∷◌, ◌++◌, Option, none, some, Bool, true, false, ◌==◌, nat_eq, list_eq,
  if◌then◌else◌, ok, list_ord, nat_ord,
}
use fstx.Base.Action.{◌>>=◌, ◌>>◌, pure, fail, reads, lift}
use fstx.Path.{RelPath, proper_prefixes}
use fstx.Error.{Error}
use fstx.Vfs.{Vfs}
use fstx.Overlay.{
  Overlay, Entry, present, blob, new_dir, plain, directory, is_dir, resolve, require_parent_dir,
  check_new_name, check_write,
}
use fstx.Overlay.Edit.{
  Edit, place, detach, move_entry, remove_entry, apply_write, create_dir_all, create_dir, add_dir,
  rename, remove_path, remove_dir_all, is_special, resolve_present, check_target, check_removable,
  check_removable_dir, is_empty_dir,
}
use fstx.Overlay.ReadYourWrites.{written}
use fstx.Overlay.Sound.{
  IsSound, IsSound-place, IsSound-detach, IsSound-remove_entry, IsSound-move_entry, IsGone-blob,
  IsGone-new_dir, Keeps, Keeps-bind, Keeps-for_each,
}

-- A method of the transaction with its arguments; a write comes with its staged file's number.
pub data Operation : Type 0 where
  write : RelPath → ℕ → Option ℕ → Operation
  make_dirs : RelPath → Operation
  move : RelPath → RelPath → Operation
  delete : RelPath → Operation
  delete_all : RelPath → Operation

module _ (vfs : Vfs) (s : vfs.State) where
  unfoldable pub run : Operation → Edit (Unit {0})
  run (write p n mode) = reads (λ ov. check_write vfs s ov p) >> apply_write vfs s p n mode
  run (make_dirs p) = create_dir_all vfs s p
  run (move from to) = rename vfs s from to
  run (delete p) = remove_path vfs s p
  run (delete_all p) = remove_dir_all vfs s p

  -- The user may go on after an error.
  unfoldable pub run_all : List Operation → Overlay → Overlay
  unfolding run
  run_all [] ov = ov
  run_all (op ∷ ops) ov = run_all ops (run op ov).1

  abbrev found_at : RelPath → Edit (Option Entry)
  found_at p = reads (λ ov. resolve vfs s ov p)

  -- The chains' continuations, in the code's order.
  abbrev put_blob : RelPath → ℕ → Option ℕ → Option Entry → Edit (Unit {0})
  put_blob p n mode found ov = (
    ok tt,
    place p (present (record { kind = plain; source = blob n mode }))
        (elim found [ none ↦ ov | some e ↦ detach e ov ]),
  )

  Keeps-put_blob :
      (p : RelPath) (n : ℕ) (mode : Option ℕ) (found : Option Entry)
      → Keeps (put_blob p n mode found)
  Keeps-put_blob p n mode none ov sound =
      IsSound-place p (present (written n mode)) ov (IsGone-blob n mode ov.detached) sound
  Keeps-put_blob p n mode (some e) ov sound =
      IsSound-place p (present (written n mode)) (detach e ov)
        (IsGone-blob n mode (detach e ov).detached) (IsSound-detach e ov sound)

  Keeps-apply_write : (p : RelPath) (n : ℕ) (mode : Option ℕ) → Keeps (apply_write vfs s p n mode)
  Keeps-apply_write p n mode =
      unfold apply_write in
      (Keeps-bind (found_at p) (put_blob p n mode) (λ ov sound. sound) (Keeps-put_blob p n mode))

  abbrev need : RelPath → Option Entry → Edit Entry
  need p found = elim found [ none ↦ fail (Error.not_found p) | some e ↦ pure e ]

  Keeps-need : (p : RelPath) (found : Option Entry) → Keeps (need p found)
  Keeps-need p none ov sound = sound
  Keeps-need p (some e) ov sound = sound

  Keeps-resolve_present : (p : RelPath) → Keeps (resolve_present vfs s p)
  Keeps-resolve_present p =
      unfold resolve_present in
      (Keeps-bind (found_at p) (need p) (λ ov sound. sound) (Keeps-need p))

  abbrev take_out : RelPath → Entry → Unit {0} → Edit (Unit {0})
  take_out p e _ ov = (ok tt, remove_entry p e ov)

  abbrev check_and_remove : RelPath → Entry → Bool → Edit (Unit {0})
  check_and_remove p e empty = lift (check_removable p e.kind empty) >>= take_out p e

  abbrev list_and_remove : RelPath → Entry → Edit (Unit {0})
  list_and_remove p e = reads (is_empty_dir vfs s p e) >>= check_and_remove p e

  Keeps-list_and_remove : (p : RelPath) (e : Entry) → Keeps (list_and_remove p e)
  Keeps-list_and_remove p e =
      Keeps-bind (reads (is_empty_dir vfs s p e)) (check_and_remove p e) (λ ov sound. sound)
        (λ empty.
          Keeps-bind (lift (check_removable p e.kind empty)) (take_out p e) (λ ov sound. sound)
            (λ _ ov sound. IsSound-remove_entry p e ov sound))

  Keeps-remove_path : (p : RelPath) → Keeps (remove_path vfs s p)
  Keeps-remove_path p =
      unfold remove_path in
      (Keeps-bind (resolve_present vfs s p) (list_and_remove p) (Keeps-resolve_present p)
        (Keeps-list_and_remove p))

  abbrev check_and_remove_dir : RelPath → Entry → Edit (Unit {0})
  check_and_remove_dir p e = lift (check_removable_dir p e.kind) >>= take_out p e

  Keeps-remove_dir_all : (p : RelPath) → Keeps (remove_dir_all vfs s p)
  Keeps-remove_dir_all p =
      unfold remove_dir_all in
      (Keeps-bind (resolve_present vfs s p) (check_and_remove_dir p) (Keeps-resolve_present p) (λ e.
        Keeps-bind (lift (check_removable_dir p e.kind)) (take_out p e) (λ ov sound. sound)
          (λ _ ov sound. IsSound-remove_entry p e ov sound)))

  abbrev carry : RelPath → RelPath → Entry → Unit {0} → Edit (Unit {0})
  carry from to e _ ov = (ok tt, move_entry from to e ov)

  abbrev check_and_move : RelPath → RelPath → Entry → Edit (Unit {0})
  check_and_move from to e =
      if is_special e.kind
      then fail (Error.unsupported_file_type from)
      else if from == to
      then pure tt
      else reads (check_target vfs s from to) >> (λ ov. (ok tt, move_entry from to e ov))

  Keeps-carry :
      (from to : RelPath) (e : Entry)
      → Keeps (reads (check_target vfs s from to) >>= carry from to e)
  Keeps-carry from to e =
      Keeps-bind (reads (check_target vfs s from to)) (carry from to e) (λ ov sound. sound)
        (λ _ ov sound. IsSound-move_entry from to e ov sound)

  Keeps-if : {A : Type 0} (c : Bool) (m k : Edit A) → Keeps m → Keeps k → Keeps (if c then m else k)
  Keeps-if true m k h h' = h
  Keeps-if false m k h h' = h'

  Keeps-rename : (from to : RelPath) → Keeps (rename vfs s from to)
  Keeps-rename from to =
      unfold rename in
      (Keeps-bind (resolve_present vfs s from) (check_and_move from to) (Keeps-resolve_present from)
        (λ e.
          Keeps-if (is_special e.kind) (fail (Error.unsupported_file_type from))
            (if from == to then pure tt else reads (check_target vfs s from to) >>= carry from to e)
            (λ ov sound. sound)
            (Keeps-if (from == to) (pure tt)
              (reads (check_target vfs s from to) >>= carry from to e) (λ ov sound. sound)
              (Keeps-carry from to e))))

  abbrev put_dir : RelPath → Unit {0} → Edit (Unit {0})
  put_dir q _ ov = (
    ok tt,
    place q (present (record { kind = directory; source = new_dir ov.next_dir }))
        (record ov { next_dir = ov.next_dir + 1 }),
  )

  abbrev check_and_put : RelPath → Entry → Edit (Unit {0})
  check_and_put q parent = reads (λ ov. check_new_name vfs s ov q parent) >>= put_dir q

  Keeps-add_dir : (q : RelPath) → Keeps (add_dir vfs s q)
  Keeps-add_dir q =
      unfold add_dir in
      (Keeps-bind (reads (λ ov. require_parent_dir vfs s ov q)) (check_and_put q)
        (λ ov sound. sound)
        (λ parent.
          Keeps-bind (reads (λ ov. check_new_name vfs s ov q parent)) (put_dir q)
            (λ ov sound. sound)
            (λ _ ov sound.
              IsSound-place q (present (record { kind = directory; source = new_dir ov.next_dir }))
                (record ov { next_dir = ov.next_dir + 1 }) (IsGone-new_dir ov.next_dir ov.detached)
                sound)))

  abbrev make_missing : RelPath → Option Entry → Edit (Unit {0})
  make_missing q found = elim found [
    | some e ↦ if is_dir e.kind then pure tt else fail (Error.not_a_directory q)
    | none ↦ add_dir vfs s q
  ]

  Keeps-make_missing : (q : RelPath) (found : Option Entry) → Keeps (make_missing q found)
  Keeps-make_missing q none = Keeps-add_dir q
  Keeps-make_missing q (some e) =
      Keeps-if (is_dir e.kind) (pure tt) (fail (Error.not_a_directory q)) (λ ov sound. sound)
        (λ ov sound. sound)

  Keeps-create_dir : (q : RelPath) → Keeps (create_dir vfs s q)
  Keeps-create_dir q =
      unfold create_dir in
      (Keeps-bind (found_at q) (make_missing q) (λ ov sound. sound) (Keeps-make_missing q))

  Keeps-create_dir_all : (p : RelPath) → Keeps (create_dir_all vfs s p)
  Keeps-create_dir_all p =
      unfold create_dir_all in
      (Keeps-for_each (proper_prefixes p ++ (p ∷ [])) (create_dir vfs s) Keeps-create_dir)

  Keeps-run : (op : Operation) → Keeps (run op)
  unfolding run
  Keeps-run (write p n mode) =
      Keeps-bind (reads (λ ov. check_write vfs s ov p)) (λ _. apply_write vfs s p n mode)
        (λ ov sound. sound) (λ _. Keeps-apply_write p n mode)
  Keeps-run (make_dirs p) = Keeps-create_dir_all p
  Keeps-run (move from to) = Keeps-rename from to
  Keeps-run (delete p) = Keeps-remove_path p
  Keeps-run (delete_all p) = Keeps-remove_dir_all p

  pub IsSound-run_all :
      (ops : List Operation) (ov : Overlay) → IsSound ov → IsSound (run_all ops ov)
  unfolding run_all
  IsSound-run_all [] ov sound = sound
  IsSound-run_all (op ∷ ops) ov sound = IsSound-run_all ops (run op ov).1 (Keeps-run op ov sound)
