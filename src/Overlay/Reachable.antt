-- ===== src/Overlay/Reachable.antt =====
-- What holds of every view that the operations of a transaction can reach (src/overlay.rs).
use fstx.Base.{
  ℕ, List, [], ◌∷◌, ◌++◌, Option, some, Bool, nat_eq, list_eq, ◌≡◌, refl, ap, ◌∙◌, Result, ok, err,
  list_ord, nat_ord,
}
use fstx.Base.Action.{◌>>◌, reads}
use fstx.Base.Map.{get}
use fstx.Path.{RelPath}
use fstx.Error.{Error}
use fstx.Vfs.{Vfs, FileId}
use fstx.Overlay.{Overlay, present, new, from_io, resolve, check_write}
use fstx.Overlay.Edit.{Edit, apply_write, read}
use fstx.Overlay.Above.{IsDetached}
use fstx.Overlay.ReadYourWrites.{written, apply_write-resolve}
use fstx.Overlay.Sound.{IsSound}
use fstx.Overlay.Operations.{Operation, write, run, run_all, IsSound-run_all}

module _ (vfs : Vfs) (s : vfs.State) where
  IsSound-new : (root_id : FileId) (folds : Bool) → IsSound (new root_id folds)
  IsSound-new root_id folds k slot at = unfold new get in cc

  -- Over one state of the filesystem, after any operations on a new view, failed ones included, each
  -- base entry that stands at a place of its own in the view is detached from its base path.
  pub run_all-IsDetached :
      (ops : List Operation) (root_id : FileId) (folds : Bool)
      → IsDetached (run_all vfs s ops (new root_id folds))
  run_all-IsDetached ops root_id folds k e o id mode at src =
      IsSound-run_all vfs s ops (new root_id folds) (IsSound-new root_id folds) k (present e) at e o
        id mode refl src

  run_all-append :
      (ops : List Operation) (op : Operation) (ov : Overlay)
      → run_all vfs s (ops ++ (op ∷ [])) ov ≡ (run vfs s op (run_all vfs s ops ov)).1
  unfolding run_all
  run_all-append [] op ov = refl
  run_all-append (x ∷ ops) op ov = run_all-append ops op (run vfs s x ov).1

  checked_write :
      (r : Result Error (Option ℕ)) (m : Edit (Unit {0})) (ov : Overlay) (inherited : Option ℕ)
      → r ≡ ok inherited
      → (reads (λ _. r) >> m) ov ≡ m ov
  checked_write (ok a) m ov inherited h = refl
  checked_write (err e) m ov inherited h = cc

  run-write :
      (p : RelPath) (n : ℕ) (mode inherited : Option ℕ) (ov : Overlay)
      → check_write vfs s ov p ≡ ok inherited
      → run vfs s (write p n mode) ov ≡ apply_write vfs s p n mode ov
  run-write p n mode inherited ov h =
      unfold run in
      (checked_write (check_write vfs s ov p) (apply_write vfs s p n mode) ov inherited h)

  -- Over one state of the filesystem, after any operations on a new view, failed ones included, a
  -- write that `check_write` accepts succeeds, the path resolves to the staged file right after it,
  -- and reading the path then gives what reading the staged file gives.
  pub read-write :
      (blob_path : ℕ → RelPath) (ops : List Operation) (root_id : FileId) (folds : Bool)
      (p : RelPath) (n : ℕ) (mode inherited : Option ℕ)
      → check_write vfs s (run_all vfs s ops (new root_id folds)) p ≡ ok inherited
      → ((run vfs s (write p n mode) (run_all vfs s ops (new root_id folds))).0 ≡ ok tt)
        × (resolve vfs s (run_all vfs s (ops ++ (write p n mode ∷ [])) (new root_id folds)) p
            ≡ ok (some (written n mode)))
        × (read vfs s blob_path p (run_all vfs s (ops ++ (write p n mode ∷ [])) (new root_id folds))
            ≡ from_io (vfs.read_file (blob_path n) s))
  read-write blob_path ops root_id folds p n mode inherited h =
      let ov = run_all vfs s ops (new root_id folds) in
      let ran = run-write p n mode inherited ov h in
      let last = run_all-append ops (write p n mode) (new root_id folds) ∙ ap (λ r. r.1) ran in
      let (done, there, back) =
        apply_write-resolve vfs s ov blob_path p n mode inherited
          (run_all-IsDetached ops root_id folds) h in
      (
        ap (λ r. r.0) ran ∙ done,
        ap (λ v. resolve vfs s v p) last ∙ there,
        ap (λ v. read vfs s blob_path p v) last ∙ back,
      )
