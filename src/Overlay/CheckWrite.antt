-- ===== src/Overlay/CheckWrite.antt =====
-- What `check_write` has seen where it accepts a path (src/overlay.rs).
use fstx.Base.{
  ℕ, Option, none, some, true, false, nat_eq, list_eq, if◌then◌else◌, ◌≡◌, refl, sym, ◌∙◌, arith,
  Result, ok, err, ◌>>=◌, >>=-eq-ok, ◌>>◌, list_ord, nat_ord,
}
use fstx.Path.{RelPath, parent_or_root}
use fstx.Error.{Error}
use fstx.Vfs.{Vfs}
use fstx.Overlay.{
  Overlay, Entry, Src, EKind, plain, directory, special, is_dir, resolve, check_write,
  require_parent_dir, check_overwrite, check_new_name,
}

-- Nothing, or what is no directory.
abbrev pub IsFlat : Option Entry → Type 0
IsFlat none = Unit
IsFlat (some e) = is_dir e.kind ≡ false

module _ (vfs : Vfs) (s : vfs.State) (ov : Overlay) (p : RelPath) where
  pub require_parent_dir_inv :
      (d : Entry)
      → require_parent_dir vfs s ov p ≡ ok d
      → (resolve vfs s ov (parent_or_root p) ≡ ok (some d)) × (is_dir d.kind ≡ true)
  unfolding require_parent_dir
  require_parent_dir_inv d h = go (resolve vfs s ov (parent_or_root p)) h
    where
      go :
          (r : Result Error (Option Entry))
          → (r >>= λ found. elim found [
            | some e ↦
                if is_dir e.kind then ok e else err (Error.not_a_directory (parent_or_root p))
            | none ↦ err (Error.not_found (parent_or_root p))
          ])
            ≡ ok d
          → (r ≡ ok (some d)) × (is_dir d.kind ≡ true)
      go (ok (some e)) h = (ground arith, ground arith)
      go (ok none) h = cc
      go (err x) h = cc

  check_overwrite_inv :
      (k : EKind) (src : Src) (inherited : Option ℕ)
      → check_overwrite p k src ≡ ok inherited
      → is_dir k ≡ false
  unfolding check_overwrite
  check_overwrite_inv plain src inherited h = refl
  check_overwrite_inv special src inherited h = refl
  check_overwrite_inv directory src inherited h = cc

  -- The last part of `check_write`.
  abbrev after_resolve : Entry → Option Entry → Result Error (Option ℕ)
  after_resolve d none = check_new_name vfs s ov p d >> ok none
  after_resolve d (some e) = check_overwrite p e.kind e.source

  after_resolve_inv :
      (d : Entry) (r : Result Error (Option Entry)) (inherited : Option ℕ)
      → (r >>= after_resolve d) ≡ ok inherited
      → (found : Option Entry) × (r ≡ ok found) × IsFlat found
  after_resolve_inv d (ok none) inherited h = (none, refl, tt)
  after_resolve_inv d (ok (some e)) inherited h =
      (some e, refl, check_overwrite_inv e.kind e.source inherited h)
  after_resolve_inv d (err x) inherited h = cc

  after_resolve_same :
      (d : Entry) (r : Result Error (Option Entry))
      → (r >>= λ found. elim found [
        | none ↦ check_new_name vfs s ov p d >>= λ _. ok none
        | some e ↦ check_overwrite p e.kind e.source
      ])
        ≡ (r >>= after_resolve d)
  after_resolve_same d (ok none) = refl
  after_resolve_same d (ok (some e)) = refl
  after_resolve_same d (err x) = refl

  pub check_write_inv :
      (inherited : Option ℕ)
      → check_write vfs s ov p ≡ ok inherited
      → (d : Entry) × (found : Option Entry) × (require_parent_dir vfs s ov p ≡ ok d)
        × (resolve vfs s ov p ≡ ok found)
        × IsFlat found
  unfolding check_write
  check_write_inv inherited h =
      let (d, e, h1) = >>=-eq-ok (require_parent_dir vfs s ov p) _ h in
      let h2 = sym (after_resolve_same d (resolve vfs s ov p)) ∙ h1 in
      let (found, e', flat) = after_resolve_inv d (resolve vfs s ov p) inherited h2 in
      (d, found, e, e', flat)
