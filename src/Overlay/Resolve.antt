-- ===== src/Overlay/Resolve.antt =====
-- How the resolution of a path runs through its components (src/overlay.rs).
use fstx.Base.{
  [], ◌∷◌, ◌++◌, Option, none, some, true, nat_eq, list_eq, ◌≡◌, refl, sym, ap, ◌∙◌, arith, Result,
  ok, err, ◌>>=◌, list_ord, nat_ord,
}
use mathlib.Core.List.{append_assoc, append-nil}
use fstx.Path.{Name, RelPath, join}
use fstx.Error.{Error}
use fstx.Vfs.{Vfs}
use fstx.Overlay.{Overlay, Entry, is_dir, resolve_name, resolve_from}

module _ (vfs : Vfs) (s : vfs.State) (ov : Overlay) where
  -- What follows the resolution of one name.
  abbrev go_on : RelPath → RelPath → Option Entry → Result Error (Option Entry)
  go_on view cs none = ok none
  go_on view cs (some e) = resolve_from vfs s ov e view cs

  go_on_inv :
      (view cs : RelPath) (r : Result Error (Option Entry)) (d : Entry)
      → (r >>= go_on view cs) ≡ ok (some d)
      → (e : Entry) × (r ≡ ok (some e)) × (resolve_from vfs s ov e view cs ≡ ok (some d))
  go_on_inv view cs (ok (some e)) d h = (e, refl, h)
  go_on_inv view cs (ok none) d h = cc
  go_on_inv view cs (err e) d h = cc

  go_on_same :
      (view cs : RelPath) (r : Result Error (Option Entry))
      → (r >>= λ found. elim found [ none ↦ ok none | some e ↦ resolve_from vfs s ov e view cs ])
        ≡ (r >>= go_on view cs)
  go_on_same view cs (ok none) = refl
  go_on_same view cs (ok (some e)) = refl
  go_on_same view cs (err e) = refl

  resolve_from_step :
      (cur : Entry) (view : RelPath) (c : Name) (cs : RelPath)
      → resolve_from vfs s ov cur view (c ∷ cs)
        ≡ (resolve_name vfs s ov cur view c >>= go_on (join view c) cs)
  resolve_from_step cur view c cs =
      unfold resolve_from in (go_on_same (join view c) cs (resolve_name vfs s ov cur view c))

  pub resolve_from_inv :
      (cur : Entry) (view : RelPath) (c : Name) (cs : RelPath) (d : Entry)
      → resolve_from vfs s ov cur view (c ∷ cs) ≡ ok (some d)
      → (e : Entry) × (resolve_name vfs s ov cur view c ≡ ok (some e))
        × (resolve_from vfs s ov e (join view c) cs ≡ ok (some d))
  resolve_from_inv cur view c cs d h =
      go_on_inv (join view c) cs (resolve_name vfs s ov cur view c) d
        (sym (resolve_from_step cur view c cs) ∙ h)

  pub resolve_from_of :
      (cur : Entry) (view : RelPath) (c : Name) (cs : RelPath) (e : Entry)
      → resolve_name vfs s ov cur view c ≡ ok (some e)
      → resolve_from vfs s ov cur view (c ∷ cs) ≡ resolve_from vfs s ov e (join view c) cs
  resolve_from_of cur view c cs e h =
      resolve_from_step cur view c cs ∙ ap (λ r. r >>= go_on (join view c) cs) h

  go_on_end : (view : RelPath) (r : Result Error (Option Entry)) → (r >>= go_on view []) ≡ r
  unfolding resolve_from
  go_on_end view (ok none) = refl
  go_on_end view (ok (some e)) = refl
  go_on_end view (err e) = refl

  resolve_from_last :
      (cur : Entry) (view : RelPath) (c : Name)
      → resolve_from vfs s ov cur view (c ∷ []) ≡ resolve_name vfs s ov cur view c
  resolve_from_last cur view c =
      resolve_from_step cur view c [] ∙ go_on_end (join view c) (resolve_name vfs s ov cur view c)

  -- The last component of a path is resolved in the entry of the rest.
  pub resolve_from-append :
      (q : RelPath) (cur : Entry) (view : RelPath) (c : Name) (d : Entry)
      → resolve_from vfs s ov cur view q ≡ ok (some d)
      → resolve_from vfs s ov cur view (q ++ (c ∷ [])) ≡ resolve_name vfs s ov d (view ++ q) c
  resolve_from-append [] cur view c d h =
      let same : cur ≡ d = unfold resolve_from in (ground arith) in
      rw (append-nil view, ← same) (resolve_from_last cur view c)
  resolve_from-append (b ∷ q) cur view c d h =
      let (e, here, rest) = resolve_from_inv cur view b q d h in
      resolve_from_of cur view b (q ++ (c ∷ [])) e here
      ∙ (resolve_from-append q e (join view b) c d rest
          ∙ ap (λ v. resolve_name vfs s ov d v c) (unfold join in append_assoc view (b ∷ []) q))

  -- What is under an entry that is found is under a directory.
  pub is_dir_of_resolve_name :
      (cur : Entry) (view : RelPath) (c : Name) (e : Entry)
      → resolve_name vfs s ov cur view c ≡ ok (some e)
      → is_dir cur.kind ≡ true
  unfolding resolve_name
  is_dir_of_resolve_name cur view c e h = ground arith

  pub is_dir_of_resolve :
      (q : RelPath) (cur : Entry) (view : RelPath) (d : Entry)
      → resolve_from vfs s ov cur view q ≡ ok (some d)
      → is_dir d.kind ≡ true
      → is_dir cur.kind ≡ true
  is_dir_of_resolve [] cur view d h k = unfold resolve_from in (ground arith)
  is_dir_of_resolve (c ∷ q) cur view d h k =
      let (e, here, _) = resolve_from_inv cur view c q d h in
      is_dir_of_resolve_name cur view c e here
