-- ===== src/Path/Validate/Safe.antt =====
-- What `validate_user_path` accepts (src/path.rs).
use fstx.Base.{
  All-append, ok-injective, >>=-eq-ok, ℕ, List, [], ◌∷◌, ◌++◌, true, false, ◌==◌, nat_eq, list_eq,
  contains, ◌≡◌, refl, ◌≢◌, inl, inr, arith, Bool-cases, ok, All,
}
use fstx.Path.{Name, RelPath, is_private, is_root, component_ok}
use fstx.Path.Validate.{
  Component, root_dir, cur_dir, parent_dir, normal, add_to_first, split, body_components, lead,
  components, validate_components, validate_parts, validate_user_path,
}

abbrev HasNoSlash : Name → Type 0
HasNoSlash x = contains x b'/' ≡ false

add_to_first-HasNoSlash :
    (c : ℕ) (xs : List Name) → c ≢ b'/' → All HasNoSlash xs → All HasNoSlash (add_to_first c xs)
unfolding add_to_first
add_to_first-HasNoSlash c [] h a = ground arith
add_to_first-HasNoSlash c (x ∷ xs) h a = ground arith

split-HasNoSlash : (p : List ℕ) → All HasNoSlash (split p)
unfolding split
split-HasNoSlash [] = (refl, tt)
split-HasNoSlash (c ∷ cs) = elim (Bool-cases (c == b'/')) [
  | inl e ↦ rw e (refl, split-HasNoSlash cs)
  | inr e ↦ rw e (add_to_first-HasNoSlash c (split cs) (ground arith) (split-HasNoSlash cs))
]

-- A normal component is safe but for a NUL byte.
abbrev IsClean : Component → Type 0
IsClean (normal s) = contains s 0 ≡ false → component_ok s ≡ true
IsClean _ = Unit

body_components-IsClean : (xs : List Name) → All HasNoSlash xs → All IsClean (body_components xs)
unfolding body_components component_ok
body_components-IsClean [] h = tt
body_components-IsClean (x ∷ xs) h = ground (arith, body_components-IsClean xs h.1)

lead-IsClean : (p : List ℕ) (xs : List Name) → All IsClean (lead p xs)
unfolding lead
lead-IsClean [] xs = tt
lead-IsClean (c ∷ cs) [] = tt
lead-IsClean (c ∷ cs) (x ∷ xs) = ground arith

components-IsClean : (p : List ℕ) → All IsClean (components p)
unfolding components
components-IsClean p =
    All-append IsClean (lead p (split p)) _ (lead-IsClean p (split p))
      (body_components-IsClean (split p) (split-HasNoSlash p))

abbrev pub AllOk : RelPath → Type 0
AllOk = All (λ c. component_ok c ≡ true)

validate_components-AllOk :
    (p : List ℕ) (cs : List Component) (parts r : RelPath)
    → All IsClean cs
    → AllOk parts
    → validate_components p cs parts ≡ ok r
    → AllOk r
unfolding validate_components
validate_components-AllOk p [] parts r h a e = rw (← ok-injective e) a
validate_components-AllOk p (normal s ∷ cs) parts r h a e = elim (Bool-cases (contains s 0)) [
  | inl nul ↦ ground arith
  | inr clean ↦
      validate_components-AllOk p cs (parts ++ (s ∷ [])) r h.1
        (All-append (λ c. component_ok c ≡ true) parts (s ∷ []) a (h.0 clean, tt)) (rw clean at e)
]
validate_components-AllOk p (cur_dir ∷ cs) parts r h a e =
    validate_components-AllOk p cs parts r h.1 a e
validate_components-AllOk p (parent_dir ∷ cs) parts r h a e = cc
validate_components-AllOk p (root_dir ∷ cs) parts r h a e = cc

-- An accepted path has only safe components, is not the root, and lies outside the private area.
pub validate_user_path-AllOk :
    (p : List ℕ) (r : RelPath)
    → validate_user_path p ≡ ok r
    → AllOk r × (is_root r ≡ false) × (is_private r ≡ false)
unfolding validate_user_path validate_parts is_root
validate_user_path-AllOk p r h =
    let (parts, e, rest) =
      >>=-eq-ok (validate_components p (components p) []) (validate_parts p) h in
    let a = validate_components-AllOk p (components p) [] parts (components-IsClean p) tt e in
    ground arith
