-- ===== src/Path/Validate/RoundTrip.antt =====
-- Every safe path outside the private area is accepted as it is (src/path.rs).
use fstx.Base.{ℕ, List, [], ◌∷◌, ◌++◌, map, false, nat_eq, list_eq, contains, ◌≡◌, refl, arith, ok}
use mathlib.Core.List.{append_assoc, append-nil}
use fstx.Path.Validate.Safe.{AllOk}
use fstx.Path.{Name, RelPath, is_private, is_root, component_ok, to_path_buf}
use fstx.Path.Validate.{
  normal, add_to_first, split, body_components, lead, components, validate_components,
  validate_parts, validate_user_path,
}

split-append_slash :
    (c : Name) (rest : List ℕ)
    → contains c b'/' ≡ false
    → split (c ++ (b'/' ∷ rest)) ≡ c ∷ split rest
unfolding split add_to_first
split-append_slash [] rest h = ground arith
split-append_slash (x ∷ c) rest h = ground (arith, split-append_slash c rest)

split_of_no_slash : (c : Name) → contains c b'/' ≡ false → split c ≡ c ∷ []
unfolding split add_to_first
split_of_no_slash [] h = refl
split_of_no_slash (x ∷ c) h = ground (arith, split_of_no_slash c)

split-to_path_buf :
    (c : Name) (cs : RelPath) → AllOk (c ∷ cs) → split (to_path_buf (c ∷ cs)) ≡ c ∷ cs
unfolding to_path_buf component_ok
split-to_path_buf c [] h = ground (arith, split_of_no_slash c)
split-to_path_buf c (d ∷ cs) h =
    ground (arith, split-append_slash c (to_path_buf (d ∷ cs)), split-to_path_buf d cs h.1)

body_components_of_ok : (cs : RelPath) → AllOk cs → body_components cs ≡ map normal cs
unfolding body_components component_ok
body_components_of_ok [] h = refl
body_components_of_ok (c ∷ cs) h = ground (arith, body_components_of_ok cs h.1)

validate_components-map_normal :
    (p : List ℕ) (cs parts : RelPath)
    → AllOk cs
    → validate_components p (map normal cs) parts ≡ ok (parts ++ cs)
unfolding validate_components component_ok
validate_components-map_normal p [] parts h = rw append-nil
validate_components-map_normal p (c ∷ cs) parts h = ground (
  arith,
  validate_components-map_normal p cs (parts ++ (c ∷ [])) h.1,
  append_assoc parts (c ∷ []) cs,
)

lead_of_ok : (c : Name) (cs : RelPath) → AllOk (c ∷ cs) → lead (to_path_buf (c ∷ cs)) (c ∷ cs) ≡ []
unfolding lead to_path_buf component_ok
lead_of_ok [] [] h = refl
lead_of_ok [] (d ∷ cs) h = absurd (ground arith)
lead_of_ok (x ∷ c) [] h = ground arith
lead_of_ok (x ∷ c) (d ∷ cs) h = ground arith

components-to_path_buf :
    (c : Name) (cs : RelPath)
    → AllOk (c ∷ cs)
    → components (to_path_buf (c ∷ cs)) ≡ map normal (c ∷ cs)
unfolding components
components-to_path_buf c cs h =
    rw (split-to_path_buf c cs h, lead_of_ok c cs h) (body_components_of_ok (c ∷ cs) h)

-- A path of safe components that is not the root and not private is accepted unchanged.
pub validate_user_path-to_path_buf :
    (r : RelPath)
    → AllOk r
    → is_root r ≡ false
    → is_private r ≡ false
    → validate_user_path (to_path_buf r) ≡ ok r
unfolding validate_user_path validate_parts is_root
validate_user_path-to_path_buf [] h n v = cc
validate_user_path-to_path_buf (c ∷ cs) h n v =
    rw (components-to_path_buf c cs h, validate_components-map_normal _ (c ∷ cs) [] h)
      (ground arith)
