-- ===== src/Path/Validate.antt =====
-- `validate_user_path` and the part of `std::path::Path::components` that it reads (src/path.rs).
pub mod Safe
pub mod RoundTrip
use fstx.Base.{
  ℕ, List, [], ◌∷◌, ◌++◌, ◌||◌, ◌==◌, nat_eq, list_eq, if◌then◌else◌, contains, is_empty, Result,
  ok, err, ◌>>=◌,
}
use fstx.Path.{Name, RelPath, is_private, dot, dot_dot}
use fstx.Error.{Error, InvalidReason}

-- `std::path::Component` on Unix, where there are no prefixes.
pub data Component : Type 0 where
  root_dir cur_dir parent_dir : Component
  normal : Name → Component

add_to_first : ℕ → List Name → List Name
add_to_first c [] = (c ∷ []) ∷ []
add_to_first c (x ∷ xs) = (c ∷ x) ∷ xs

-- The pieces between slashes.
split : List ℕ → List Name
unfolding add_to_first
split [] = [] ∷ []
split (c ∷ cs) = let rest = split cs in if c == b'/' then [] ∷ rest else add_to_first c rest

-- Empty pieces and `.` are passed over.
body_components : List Name → List Component
body_components [] = []
body_components (x ∷ xs) =
    let rest = body_components xs in
    if x == [] || x == dot
    then rest
    else if x == dot_dot
    then parent_dir ∷ rest
    else normal x ∷ rest

-- A leading slash, or a leading `.`, is a component of its own.
lead : List ℕ → List Name → List Component
lead (c ∷ cs) (x ∷ xs) = if c == b'/' then root_dir ∷ [] else if x == dot then cur_dir ∷ [] else []
lead _ _ = []

unfoldable pub components : List ℕ → List Component
unfolding split body_components lead
components p = let pieces = split p in lead p pieces ++ body_components pieces

-- The loop over the components; `parts` holds what it has pushed.
unfoldable pub validate_components : List ℕ → List Component → RelPath → Result Error RelPath
validate_components p [] parts = ok parts
validate_components p (normal s ∷ cs) parts =
    let rest = validate_components p cs (parts ++ (s ∷ [])) in
    if contains s 0 then err (Error.invalid_path p InvalidReason.contains_nul) else rest
validate_components p (cur_dir ∷ cs) parts = validate_components p cs parts
validate_components p (parent_dir ∷ cs) parts =
    err (Error.invalid_path p InvalidReason.contains_parent_dir)
validate_components p (root_dir ∷ cs) parts =
    err (Error.invalid_path p InvalidReason.must_be_relative)

-- The tests after the loop.
unfoldable pub validate_parts : List ℕ → RelPath → Result Error RelPath
unfolding is_private
validate_parts p parts =
    if is_empty parts
    then err (Error.invalid_path p InvalidReason.empty_path)
    else if is_private parts
    then err (Error.invalid_path p InvalidReason.reserved)
    else ok parts

unfoldable pub validate_user_path : List ℕ → Result Error RelPath
unfolding components validate_components validate_parts
validate_user_path p = do parts ← validate_components p (components p) []; validate_parts p parts
