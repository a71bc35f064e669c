-- ===== src/Path/Tests.antt =====
-- Runs of the path functions on concrete paths (src/path.rs).
use fstx.Base.{
  ℕ, List, [], ◌∷◌, true, false, ◌≡◌, refl, ok, some, ◌↔◌, contains, All, arith, list_eq, nat_eq,
}
use fstx.Path.{
  RelPath, proper_prefixes, is_ancestor_of, is_root, is_private, to_path_buf, component_ok,
}
use fstx.Path.Ancestors.{proper_prefixes_iff}
use fstx.Path.Validate.{validate_user_path}
use fstx.Path.Validate.Safe.{AllOk, validate_user_path-AllOk}
use fstx.Path.Validate.RoundTrip.{validate_user_path-to_path_buf}
use fstx.Path.Hex.{serialize, deserialize}
use fstx.Path.Hex.RoundTrip.{IsByte, deserialize-serialize, deserialize-component_ok}

-- `a/b`
abbrev a_b : RelPath
a_b = (b'a' ∷ []) ∷ (b'b' ∷ []) ∷ []

-- `a/./b/`
abbrev written : List ℕ
written = b'a' ∷ b'/' ∷ b'.' ∷ b'/' ∷ b'b' ∷ b'/' ∷ []

dots_are_dropped : validate_user_path written ≡ ok a_b
unfolding validate_user_path native.Mathlib.Decide.ℕ_discrete list_eq
dots_are_dropped = refl

validate_user_path-AllOk_example : AllOk a_b × (is_root a_b ≡ false) × (is_private a_b ≡ false)
validate_user_path-AllOk_example = validate_user_path-AllOk written a_b dots_are_dropped

a_b-AllOk : AllOk a_b
unfolding component_ok list_eq
a_b-AllOk = (refl, (refl, tt))

outside : is_private a_b ≡ false
unfolding is_private list_eq
outside = refl

not_root : is_root a_b ≡ false
unfolding is_root
not_root = refl

validate_user_path-to_path_buf_example : validate_user_path (to_path_buf a_b) ≡ ok a_b
validate_user_path-to_path_buf_example =
    validate_user_path-to_path_buf a_b a_b-AllOk not_root outside

proper_prefixes_iff_example :
    (contains (proper_prefixes a_b) ((b'a' ∷ []) ∷ []) ≡ true)
    ↔ ((is_ancestor_of ((b'a' ∷ []) ∷ []) a_b ≡ true) × (is_root ((b'a' ∷ []) ∷ []) ≡ false))
proper_prefixes_iff_example = proper_prefixes_iff a_b ((b'a' ∷ []) ∷ [])

a_b-Bytes : All (λ c. All IsByte c × (component_ok c ≡ true)) a_b
unfolding component_ok list_eq
a_b-Bytes = (((ground arith, tt), refl), (((ground arith, tt), refl), tt))

deserialize-serialize_example : deserialize (serialize a_b) ≡ some a_b
deserialize-serialize_example = deserialize-serialize a_b a_b-Bytes

-- `61`, `62`
abbrev hex_a_b : List (List ℕ)
hex_a_b = (b'6' ∷ b'1' ∷ []) ∷ (b'6' ∷ b'2' ∷ []) ∷ []

reads_hex : deserialize hex_a_b ≡ some a_b
unfolding deserialize native.Mathlib.Decide.ℕ_discrete list_eq
reads_hex = refl

-- `+a` is read as one byte.
signed_pair : deserialize ((b'+' ∷ b'a' ∷ []) ∷ []) ≡ some ((10 ∷ []) ∷ [])
unfolding deserialize native.Mathlib.Decide.ℕ_discrete list_eq
signed_pair = refl

deserialize-component_ok_example : All (λ c. component_ok c ≡ true) a_b
deserialize-component_ok_example = deserialize-component_ok hex_a_b a_b reads_hex
