-- ===== src/Path.antt =====
-- Paths relative to the transaction root (src/path.rs). A component is the list of its bytes.
mod Tests
pub mod Ancestors
pub mod Validate
pub mod Hex
use fstx.Base.{
  ℕ, ◌-◌, ◌+◌, zero, suc, List, [], ◌∷◌, ◌++◌, map, Option, none, some, Bool, true, false, ◌&&◌,
  ◌||◌, not, ltb, leb, ◌==◌, nat_eq, list_eq, if◌then◌else◌, length, take, drop, is_empty, contains,
}

abbrev pub Name : Type 0
Name = List ℕ

abbrev pub RelPath : Type 0
RelPath = List Name

-- `.fstx`
abbrev pub private_dir_name : Name
private_dir_name = b'.' ∷ b'f' ∷ b's' ∷ b't' ∷ b'x' ∷ []

abbrev pub root : RelPath
root = []

unfoldable pub is_root : RelPath → Bool
is_root p = is_empty p

unfoldable pub depth : RelPath → ℕ
depth p = length p

unfoldable pub parent : RelPath → Option RelPath
parent p = if is_empty p then none else some (take (length p - 1) p)

-- `self.parent().unwrap_or_default()`
unfoldable pub parent_or_root : RelPath → RelPath
unfolding parent
parent_or_root p = elim (parent p) [ none ↦ root | some q ↦ q ]

-- `Vec::last`
unfoldable pub file_name : RelPath → Option Name
file_name [] = none
file_name (c ∷ []) = some c
file_name (c ∷ d ∷ cs) = file_name (d ∷ cs)

unfoldable pub join : RelPath → Name → RelPath
join p name = p ++ (name ∷ [])

unfoldable pub join_path : RelPath → RelPath → RelPath
join_path p rest = p ++ rest

-- The lengths are compared before the slice is taken.
unfoldable pub is_ancestor_of : RelPath → RelPath → Bool
is_ancestor_of p q = ltb (length p) (length q) && take (length p) q == p

unfoldable pub overlaps : RelPath → RelPath → Bool
unfolding is_ancestor_of
overlaps p q = p == q || is_ancestor_of p q || is_ancestor_of q p

unfoldable pub strip_prefix : RelPath → RelPath → Option RelPath
strip_prefix p prefix =
    if leb (length prefix) (length p) && take (length prefix) p == prefix
    then some (drop (length prefix) p)
    else none

-- `(from..from + count).map(|n| p[..n])`
unfoldable pub prefixes_from : ℕ → ℕ → RelPath → List RelPath
prefixes_from zero start p = []
prefixes_from (suc count) start p = take start p ∷ prefixes_from count (start + 1) p

unfoldable pub proper_prefixes : RelPath → List RelPath
unfolding prefixes_from
proper_prefixes p = prefixes_from (length p - 1) 1 p

unfoldable pub to_ascii_lowercase : Name → Name
to_ascii_lowercase = map λ c. if leb 65 c && leb c 90 then c + 32 else c

-- What equals `.fstx` up to ASCII case is ASCII, so the `to_str` before the test changes nothing.
unfoldable pub is_private : RelPath → Bool
unfolding to_ascii_lowercase
is_private [] = false
is_private (c ∷ cs) = to_ascii_lowercase c == to_ascii_lowercase private_dir_name

-- The components joined by `/`.
unfoldable pub to_path_buf : RelPath → List ℕ
to_path_buf [] = []
to_path_buf (c ∷ []) = c
to_path_buf (c ∷ d ∷ cs) = c ++ (b'/' ∷ to_path_buf (d ∷ cs))

abbrev pub dot : Name
dot = b'.' ∷ []

abbrev pub dot_dot : Name
dot_dot = b'.' ∷ b'.' ∷ []

unfoldable pub component_ok : Name → Bool
component_ok b =
    not (is_empty b)
    && not (b == dot)
    && not (b == dot_dot)
    && not (contains b 0)
    && not (contains b b'/')
