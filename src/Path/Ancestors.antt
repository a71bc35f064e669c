-- ===== src/Path/Ancestors.antt =====
-- Ancestor tests and prefixes of paths (src/path.rs).
use fstx.Base.{
  length-take_of_le, ℕ, zero, suc, ◌+◌, ◌≤◌, ◌<◌, [], ◌∷◌, ◌++◌, some, true, false, nat_eq, list_eq,
  length, take, contains, ◌≡◌, refl, ◌↔◌, arith,
}
use fstx.Path.{
  Name, RelPath, is_ancestor_of, strip_prefix, proper_prefixes, prefixes_from, join_path, is_root,
}

-- The prefix test by lengths and slices is the prefix relation.
pub strict_prefix :
    (p q : RelPath)
    → is_ancestor_of p q ≡ true
    → (c : Name) × (rest : RelPath) × (q ≡ p ++ (c ∷ rest))
unfolding is_ancestor_of
strict_prefix [] [] h = cc
strict_prefix [] (c ∷ q) h = (c, q, refl)
strict_prefix (a ∷ p) [] h = ground arith
strict_prefix (a ∷ p) (b ∷ q) h =
    let ih = strict_prefix p q (ground arith) in (ih.0, ih.1, ground (arith, ih.2))

pub is_ancestor_of-append :
    (p : RelPath) (c : Name) (rest : RelPath) → is_ancestor_of p (p ++ (c ∷ rest)) ≡ true
unfolding is_ancestor_of
is_ancestor_of-append [] c rest = ground arith
is_ancestor_of-append (a ∷ p) c rest = ground (arith, is_ancestor_of-append p c rest)

pub is_ancestor_of_trans :
    (p q r : RelPath)
    → is_ancestor_of p q ≡ true
    → is_ancestor_of q r ≡ true
    → is_ancestor_of p r ≡ true
unfolding is_ancestor_of
is_ancestor_of_trans [] q [] h k = ground arith
is_ancestor_of_trans [] q (c ∷ r) h k = ground arith
is_ancestor_of_trans (a ∷ p) [] r h k = ground arith
is_ancestor_of_trans (a ∷ p) (b ∷ q) [] h k = ground arith
is_ancestor_of_trans (a ∷ p) (b ∷ q) (c ∷ r) h k = ground (arith, is_ancestor_of_trans p q r)

-- Splitting off a prefix and joining it back are inverse.
pub strip_prefix-join_path : (p r : RelPath) → strip_prefix (join_path p r) p ≡ some r
unfolding strip_prefix join_path
strip_prefix-join_path [] r = ground arith
strip_prefix-join_path (a ∷ p) r = ground (arith, strip_prefix-join_path p r)

pub join_path-strip_prefix :
    (p prefix r : RelPath) → strip_prefix p prefix ≡ some r → join_path prefix r ≡ p
unfolding strip_prefix join_path
join_path-strip_prefix p [] r h = ground arith
join_path-strip_prefix [] (b ∷ prefix) r h = ground arith
join_path-strip_prefix (a ∷ p) (b ∷ prefix) r h = ground (arith, join_path-strip_prefix p prefix r)

contains-prefixes_from :
    (count start : ℕ) (p q : RelPath)
    → start + count ≤ length p + 1
    → (contains (prefixes_from count start p) q ≡ true)
      ↔ ((start ≤ length q) × (length q < start + count) × (take (length q) p ≡ q))
unfolding prefixes_from
contains-prefixes_from zero start p q h = (λ e. cc, λ e. absurd (omega arith))
contains-prefixes_from (suc count) start p q h =
    ground
      (arith, contains-prefixes_from count (start + 1) p q (omega arith), length-take_of_le start p)

-- The proper prefixes of a path are exactly its ancestors, the root excepted.
pub proper_prefixes_iff :
    (p q : RelPath)
    → (contains (proper_prefixes p) q ≡ true) ↔ ((is_ancestor_of q p ≡ true) × (is_root q ≡ false))
unfolding proper_prefixes is_ancestor_of is_root
proper_prefixes_iff [] [] = ground arith
proper_prefixes_iff [] (d ∷ q) = ground arith
proper_prefixes_iff (c ∷ p) [] = ground (arith, contains-prefixes_from (length p) 1 (c ∷ p) [])
proper_prefixes_iff (c ∷ p) (d ∷ q) =
    ground (arith, contains-prefixes_from (length p) 1 (c ∷ p) (d ∷ q))
