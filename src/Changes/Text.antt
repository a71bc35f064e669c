-- ===== src/Changes/Text.antt =====
-- Finding and replacing a text in a text (`str::matches` and `str::replace`, as cli/src/changes.rs
-- uses them). In UTF-8, where one text begins in another is told by the bytes.
pub mod Laws
use fstx.Base.{
  ℕ, zero, suc, ◌+◌, ◌-◌, ◌*◌, ◌/◌, ◌%◌, ◌≤◌, ◌<◌, List, [], ◌∷◌, ◌++◌, map, Option, none, some,
  Bool, true, false, ◌&&◌, ◌||◌, not, ltb, leb, ◌==◌, nat_eq, list_eq, if◌then◌else◌, length, take,
  drop, is_empty, contains, any, all, ◌≡◌, refl, sym, ap, ◌∙◌, ◌≢◌, ◌↔◌, ◌⊎◌, inl, inr, arith,
  Bool-cases, Option-cases, ==_iff, ==_refl, Result, ok, err, ◌>>=◌, All, take-append, drop-append,
  take-append-drop, length-append, get_elem?, length-take_of_le, All-append, ok-injective,
  >>=-eq-ok, contains-append, length-set, all_below, all_below_sound, set, fail_if, ok_or, for_each,
  ◌>>◌, map_ok, replicate, Eq, Ord, list_ord, nat_ord,
}

unfoldable pub starts_with : List ℕ → List ℕ → Bool
starts_with [] text = true
starts_with (f ∷ find) [] = false
starts_with (f ∷ find) (c ∷ text) = f == c && starts_with find text

-- The matches from the left that do not overlap; `skip` bytes are of the last match.
unfoldable pub matches_from : List ℕ → ℕ → List ℕ → ℕ
unfolding starts_with
matches_from find skip [] = 0
matches_from find (suc skip) (c ∷ text) = matches_from find skip text
matches_from find zero (c ∷ text) =
    let here = starts_with find (c ∷ text) in
    let rest = matches_from find (if here then length find - 1 else 0) text in
    if here then rest + 1 else rest

unfoldable pub matches : List ℕ → List ℕ → ℕ
unfolding matches_from
matches find text = matches_from find 0 text

unfoldable pub replace_from : List ℕ → List ℕ → ℕ → List ℕ → List ℕ
unfolding starts_with
replace_from find replace skip [] = []
replace_from find replace (suc skip) (c ∷ text) = replace_from find replace skip text
replace_from find replace zero (c ∷ text) =
    let here = starts_with find (c ∷ text) in
    let rest = replace_from find replace (if here then length find - 1 else 0) text in
    if here then replace ++ rest else c ∷ rest

unfoldable pub replace_all : List ℕ → List ℕ → List ℕ → List ℕ
unfolding replace_from
replace_all find replace text = replace_from find replace 0 text
