-- ===== src/Base/Utf8.antt =====
-- `OsString::into_string` and `to_string_lossy`: which bytes are well-formed UTF-8, and what is shown for
-- the others.
use Prim.Native.Nat.{ℕ}
use mathlib.Core.Bool.{Bool, true, false, ◌&&◌}
use mathlib.Core.Option.{Option, none, some}
use mathlib.Core.List.{List, [], ◌∷◌, ◌++◌}
use fstx.Base.Tests.{ltb, leb, ◌==◌, nat_eq, if◌then◌else◌}

-- The ranges of the bytes that must follow a leading byte.
lead_ranges : ℕ → Option (List (ℕ × ℕ))
lead_ranges b =
    if ltb b 0x80
    then some []
    else if leb 0xC2 b && leb b 0xDF
    then some ((0x80, 0xBF) ∷ [])
    else if b == 0xE0
    then some ((0xA0, 0xBF) ∷ (0x80, 0xBF) ∷ [])
    else if b == 0xED
    then some ((0x80, 0x9F) ∷ (0x80, 0xBF) ∷ [])
    else if leb 0xE1 b && leb b 0xEF
    then some ((0x80, 0xBF) ∷ (0x80, 0xBF) ∷ [])
    else if b == 0xF0
    then some ((0x90, 0xBF) ∷ (0x80, 0xBF) ∷ (0x80, 0xBF) ∷ [])
    else if leb 0xF1 b && leb b 0xF3
    then some ((0x80, 0xBF) ∷ (0x80, 0xBF) ∷ (0x80, 0xBF) ∷ [])
    else if b == 0xF4
    then some ((0x80, 0x8F) ∷ (0x80, 0xBF) ∷ (0x80, 0xBF) ∷ [])
    else none

utf8_from : List (ℕ × ℕ) → List ℕ → Bool
utf8_from [] [] = true
utf8_from (r ∷ rs) [] = false
utf8_from ((lo, hi) ∷ rs) (b ∷ bytes) = leb lo b && leb b hi && utf8_from rs bytes
utf8_from [] (b ∷ bytes) = elim (lead_ranges b) [ none ↦ false | some rs ↦ utf8_from rs bytes ]

unfoldable pub is_utf8 : List ℕ → Bool
unfolding utf8_from lead_ranges
is_utf8 bytes = utf8_from [] bytes

-- U+FFFD
abbrev replacement : List ℕ
replacement = 0xEF ∷ 0xBF ∷ 0xBD ∷ []

-- `seen` is the start of a character, which the ranges complete.
lossy_from : List ℕ → List (ℕ × ℕ) → List ℕ → List ℕ
lossy_from seen [] [] = seen
lossy_from seen (r ∷ rs) [] = replacement
lossy_from seen [] (b ∷ bytes) = seen ++ (elim (lead_ranges b) [
  | none ↦ replacement ++ lossy_from [] [] bytes
  | some rs ↦ lossy_from (b ∷ []) rs bytes
])
lossy_from seen ((lo, hi) ∷ rs) (b ∷ bytes) = elim (leb lo b && leb b hi) [
  | true ↦ lossy_from (seen ++ (b ∷ [])) rs bytes
  | false ↦ replacement ++ (elim (lead_ranges b) [
    | none ↦ replacement ++ lossy_from [] [] bytes
    | some rs' ↦ lossy_from (b ∷ []) rs' bytes
  ])
]

-- Each maximal piece that is not UTF-8 is shown as U+FFFD.
unfoldable pub to_string_lossy : List ℕ → List ℕ
unfolding lossy_from lead_ranges
to_string_lossy bytes = lossy_from [] [] bytes
