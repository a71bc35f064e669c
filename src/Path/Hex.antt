-- ===== src/Path/Hex.antt =====
-- The hex encoding of components in the journal (src/path.rs).
pub mod RoundTrip
use fstx.Base.{
  ℕ, ◌+◌, ◌/◌, ◌%◌, List, [], ◌∷◌, Option, none, some, ltb, ◌==◌, nat_eq, if◌then◌else◌, length,
}
use fstx.Base.Radix.{from_str_radix}
use fstx.Path.{Name, RelPath, component_ok}

unfoldable pub hex_digit : ℕ → ℕ
hex_digit d = if ltb d 10 then 48 + d else 87 + d

-- `{x:02x}` of every byte.
unfoldable pub hex : List ℕ → List ℕ
unfolding hex_digit
hex [] = []
hex (b ∷ bs) = hex_digit (b / 16) ∷ hex_digit (b % 16) ∷ hex bs

unhex_pairs : List ℕ → Option (List ℕ)
unhex_pairs (a ∷ b ∷ s) = elim (from_str_radix 16 255 (a ∷ b ∷ [])) [
  | none ↦ none
  | some x ↦ elim (unhex_pairs s) [ none ↦ none | some xs ↦ some (x ∷ xs) ]
]
unhex_pairs _ = some []

-- A pair that is cut from inside a longer UTF-8 sequence is no pair of digits, so the strings are
-- read as bytes.
unfoldable pub unhex : List ℕ → Option (List ℕ)
unfolding unhex_pairs from_str_radix
unhex s = if length s % 2 == 0 then unhex_pairs s else none

unfoldable pub os_from_bytes : List ℕ → Option Name
unfolding component_ok
os_from_bytes b = if component_ok b then some b else none

-- `RelPath` as the journal's list of strings.
unfoldable pub serialize : RelPath → List (List ℕ)
unfolding hex
serialize [] = []
serialize (c ∷ cs) = hex c ∷ serialize cs

unfoldable pub deserialize : List (List ℕ) → Option RelPath
unfolding unhex os_from_bytes
deserialize [] = some []
deserialize (h ∷ hs) = elim (unhex h) [
  | none ↦ none
  | some bytes ↦ elim (os_from_bytes bytes) [
    | none ↦ none
    | some c ↦ elim (deserialize hs) [ none ↦ none | some cs ↦ some (c ∷ cs) ]
  ]
]
