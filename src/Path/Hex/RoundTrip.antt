-- ===== src/Path/Hex/RoundTrip.antt =====
-- Hex and the journal's form of a path read back (src/path.rs).
use fstx.Base.{
  all_below, all_below_sound, ℕ, ◌/◌, ◌%◌, ◌<◌, List, [], ◌∷◌, none, some, Bool, true, false, ◌==◌,
  nat_eq, list_eq, length, ◌≡◌, refl, arith, All,
}
use native.Mathlib.Decide.{ℕ_discrete}
use fstx.Base.Radix.{to_digit, from_str_radix}
use fstx.Path.{RelPath, component_ok}
use fstx.Path.Hex.{hex_digit, hex, unhex, unhex_pairs, os_from_bytes, serialize, deserialize}

-- A byte, as the elements of every `Vec<u8>` are.
abbrev pub IsByte : ℕ → Type 0
IsByte b = b < 256

to_digit-hex_digit : (d : ℕ) → d < 16 → to_digit 16 (hex_digit d) ≡ some d
unfolding to_digit hex_digit
to_digit-hex_digit d h = ground arith

-- Every byte is checked by evaluation.
is_read_back : ℕ → Bool
is_read_back b = elim (from_str_radix 16 255 (hex_digit (b / 16) ∷ hex_digit (b % 16) ∷ [])) [
  | none ↦ false
  | some x ↦ x == b
]

byte_table : all_below 256 is_read_back ≡ true
unfolding all_below is_read_back from_str_radix hex_digit ℕ_discrete
byte_table = refl

from_str_radix-hex :
    (b : ℕ)
    → b < 256
    → from_str_radix 16 255 (hex_digit (b / 16) ∷ hex_digit (b % 16) ∷ []) ≡ some b
unfolding is_read_back
from_str_radix-hex b h = ground (arith, all_below_sound 256 is_read_back b byte_table h)

even-length-hex : (bs : List ℕ) → length (hex bs) % 2 ≡ 0
unfolding hex
even-length-hex [] = refl
even-length-hex (b ∷ bs) = omega (arith, even-length-hex bs)

unhex_pairs-hex : (bs : List ℕ) → All IsByte bs → unhex_pairs (hex bs) ≡ some bs
unfolding unhex_pairs hex
unhex_pairs-hex [] h = refl
unhex_pairs-hex (b ∷ bs) h = ground (arith, from_str_radix-hex b h.0, unhex_pairs-hex bs h.1)

pub unhex-hex : (bs : List ℕ) → All IsByte bs → unhex (hex bs) ≡ some bs
unfolding unhex
unhex-hex bs h = ground (arith, even-length-hex bs, unhex_pairs-hex bs h)

-- A path of safe components, all bytes below 256, is read back from the strings it is written as.
pub deserialize-serialize :
    (p : RelPath)
    → All (λ c. All IsByte c × (component_ok c ≡ true)) p
    → deserialize (serialize p) ≡ some p
unfolding deserialize serialize os_from_bytes
deserialize-serialize [] h = refl
deserialize-serialize (c ∷ p) h = ground (arith, unhex-hex c h.0.0, deserialize-serialize p h.1)

-- Whatever the strings are, what is read from them is a list of safe components.
pub deserialize-component_ok :
    (hs : List (List ℕ)) (p : RelPath)
    → deserialize hs ≡ some p
    → All (λ c. component_ok c ≡ true) p
unfolding deserialize os_from_bytes
deserialize-component_ok [] [] h = tt
deserialize-component_ok [] (c ∷ p) h = absurd (ground arith)
deserialize-component_ok (x ∷ hs) [] h = tt
deserialize-component_ok (x ∷ hs) (c ∷ p) h =
    (ground arith, deserialize-component_ok hs p (ground arith))
