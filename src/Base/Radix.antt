-- ===== src/Base/Radix.antt =====
-- `from_str_radix` of Rust's unsigned integers, over the bytes of an ASCII string.
use Prim.Native.Nat.{ℕ, zero, suc, ◌+◌, ◌-◌, ◌*◌, ◌/◌, ◌%◌}
use mathlib.Core.Bool.{◌&&◌, true, false}
use mathlib.Core.Option.{Option, none, some}
use mathlib.Core.List.{List, [], ◌∷◌}
use fstx.Base.Tests.{ltb, leb, ◌==◌, nat_eq, if◌then◌else◌}

-- `char::to_digit`
unfoldable pub to_digit : ℕ → ℕ → Option ℕ
to_digit radix c =
    let d =
      if leb 48 c && leb c 57
      then c - 48
      else if leb 97 c && leb c 122
      then c - 87
      else if leb 65 c && leb c 90
      then c - 55
      else radix in
    if ltb d radix then some d else none

-- The digits after `acc`, with the check against the type's largest value.
unfoldable pub digits : ℕ → ℕ → ℕ → List ℕ → Option ℕ
unfolding to_digit
digits radix top acc [] = some acc
digits radix top acc (c ∷ cs) = elim (to_digit radix c) [
  | none ↦ none
  | some d ↦ if leb (acc * radix + d) top then digits radix top (acc * radix + d) cs else none
]

-- One leading `+` is accepted, and a sign or nothing alone is not a number.
unfoldable pub from_str_radix : ℕ → ℕ → List ℕ → Option ℕ
unfolding digits
from_str_radix radix top [] = none
from_str_radix radix top (c ∷ []) = if c == b'+' then none else digits radix top 0 (c ∷ [])
from_str_radix radix top (c ∷ d ∷ cs) =
    digits radix top 0 (if c == b'+' then d ∷ cs else c ∷ d ∷ cs)

-- The decimal digits of a number in front of `acc`. A number has fewer digits than its successor's
-- value, which is the fuel that `to_string` gives.
unfoldable pub decimal : ℕ → ℕ → List ℕ → List ℕ
decimal zero n acc = acc
decimal (suc fuel) n acc = elim (ltb n 10) [
  | true ↦ (48 + n) ∷ acc
  | false ↦ decimal fuel (n / 10) ((48 + n % 10) ∷ acc)
]

-- `n.to_string()`
unfoldable pub to_string : ℕ → List ℕ
unfolding decimal
to_string n = decimal (suc n) n []
