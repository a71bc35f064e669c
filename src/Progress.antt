-- ===== src/Progress.antt =====
-- The progress log: 16-byte checksummed records, and the parser that resynchronises past corrupt
-- bytes (src/progress.rs). The hash function is a parameter: it belongs to another package.
mod Tests
pub mod Sound
pub mod RoundTrip
use fstx.Base.{
  ℕ, zero, suc, ◌+◌, ◌-◌, ◌*◌, ◌/◌, ◌%◌, ◌≤◌, ◌<◌, List, [], ◌∷◌, ◌++◌, map, Option, none, some,
  Bool, true, false, ◌&&◌, ◌||◌, not, ltb, leb, ◌==◌, nat_eq, list_eq, if◌then◌else◌, length, take,
  drop, is_empty, contains, any, all, ◌≡◌, refl, sym, ap, ◌∙◌, ◌≢◌, ◌↔◌, ◌⊎◌, inl, inr, arith,
  Bool-cases, Option-cases, ==_iff, ==_refl, Result, ok, err, ◌>>=◌, All, take-append, drop-append,
  take-append-drop, length-append, get_elem?, length-take_of_le, All-append, ok-injective,
  >>=-eq-ok, all_below, all_below_sound, set, fail_if, ok_or, for_each, ◌>>◌, Eq, Ord, list_ord,
  nat_ord,
}

pub data Record : Type 0 where
  apply_done undo_done : ℕ → Record

abbrev pub magic : List ℕ
magic = b'F' ∷ b'X' ∷ b'P' ∷ b'R' ∷ []

abbrev pub len : ℕ
len = 16

-- An index into a slice that is in bounds wherever the code uses it.
abbrev pub byte_at : List ℕ → ℕ → ℕ
byte_at [] i = 0
byte_at (b ∷ bs) zero = b
byte_at (b ∷ bs) (suc i) = byte_at bs i

-- `u32::to_le_bytes` and `u32::from_le_bytes`
unfoldable pub to_le_bytes : ℕ → List ℕ
to_le_bytes w = w % 256 ∷ w / 256 % 256 ∷ w / 65536 % 256 ∷ w / 16777216 % 256 ∷ []

unfoldable pub from_le_bytes : ℕ → ℕ → ℕ → ℕ → ℕ
from_le_bytes a b c d = a + 256 * b + 65536 * c + 16777216 * d

module _ (hash : List ℕ → List ℕ) where
  unfoldable pub check : List ℕ → List ℕ
  check head = let h = hash head in byte_at h 0 ∷ byte_at h 1 ∷ byte_at h 2 ∷ byte_at h 3 ∷ []

  -- The first twelve bytes.
  unfoldable pub head_bytes : ℕ → ℕ → List ℕ
  unfolding to_le_bytes
  head_bytes kind wave = magic ++ (kind ∷ 0 ∷ 0 ∷ 0 ∷ to_le_bytes wave)

  unfoldable pub encode : Record → List ℕ
  unfolding head_bytes check
  encode (apply_done w) = let head = head_bytes 1 w in head ++ check head
  encode (undo_done w) = let head = head_bytes 2 w in head ++ check head

  is_valid : List ℕ → Bool
  unfolding check
  is_valid rec =
      take 4 rec == magic
      && take 3 (drop 5 rec) == (0 ∷ 0 ∷ 0 ∷ [])
      && drop 12 rec == check (take 12 rec)

  -- The record in a window of 16 bytes, if the window holds one.
  unfoldable pub record_in : List ℕ → Option Record
  unfolding is_valid from_le_bytes
  record_in rec =
      let wave = from_le_bytes (byte_at rec 8) (byte_at rec 9) (byte_at rec 10) (byte_at rec 11) in
      if is_valid rec && byte_at rec 4 == 1
      then some (apply_done wave)
      else if is_valid rec && byte_at rec 4 == 2
      then some (undo_done wave)
      else none

  -- The loop from one position on, on fuel; `bytes` is what is left of the slice.
  unfoldable pub parse_from : ℕ → List ℕ → List Record
  parse_from zero bytes = []
  parse_from (suc f) bytes = elim (leb len (length bytes)) [
    | false ↦ []
    | true ↦ elim (record_in (take len bytes)) [
      | none ↦ parse_from f (drop 1 bytes)
      | some r ↦ r ∷ parse_from f (drop len bytes)
    ]
  ]

  -- Every round consumes a byte, so the length is fuel enough.
  unfoldable pub parse : List ℕ → List Record
  parse bytes = parse_from (length bytes) bytes
