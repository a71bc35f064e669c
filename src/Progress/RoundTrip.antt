-- ===== src/Progress/RoundTrip.antt =====
-- Records read back, whatever follows them; more fuel changes nothing; what holds no record is
-- passed over (src/progress.rs).
use fstx.Base.{
  ℕ, zero, suc, ◌+◌, ◌-◌, ◌/◌, ◌%◌, ◌≤◌, ◌<◌, List, [], ◌∷◌, ◌++◌, none, some, nat_eq, list_eq,
  length, take, drop, ◌≡◌, refl, ◌∙◌, arith, All, list_ord, nat_ord,
}
use mathlib.Core.List.{append_assoc}
use fstx.Progress.{
  Record, apply_done, undo_done, len, from_le_bytes, encode, record_in, parse_from, parse,
}

-- A wave number that fits `u32`.
abbrev pub FitsU32 : Record → Type 0
FitsU32 (apply_done w) = w < 4294967296
FitsU32 (undo_done w) = w < 4294967296

le_bytes_back :
    (w : ℕ)
    → w < 4294967296
    → from_le_bytes (w % 256) (w / 256 % 256) (w / 65536 % 256) (w / 16777216 % 256) ≡ w
unfolding from_le_bytes
le_bytes_back w h = omega arith

length-drop-le : (n : ℕ) (bytes : List ℕ) → length (drop n bytes) ≤ length bytes - n
length-drop-le zero bytes = omega arith
length-drop-le (suc n) [] = omega arith
length-drop-le (suc n) (b ∷ bytes) = omega (arith, length-drop-le n bytes)

module _ (hash : List ℕ → List ℕ) where
  -- Any fuel from the length on gives the same records.
  pub parse_from_fuel :
      (f g : ℕ) (bytes : List ℕ)
      → length bytes ≤ f
      → length bytes ≤ g
      → parse_from hash f bytes ≡ parse_from hash g bytes
  unfolding parse_from
  parse_from_fuel zero zero bytes h k = refl
  parse_from_fuel zero (suc g) bytes h k = ground arith
  parse_from_fuel (suc f) zero bytes h k = ground arith
  parse_from_fuel (suc f) (suc g) bytes h k = ground (
    arith,
    length-drop-le 1 bytes,
    length-drop-le len bytes,
    parse_from_fuel f g (drop 1 bytes),
    parse_from_fuel f g (drop len bytes),
  )

  pub record_in-encode :
      (r : Record) (rest : List ℕ)
      → FitsU32 r
      → record_in hash (take len (encode hash r ++ rest)) ≡ some r
  unfolding record_in encode
  record_in-encode (apply_done w) rest h = ground (arith, le_bytes_back w h)
  record_in-encode (undo_done w) rest h = ground (arith, le_bytes_back w h)

  length-encode : (r : Record) (rest : List ℕ) → length (encode hash r ++ rest) ≡ 16 + length rest
  unfolding encode
  length-encode (apply_done w) rest = omega arith
  length-encode (undo_done w) rest = omega arith

  drop-encode : (r : Record) (rest : List ℕ) → drop len (encode hash r ++ rest) ≡ rest
  unfolding encode
  drop-encode (apply_done w) rest = refl
  drop-encode (undo_done w) rest = refl

  -- One step of the parser on a window that holds a record.
  parse_of_record :
      (bytes : List ℕ) (r : Record)
      → 16 ≤ length bytes
      → record_in hash (take len bytes) ≡ some r
      → parse hash bytes ≡ r ∷ parse hash (drop len bytes)
  unfolding parse parse_from
  parse_of_record [] r n h = absurd (omega arith)
  parse_of_record (b ∷ bytes) r n h = ground (
    arith,
    length-drop-le len (b ∷ bytes),
    parse_from_fuel (length bytes) (length (drop len (b ∷ bytes))) (drop len (b ∷ bytes)),
  )

  parse_of_no_record :
      (b : ℕ) (bytes : List ℕ)
      → record_in hash (take len (b ∷ bytes)) ≡ none
      → 16 ≤ length (b ∷ bytes)
      → parse hash (b ∷ bytes) ≡ parse hash bytes
  unfolding parse parse_from
  parse_of_no_record b bytes h n = ground arith

  parse_of_short : (bytes : List ℕ) → length bytes < 16 → parse hash bytes ≡ []
  unfolding parse parse_from
  parse_of_short [] h = refl
  parse_of_short (b ∷ bytes) h = ground arith

  -- A record at the front is read, and the parse goes on behind it.
  pub parse-encode :
      (r : Record) (rest : List ℕ)
      → FitsU32 r
      → parse hash (encode hash r ++ rest) ≡ r ∷ parse hash rest
  parse-encode r rest h =
      parse_of_record (encode hash r ++ rest) r (omega (arith, length-encode r rest))
        (record_in-encode r rest h)
      ∙ rw drop-encode

  -- What an undamaged log holds, in order.
  pub log_bytes : List Record → List ℕ
  log_bytes [] = []
  log_bytes (r ∷ rs) = encode hash r ++ log_bytes rs

  -- Records whose wave numbers fit in 32 bits are read back from the front of a log in order,
  -- whatever bytes follow them, and the parse goes on with those bytes.
  pub parse-log_bytes :
      (rs : List Record) (tail : List ℕ)
      → All FitsU32 rs
      → parse hash (log_bytes rs ++ tail) ≡ rs ++ parse hash tail
  unfolding log_bytes
  parse-log_bytes [] tail h = refl
  parse-log_bytes (r ∷ rs) tail h = rw (
    append_assoc (encode hash r) (log_bytes rs) tail,
    parse-encode r (log_bytes rs ++ tail) h.0,
    parse-log_bytes rs tail h.1,
  )

  -- No window that starts in `torn` holds a record.
  abbrev pub HoldsNoRecord : List ℕ → List ℕ → Type 0
  HoldsNoRecord [] rest = Unit
  HoldsNoRecord (b ∷ torn) rest =
      (record_in hash (take len (b ∷ (torn ++ rest))) ≡ none) × HoldsNoRecord torn rest

  -- Where no window that starts in the torn bytes holds a record, they hide nothing of what follows:
  -- the parse is that of the rest alone.
  pub parse_resynchronises :
      (torn rest : List ℕ) → HoldsNoRecord torn rest → parse hash (torn ++ rest) ≡ parse hash rest
  parse_resynchronises [] rest h = refl
  parse_resynchronises (b ∷ torn) rest h =
      let ih = parse_resynchronises torn rest h.1 in
      let short = parse_of_short (b ∷ (torn ++ rest)) in
      let short' = parse_of_short (torn ++ rest) in
      let long = parse_of_no_record b (torn ++ rest) h.0 in ground arith
