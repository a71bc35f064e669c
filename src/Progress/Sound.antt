-- ===== src/Progress/Sound.antt =====
-- The parser invents nothing: each record that it returns stands in the log, encoded
-- (src/progress.rs).
use fstx.Base.{
  ℕ, zero, suc, ◌≤◌, ◌<◌, List, [], ◌∷◌, ◌++◌, none, some, true, false, leb, nat_eq, list_eq,
  length, take, drop, ◌≡◌, sym, ap, ◌∙◌, inl, inr, arith, Bool-cases, Option-cases, All,
  take-append-drop, list_ord, nat_ord,
}
use mathlib.Core.List.{append_assoc}
use fstx.Progress.{Record, len, to_le_bytes, from_le_bytes, encode, record_in, parse_from, parse}

abbrev pub IsBytes : List ℕ → Type 0
IsBytes = All (λ b. b < 256)

le_bytes_of :
    (a b c d : ℕ)
    → a < 256
    → b < 256
    → c < 256
    → d < 256
    → to_le_bytes (from_le_bytes a b c d) ≡ a ∷ b ∷ c ∷ d ∷ []
unfolding to_le_bytes from_le_bytes
le_bytes_of a b c d ha hb hc hd = ground arith

module _ (hash : List ℕ → List ℕ) where
  -- The record's encoding stands somewhere in the bytes.
  abbrev pub Occurs : List ℕ → Record → Type 0
  Occurs bytes r = (pre : List ℕ) × (post : List ℕ) × (bytes ≡ pre ++ (encode hash r ++ post))

  window :
      (bytes : List ℕ) (r : Record)
      → IsBytes bytes
      → 16 ≤ length bytes
      → record_in hash (take len bytes) ≡ some r
      → bytes ≡ encode hash r ++ drop len bytes
  unfolding record_in encode
  window (a ∷ b ∷ c ∷ d ∷ e ∷ f ∷ g ∷ h ∷ i ∷ j ∷ k ∷ l ∷ m ∷ n ∷ o ∷ p ∷ rest) r hb hl hr =
      ground (arith, le_bytes_of i j k l)
  window _ r hb hl hr = absurd (omega arith)

  Occurs-drop : (n : ℕ) (bytes : List ℕ) (r : Record) → Occurs (drop n bytes) r → Occurs bytes r
  Occurs-drop n bytes r (pre, post, e) = (
    take n bytes ++ pre,
    post,
    sym (take-append-drop n bytes)
        ∙ (ap (λ t. take n bytes ++ t) e ∙ sym (append_assoc (take n bytes) pre _)),
  )

  All-Occurs-drop :
      (n : ℕ) (bytes : List ℕ) (rs : List Record)
      → All (Occurs (drop n bytes)) rs
      → All (Occurs bytes) rs
  All-Occurs-drop n bytes [] h = tt
  All-Occurs-drop n bytes (r ∷ rs) h = (Occurs-drop n bytes r h.0, All-Occurs-drop n bytes rs h.1)

  IsBytes-drop : (n : ℕ) (bytes : List ℕ) → IsBytes bytes → IsBytes (drop n bytes)
  IsBytes-drop zero bytes h = h
  IsBytes-drop (suc n) [] h = tt
  IsBytes-drop (suc n) (b ∷ bytes) h = IsBytes-drop n bytes h.1

  parse_from_short :
      (f : ℕ) (bytes : List ℕ) → leb len (length bytes) ≡ false → parse_from hash (suc f) bytes ≡ []
  unfolding parse_from
  parse_from_short f bytes h = ground arith

  parse_from_skip :
      (f : ℕ) (bytes : List ℕ)
      → leb len (length bytes) ≡ true
      → record_in hash (take len bytes) ≡ none
      → parse_from hash (suc f) bytes ≡ parse_from hash f (drop 1 bytes)
  unfolding parse_from
  parse_from_skip f bytes h e = ground arith

  parse_from_record :
      (f : ℕ) (bytes : List ℕ) (r : Record)
      → leb len (length bytes) ≡ true
      → record_in hash (take len bytes) ≡ some r
      → parse_from hash (suc f) bytes ≡ r ∷ parse_from hash f (drop len bytes)
  unfolding parse_from
  parse_from_record f bytes r h e = ground arith

  parse_from-Occurs :
      (f : ℕ) (bytes : List ℕ) → IsBytes bytes → All (Occurs bytes) (parse_from hash f bytes)
  parse_from-Occurs zero bytes h = unfold parse_from in tt
  parse_from-Occurs (suc f) bytes h = elim (Bool-cases (leb len (length bytes))) [
    | inr short ↦ rw (parse_from_short f bytes short) tt
    | inl long ↦ elim (Option-cases (record_in hash (take len bytes))) [
      | inl e ↦
          rw (parse_from_skip f bytes long e) (
            All-Occurs-drop 1 bytes _ (parse_from-Occurs f (drop 1 bytes) (IsBytes-drop 1 bytes h)))
      | inr (r, e) ↦ rw (parse_from_record f bytes r long e) (
        ([], drop len bytes, window bytes r h (ground arith) e),
        All-Occurs-drop len bytes _
            (parse_from-Occurs f (drop len bytes) (IsBytes-drop len bytes h)),
      )
    ]
  ]

  -- Each record that the parser returns stands in the bytes, whatever the bytes are.
  pub parse-Occurs : (bytes : List ℕ) → IsBytes bytes → All (Occurs bytes) (parse hash bytes)
  unfolding parse
  parse-Occurs bytes h = parse_from-Occurs (length bytes) bytes h
