-- ===== src/Journal/RoundTrip.antt =====
-- What is encoded is decoded, up to the checks on its content (src/journal.rs).
use fstx.Base.{
  ℕ, ◌+◌, ◌/◌, ◌%◌, List, [], ◌∷◌, ◌++◌, none, some, nat_eq, list_eq, length, ◌≡◌, ◌≢◌, arith, All,
  take-append, drop-append, list_ord, nat_ord,
}
use fstx.Path.{Name}
use fstx.Path.Hex.{hex, hex_digit}
use fstx.Vfs.{FileId}
use fstx.Journal.{Journal, Codec, sep, rposition_sep, strip_newline, check_journal, encode, decode}

-- No line break stands in the list.
abbrev HasNoNewline : List ℕ → Type 0
HasNoNewline = All (λ b. b ≢ 10)

rposition_of_line : (line : List ℕ) → HasNoNewline line → rposition_sep (line ++ (10 ∷ [])) ≡ none
unfolding rposition_sep
rposition_of_line [] h = ground arith
rposition_of_line (b ∷ line) h = ground (arith, rposition_of_line line h.1)

rposition_sep-append :
    (body rest : List ℕ) {i : ℕ}
    → rposition_sep rest ≡ some i
    → rposition_sep (body ++ rest) ≡ some (length body + i)
unfolding rposition_sep
rposition_sep-append [] rest h = ground arith
rposition_sep-append (b ∷ body) rest h = ground (arith, rposition_sep-append body rest h)

rposition_of_trailer :
    (line : List ℕ) → HasNoNewline line → rposition_sep (sep ++ (line ++ (10 ∷ []))) ≡ some 0
unfolding rposition_sep
rposition_of_trailer line h = ground (arith, rposition_of_line line h)

strip_newline-append : (line : List ℕ) → strip_newline (line ++ (10 ∷ [])) ≡ some line
unfolding strip_newline
strip_newline-append [] = ground arith
strip_newline-append (b ∷ []) = ground arith
strip_newline-append (b ∷ c ∷ line) = ground (arith, strip_newline-append (c ∷ line))

hex_digit-ne-newline : (d : ℕ) → hex_digit d ≢ 10
unfolding hex_digit
hex_digit-ne-newline d e = ground arith

hex-HasNoNewline : (bs : List ℕ) → HasNoNewline (hex bs)
unfolding hex
hex-HasNoNewline [] = tt
hex-HasNoNewline (b ∷ bs) =
    (hex_digit-ne-newline (b / 16), (hex_digit-ne-newline (b % 16), hex-HasNoNewline bs))

module _ (codec : Codec) where
  -- Where the JSON codec reads back the journal it wrote, decoding what was encoded gives exactly
  -- what the checks on the content give.
  pub decode-encode :
      (j : Journal) (tx_name : Name) (root : FileId)
      → codec.from_slice (codec.to_vec j) ≡ some j
      → decode codec (encode codec j) tx_name root ≡ check_journal tx_name root j
  unfolding decode encode
  decode-encode j tx_name root h =
      let body = codec.to_vec j in
      let line = hex (codec.hash body) in
      let rest = sep ++ (line ++ (10 ∷ [])) in
      let cut =
        rposition_sep-append body rest
          (rposition_of_trailer line (hex-HasNoNewline (codec.hash body))) in
      ground
        (arith, cut, take-append body rest, drop-append body rest, strip_newline-append line, h)
