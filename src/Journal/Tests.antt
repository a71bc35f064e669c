-- ===== src/Journal/Tests.antt =====
-- The journal of the sample plan, read back (src/journal.rs).
use fstx.Base.{ℕ, List, [], ◌∷◌, some, ◌≡◌, refl, ok, length, take, drop, list_eq, nat_eq}
use fstx.Path.Hex.{hex}
use fstx.Journal.{Journal, Codec, encode, decode, check_journal, strip_newline, sep}
use fstx.Journal.RoundTrip.{decode-encode}
use fstx.Journal.Confined.{IsChecked, decode-IsChecked}
use fstx.Plan.Tests.{sample_is_valid}
use fstx.Samples.{sample, tx_1, root_id}

abbrev pub sample_journal : Journal
sample_journal = record { format = 1; tx = tx_1; root = root_id; plan = sample }

-- A codec that knows one journal.
abbrev pub toy_codec : Codec
toy_codec = record {
  to_vec = λ j. b'{' ∷ b'}' ∷ [];
  from_slice = λ bytes. some sample_journal;
  hash = λ bytes. length bytes ∷ 200 ∷ [];
}

decode-encode_example :
    decode toy_codec (encode toy_codec sample_journal) tx_1 root_id
    ≡ check_journal tx_1 root_id sample_journal
decode-encode_example = decode-encode toy_codec sample_journal tx_1 root_id refl

abbrev pub bytes : List ℕ
bytes = encode toy_codec sample_journal

pub sample_is_read : decode toy_codec bytes tx_1 root_id ≡ ok sample_journal
unfolding decode encode fstx.Journal.rposition_sep hex native.Mathlib.Decide.ℕ_discrete
    strip_newline list_eq check_journal fstx.Vfs.file_id_eq fstx.Journal.check_token
    fstx.Journal.check_location fstx.Path.is_root fstx.Path.is_private fstx.Journal.is_own_private
    fstx.Journal.starts_with fstx.Path.Hex.hex_digit fstx.Path.to_ascii_lowercase
sample_is_read = rw sample_is_valid

decode-IsChecked_example :
    IsChecked tx_1 root_id sample_journal
    × ((cut : ℕ) × (toy_codec.from_slice (take cut bytes) ≡ some sample_journal)
        × (strip_newline (drop (length sep) (drop cut bytes))
            ≡ some (hex (toy_codec.hash (take cut bytes)))))
decode-IsChecked_example =
    decode-IsChecked toy_codec bytes tx_1 root_id sample_journal sample_is_read
