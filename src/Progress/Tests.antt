-- ===== src/Progress/Tests.antt =====
-- Runs of the progress log on concrete bytes (src/progress.rs).
use fstx.Base.{ℕ, List, [], ◌∷◌, ◌++◌, ◌≡◌, refl, All, arith, list_eq, nat_eq, length}
use fstx.Progress.{Record, apply_done, undo_done, encode, parse, record_in, len}
use fstx.Progress.RoundTrip.{
  FitsU32, log_bytes, parse-log_bytes, HoldsNoRecord, parse_resynchronises,
}
use fstx.Progress.Sound.{Occurs, IsBytes, parse-Occurs}

-- A hash of four bytes: the length and the last byte but three of the head.
abbrev toy_hash : List ℕ → List ℕ
toy_hash bytes = length bytes ∷ 7 ∷ 7 ∷ 7 ∷ []

abbrev two_records : List Record
two_records = apply_done 3 ∷ undo_done 258 ∷ []

two_records-FitsU32 : All FitsU32 two_records
two_records-FitsU32 = (ground arith, (ground arith, tt))

parse-log_bytes_example :
    parse toy_hash (log_bytes toy_hash two_records ++ (1 ∷ 2 ∷ []))
    ≡ two_records ++ parse toy_hash (1 ∷ 2 ∷ [])
parse-log_bytes_example = parse-log_bytes toy_hash two_records (1 ∷ 2 ∷ []) two_records-FitsU32

-- A torn write in front of a record.
abbrev torn : List ℕ
torn = b'F' ∷ b'X' ∷ []

abbrev logged : List ℕ
logged = encode toy_hash (apply_done 1)

torn-HoldsNoRecord : HoldsNoRecord toy_hash torn logged
unfolding record_in encode list_eq
torn-HoldsNoRecord = (refl, (refl, tt))

parse_resynchronises_example : parse toy_hash (torn ++ logged) ≡ parse toy_hash logged
parse_resynchronises_example = parse_resynchronises toy_hash torn logged torn-HoldsNoRecord

torn-IsBytes : IsBytes (torn ++ logged)
unfolding encode
torn-IsBytes = ground arith

torn_log_is_read : parse toy_hash (torn ++ logged) ≡ apply_done 1 ∷ []
unfolding parse encode fstx.Progress.parse_from record_in list_eq
torn_log_is_read = refl

parse-Occurs_example : All (Occurs toy_hash (torn ++ logged)) (parse toy_hash (torn ++ logged))
parse-Occurs_example = parse-Occurs toy_hash (torn ++ logged) torn-IsBytes
