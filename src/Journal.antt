-- ===== src/Journal.antt =====
-- The journal's encoding and the checks of its decoding (src/journal.rs). The JSON codec and the
-- hash function belong to other packages and are parameters.
pub mod Tests
pub mod Confined
pub mod RoundTrip
use fstx.Base.{
  ℕ, zero, suc, ◌+◌, ◌-◌, ◌*◌, ◌/◌, ◌%◌, ◌≤◌, ◌<◌, List, [], ◌∷◌, ◌++◌, map, Option, none, some,
  Bool, true, false, ◌&&◌, ◌||◌, not, ltb, leb, ◌==◌, nat_eq, list_eq, if◌then◌else◌, length, take,
  drop, is_empty, contains, any, all, ◌≡◌, refl, sym, ap, ◌∙◌, ◌≢◌, ◌↔◌, ◌⊎◌, inl, inr, arith,
  Bool-cases, Option-cases, ==_iff, ==_refl, Result, ok, err, ◌>>=◌, All, take-append, drop-append,
  take-append-drop, length-append, get_elem?, length-take_of_le, All-append, ok-injective,
  >>=-eq-ok, all_below, all_below_sound, set, fail_if, ok_or, for_each, ◌>>◌, map_ok, replicate, Eq,
  Ord, list_ord, nat_ord,
}
use fstx.Path.{Name, RelPath, private_dir_name, is_root, is_private}
use fstx.Path.Hex.{hex}
use fstx.Error.{Reason}
use fstx.Vfs.{FileId, file_id_eq}
use fstx.Plan.{Loc, Token, Plan}
use fstx.Plan.Validate.{validate}
use fstx.State.{backup_name, staged_name}

abbrev pub format_version : ℕ
format_version = 1

-- `\nblake3:`
abbrev pub sep : List ℕ
sep = 10 ∷ b'b' ∷ b'l' ∷ b'a' ∷ b'k' ∷ b'e' ∷ b'3' ∷ b':' ∷ []

pub record Journal : Type 0 where
  pub format : ℕ
  pub tx : Name
  pub root : FileId
  pub plan : Plan

-- `serde_json::to_vec`, `serde_json::from_slice` and `blake3::hash`.
pub record Codec : Type 0 where
  pub to_vec : Journal → List ℕ
  pub from_slice : List ℕ → Option Journal
  pub hash : List ℕ → List ℕ

unfoldable pub starts_with : List ℕ → List ℕ → Bool
starts_with [] bytes = true
starts_with (c ∷ cs) [] = false
starts_with (c ∷ cs) (b ∷ bytes) = c == b && starts_with cs bytes

-- `bytes.windows(SEP.len()).rposition(|w| w == SEP)`
unfoldable pub rposition_sep : List ℕ → Option ℕ
unfolding starts_with
rposition_sep [] = none
rposition_sep (b ∷ bytes) = elim (rposition_sep bytes) [
  | some i ↦ some (suc i)
  | none ↦ if starts_with sep (b ∷ bytes) then some 0 else none
]

-- `strip_suffix(b"\n")`
unfoldable pub strip_newline : List ℕ → Option (List ℕ)
strip_newline [] = none
strip_newline (c ∷ []) = if c == 10 then some [] else none
strip_newline (c ∷ d ∷ cs) = elim (strip_newline (d ∷ cs)) [ none ↦ none | some xs ↦ some (c ∷ xs) ]

-- A private location must lie in this transaction's `backup` or `staged`.
unfoldable pub is_own_private : Name → RelPath → Bool
is_own_private tx_name (a ∷ b ∷ c ∷ d ∷ []) =
    a == private_dir_name && b == tx_name && (c == backup_name || c == staged_name)
is_own_private tx_name _ = false

unfoldable pub check_location : Name → Loc → Result Reason (Unit {0})
check_location tx_name loc = do
  fail_if (is_root loc.path) Reason.location_is_root
  fail_if (is_private loc.path && not (is_own_private tx_name loc.path))
      (Reason.private_location loc.path)

unfoldable pub check_token : Name → Token → Result Reason (Unit {0})
check_token tx_name tok = do
  fail_if (ltb (length tok.locs) 2) Reason.too_few_locations
  for_each tok.locs (check_location tx_name)

-- The checks on a journal that has been read.
unfoldable pub check_journal : Name → FileId → Journal → Result Reason Journal
check_journal tx_name root j = do
  fail_if (not (j.format == format_version)) (Reason.unknown_format j.format)
  fail_if (not (j.tx == tx_name)) Reason.different_transaction
  fail_if (not (j.root == root)) Reason.different_root
  for_each j.plan.tokens (check_token tx_name)
  validate j.plan
  ok j

module _ (codec : Codec) where
  unfoldable pub encode : Journal → List ℕ
  encode j = let out = codec.to_vec j in out ++ (sep ++ (hex (codec.hash out) ++ (10 ∷ [])))

  unfoldable pub decode : List ℕ → Name → FileId → Result Reason Journal
  decode bytes tx_name root = do
    cut ← ok_or (rposition_sep bytes) Reason.no_checksum
    let body = take cut bytes
    sum ← ok_or (strip_newline (drop (length sep) (drop cut bytes))) Reason.torn_checksum
    fail_if (not (sum == hex (codec.hash body))) Reason.checksum_mismatch
    j ← ok_or (codec.from_slice body) Reason.does_not_parse
    check_journal tx_name root j
