-- ===== src/Changes.antt =====
-- Change sets of the command line, staged into one transaction (cli/src/changes.rs). A string is the
-- list of its bytes.
pub mod Text
pub mod Mode
pub mod Chains
pub mod Reports
pub mod Fails
pub mod Stage
pub mod Sync
mod Samples
mod Tests
use fstx.Base.{
  ℕ, zero, suc, ◌+◌, ◌-◌, ◌*◌, ◌/◌, ◌%◌, ◌≤◌, ◌<◌, List, [], ◌∷◌, ◌++◌, map, Option, none, some,
  Bool, true, false, ◌&&◌, ◌||◌, not, ltb, leb, ◌==◌, nat_eq, list_eq, if◌then◌else◌, length, take,
  drop, is_empty, contains, any, all, ◌≡◌, refl, sym, ap, ◌∙◌, ◌≢◌, ◌↔◌, ◌⊎◌, inl, inr, arith,
  Bool-cases, Option-cases, ==_iff, ==_refl, Result, ok, err, All, take-append, drop-append,
  take-append-drop, length-append, get_elem?, length-take_of_le, All-append, ok-injective,
  >>=-eq-ok, contains-append, length-set, all_below, all_below_sound, set, fail_if, ok_or, map_ok,
  replicate, Eq, Ord, list_ord, nat_ord,
}
use fstx.Base.Action.{Action, ◌>>=◌, ◌>>◌, pure, fail, reads, lift, map_err}
use fstx.Base.Map.{BTreeMap}
use fstx.Base.Radix.{from_str_radix, to_digit}
use fstx.Base.Utf8.{is_utf8}
use fstx.Path.{to_ascii_lowercase}
use fstx.Path.Hex.{hex}
use fstx.Error.{Error}
use fstx.Vfs.{Vfs}
use fstx.Transaction.{
  Transaction, Method, write, write_with_mode, make_dir_all, rename_path, remove, remove_tree,
  read_path, exists,
}
use fstx.Changes.Text.{matches, replace_all}

pub record Expect : Type 0 where
  pub must_exist : Option Bool
  pub sha256 : Option (List ℕ)

-- A write has its path, its content, its content in base64, the file to copy, and its mode; a replacement
-- its path, the text to find, the new text and the count; a rename both paths.
pub data Op : Type 0 where
  write_op : List ℕ → Option (List ℕ) → Option (List ℕ) → Option (List ℕ) → Option (List ℕ) → Op
  replace_op : List ℕ → List ℕ → List ℕ → ℕ → Op
  mkdir_op : List ℕ → Op
  rename_op : List ℕ → List ℕ → Op
  remove_op remove_all_op : List ℕ → Op

pub record ChangeSet : Type 0 where
  pub expect : BTreeMap (List ℕ) Expect
  pub ops : List Op

pub data OpName : Type 0 where
  written replaced made_dir renamed removed removed_all : OpName

pub record Done : Type 0 where
  pub op : OpName
  pub path : List ℕ
  pub to : Option (List ℕ)

pub data FailKind : Type 0 where
  invalid_input refused io_failure : FailKind

unfoldable pub exit_code : FailKind → ℕ
exit_code refused = 1
exit_code invalid_input = 2
exit_code io_failure = 3

-- The messages, by what they show of the change set.
pub data Message : Type 0 where
  of_error : Error → Message
  does_not_exist already_there : List ℕ → Message
  hash_is : List ℕ → List ℕ → List ℕ → Message
  not_base64 no_from_file : List ℕ → Message
  needs_one_content mode_not_octal empty_find : Message
  not_text not_listed not_found not_copied : List ℕ → Message
  found_times : List ℕ → ℕ → ℕ → Message

pub record Failure : Type 0 where
  pub kind : FailKind
  pub failed_op : Option ℕ
  pub message : Message

unfoldable pub kind_of : Error → FailKind
kind_of (Error.io e) = io_failure
kind_of (Error.recovery_required tx reason) = io_failure
kind_of (Error.commit_outcome_unknown tx e) = io_failure
kind_of (Error.rollback_failed cause e) = io_failure
kind_of (Error.unsupported_filesystem missing) = io_failure
kind_of Error.unsupported_platform = io_failure
kind_of e = refused

unfoldable pub from_fstx : Option ℕ → Error → Failure
unfolding kind_of
from_fstx op e = record { kind = kind_of e; failed_op = op; message = Message.of_error e }

abbrev pub failure : FailKind → Option ℕ → Message → Failure
failure kind op message = record { kind = kind; failed_op = op; message = message }

-- `s.strip_prefix("0o").unwrap_or(s)`
unfoldable pub strip_octal : List ℕ → List ℕ
strip_octal (a ∷ b ∷ digits) = if a == b'0' && b == b'o' then digits else a ∷ b ∷ digits
strip_octal [] = []
strip_octal (a ∷ []) = a ∷ []

-- `u32::from_str_radix(_, 8)`, and at most `0o7777`.
unfoldable pub at_most_7777 : Option ℕ → Option ℕ
at_most_7777 none = none
at_most_7777 (some m) = if leb m 4095 then some m else none

unfoldable pub parse_mode : List ℕ → Option ℕ
unfolding strip_octal at_most_7777
parse_mode s = at_most_7777 (from_str_radix 8 4294967295 (strip_octal s))

-- What other packages and the system give: the SHA-256 digest, the base64 decoder, and the files that a
-- change set copies from.
pub record Outside : Type 0 where
  pub digest : List ℕ → List ℕ
  pub decode_base64 : List ℕ → Option (List ℕ)
  pub read_source : List ℕ → Option (List ℕ)

module _ (outside : Outside) where
  unfoldable pub sha256_hex : List ℕ → List ℕ
  sha256_hex bytes = hex (outside.digest bytes)

  -- Exactly one content.
  unfoldable pub content_of :
      ℕ → Option (List ℕ) → Option (List ℕ) → Option (List ℕ) → Result Failure (List ℕ)
  content_of i (some c) none none = ok c
  content_of i none (some b) none =
      ok_or (outside.decode_base64 b) (failure invalid_input (some i) (Message.not_base64 b))
  content_of i none none (some f) =
      ok_or (outside.read_source f) (failure refused (some i) (Message.no_from_file f))
  content_of i _ _ _ = err (failure invalid_input (some i) Message.needs_one_content)

  module _ (vfs : Vfs) where
    abbrev pub Staging : Type 0 → Type 0
    Staging = Action (vfs.State × Transaction) Failure

    abbrev pub method : {A : Type 0} → Option ℕ → Method vfs A → Staging A
    method op m = map_err (from_fstx op) m

    -- What a precondition says of whether the path exists.
    unfoldable pub check_exists : List ℕ → Option Bool → Bool → Result Failure (Unit {0})
    check_exists path none there = ok tt
    check_exists path (some true) true = ok tt
    check_exists path (some true) false = err (failure refused none (Message.does_not_exist path))
    check_exists path (some false) true = err (failure refused none (Message.already_there path))
    check_exists path (some false) false = ok tt

    unfoldable pub check_hash : List ℕ → List ℕ → List ℕ → Result Failure (Unit {0})
    unfolding sha256_hex
    check_hash path want bytes =
        if to_ascii_lowercase (sha256_hex bytes) == to_ascii_lowercase want
        then ok tt
        else err (failure refused none (Message.hash_is path (sha256_hex bytes) want))

    unfoldable pub check_sha256 : List ℕ → Option (List ℕ) → Bool → Staging (Unit {0})
    unfolding check_hash
    check_sha256 path none there = pure tt
    check_sha256 path (some want) false = fail (failure refused none (Message.does_not_exist path))
    check_sha256 path (some want) true = do
      bytes ← method none (read_path vfs path)
      lift (check_hash path want bytes)

    unfoldable pub check_expect : List ℕ → Expect → Staging (Unit {0})
    unfolding check_exists check_sha256
    check_expect path e = do
      there ← method none (exists vfs path)
      lift (check_exists path e.must_exist there)
      check_sha256 path e.sha256 there

    unfoldable pub check_expectations : BTreeMap (List ℕ) Expect → Staging (Unit {0})
    unfolding check_expect
    check_expectations [] = pure tt
    check_expectations ((path, e) ∷ rest) = do check_expect path e; check_expectations rest

    -- The mode, when there is one, has to be octal.
    unfoldable pub write_as : ℕ → List ℕ → List ℕ → Option (List ℕ) → Staging (Unit {0})
    unfolding parse_mode
    write_as i path bytes none = method (some i) (write vfs path bytes)
    write_as i path bytes (some m) = do
      mode ← lift (ok_or (parse_mode m) (failure invalid_input (some i) Message.mode_not_octal))
      method (some i) (write_with_mode vfs path bytes mode)

    unfoldable pub replaced_text :
        ℕ → List ℕ → List ℕ → List ℕ → ℕ → List ℕ → Result Failure (List ℕ)
    replaced_text i path find replace count bytes =
        if not (is_utf8 bytes)
        then err (failure refused (some i) (Message.not_text path))
        else if matches find bytes == count
        then ok (replace_all find replace bytes)
        else err (failure refused (some i) (Message.found_times path (matches find bytes) count))

    -- One op.
    unfoldable pub stage_op : ℕ → Op → Staging Done
    unfolding content_of write_as replaced_text
    stage_op i (write_op path content content_base64 from_file mode) = do
      bytes ← lift (content_of i content content_base64 from_file)
      write_as i path bytes mode
      pure (record { op = written; path = path; to = none })
    stage_op i (replace_op path find replace count) = do
      lift (fail_if (is_empty find) (failure invalid_input (some i) Message.empty_find))
      bytes ← method (some i) (read_path vfs path)
      text ← lift (replaced_text i path find replace count bytes)
      method (some i) (write vfs path text)
      pure (record { op = replaced; path = path; to = none })
    stage_op i (mkdir_op path) = do
      method (some i) (make_dir_all vfs path)
      pure (record { op = made_dir; path = path; to = none })
    stage_op i (rename_op from to) = do
      method (some i) (rename_path vfs from to)
      pure (record { op = renamed; path = from; to = some to })
    stage_op i (remove_op path) = do
      method (some i) (remove vfs path)
      pure (record { op = removed; path = path; to = none })
    stage_op i (remove_all_op path) = do
      method (some i) (remove_tree vfs path)
      pure (record { op = removed_all; path = path; to = none })

    unfoldable pub stage_ops : ℕ → List Op → Staging (List Done)
    unfolding stage_op
    stage_ops i [] = pure []
    stage_ops i (op ∷ ops) = do d ← stage_op i op; rest ← stage_ops (i + 1) ops; pure (d ∷ rest)

    unfoldable pub stage : ChangeSet → Staging (List Done)
    unfolding check_expectations stage_ops
    stage cs = do check_expectations cs.expect; stage_ops 0 cs.ops
