-- ===== src/Journal/Confined.antt =====
-- What a decoded journal is known to satisfy (src/journal.rs).
use fstx.Base.{
  ℕ, ◌≤◌, List, [], ◌∷◌, some, true, false, not, ◌==◌, nat_eq, list_eq, length, take, drop, ◌≡◌,
  ◌⊎◌, inl, inr, arith, Bool-cases, Result, ok, All, >>=-eq-ok, fail_if, ok_or, for_each, list_ord,
  nat_ord,
}
use fstx.Path.{Name, RelPath, is_root, is_private, private_dir_name}
use fstx.Path.Hex.{hex}
use fstx.Error.{Reason}
use fstx.Vfs.{FileId, file_id_eq}
use fstx.Plan.{Loc, Token}
use fstx.Plan.Validate.{validate}
use fstx.State.{backup_name, staged_name}
use fstx.Journal.{
  Journal, Codec, format_version, sep, is_own_private, check_location, check_token, check_journal,
  decode, rposition_sep, strip_newline,
}

-- A location in the tree, or one directly inside this transaction's `backup` or `staged`.
abbrev pub IsConfined : Name → RelPath → Type 0
IsConfined tx p =
    (is_private p ≡ false) × (is_root p ≡ false)
    ⊎ ((d : Name) × (n : Name) × (p ≡ private_dir_name ∷ tx ∷ d ∷ n ∷ [])
        × ((d ≡ backup_name) ⊎ (d ≡ staged_name)))

abbrev pub IsSafeToken : Name → Token → Type 0
IsSafeToken tx tok = (2 ≤ length tok.locs) × All (λ (loc : Loc). IsConfined tx loc.path) tok.locs

own_private_shape :
    (tx : Name) (p : RelPath)
    → is_own_private tx p ≡ true
    → (d : Name) × (n : Name) × (p ≡ private_dir_name ∷ tx ∷ d ∷ n ∷ [])
      × ((d ≡ backup_name) ⊎ (d ≡ staged_name))
unfolding is_own_private
own_private_shape tx (a ∷ b ∷ c ∷ d ∷ []) h = (c, d, ground arith, ground arith)
own_private_shape tx _ h = absurd (ground arith)

for_each-All :
    {A : Type 0} (P : A → Type 0) (f : A → Result Reason (Unit {0}))
    → ((a : A) → f a ≡ ok tt → P a)
    → (xs : List A) → for_each xs f ≡ ok tt
    → All P xs
for_each-All P f step [] h = tt
for_each-All P f step (x ∷ xs) h =
    let (u, here, rest) = >>=-eq-ok (f x) (λ _. for_each xs f) h in
    (step x here, for_each-All P f step xs rest)

check_location-IsConfined :
    (tx : Name) (loc : Loc) → check_location tx loc ≡ ok tt → IsConfined tx loc.path
unfolding check_location
check_location-IsConfined tx loc h = elim (Bool-cases (is_private loc.path)) [
  | inr outside ↦ inl (outside, ground arith)
  | inl inside ↦ inr (own_private_shape tx loc.path (ground arith))
]

check_token-IsSafeToken :
    (tx : Name) (tok : Token) → check_token tx tok ≡ ok tt → IsSafeToken tx tok
unfolding check_token
check_token-IsSafeToken tx tok h = (
  ground arith,
  for_each-All (λ (loc : Loc). IsConfined tx loc.path) (check_location tx)
      (check_location-IsConfined tx) tok.locs (ground arith),
)

-- A journal that passes the checks.
pub record IsChecked (tx : Name) (root : FileId) (j : Journal) : Type 0 where
  pub format : j.format ≡ format_version
  pub same_tx : j.tx ≡ tx
  pub same_root : j.root ≡ root
  pub tokens : All (IsSafeToken tx) j.plan.tokens
  pub valid : validate j.plan ≡ ok tt

pub check_journal-IsChecked :
    (tx : Name) (root : FileId) (j j' : Journal)
    → check_journal tx root j ≡ ok j'
    → (j' ≡ j) × IsChecked tx root j
unfolding check_journal
check_journal-IsChecked tx root j j' h = (
  ground arith,
  record {
    format = ground arith;
    same_tx = ground arith;
    same_root = ground arith;
    tokens =
        for_each-All (IsSafeToken tx) (check_token tx) (check_token-IsSafeToken tx) j.plan.tokens
          (ground arith);
    valid = ground arith;
  },
)

module _ (codec : Codec) where
  -- A journal that is accepted stands in front of the hash of its own bytes, is of this format,
  -- transaction and root, gives each token at least two locations, each of them outside the private
  -- area or in the transaction's own staged and backup directories, and has a validated plan.
  pub decode-IsChecked :
      (bytes : List ℕ) (tx : Name) (root : FileId) (j : Journal)
      → decode codec bytes tx root ≡ ok j
      → IsChecked tx root j
        × ((cut : ℕ) × (codec.from_slice (take cut bytes) ≡ some j)
            × (strip_newline (drop (length sep) (drop cut bytes))
                ≡ some (hex (codec.hash (take cut bytes)))))
  unfolding decode
  decode-IsChecked bytes tx root j h =
      let (cut, _, h1) = >>=-eq-ok (ok_or (rposition_sep bytes) Reason.no_checksum) _ h in
      let (sum, line, h2) =
        >>=-eq-ok (ok_or (strip_newline (drop (length sep) (drop cut bytes))) Reason.torn_checksum)
          _ h1 in
      let (_, same, h3) =
        >>=-eq-ok
          (fail_if (not (sum == hex (codec.hash (take cut bytes)))) Reason.checksum_mismatch) _
          h2 in
      let (k, read, h4) =
        >>=-eq-ok (ok_or (codec.from_slice (take cut bytes)) Reason.does_not_parse) _ h3 in
      let (e, checked) = check_journal-IsChecked tx root k j h4 in
      (rw e checked, (cut, ground arith, ground arith))
