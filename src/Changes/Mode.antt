-- ===== src/Changes/Mode.antt =====
-- The modes that a change set may name (`parse_mode` of cli/src/changes.rs).
use mathlib.Core.Option.{some_inj}
use native.Mathlib.Decide.{ℕ_discrete}
use fstx.Base.{
  ℕ, ◌+◌, ◌*◌, ◌≤◌, ◌<◌, List, [], ◌∷◌, Option, none, some, Bool, true, false, ◌&&◌, leb, ◌==◌,
  nat_eq, list_eq, ◌≡◌, refl, ap, inl, inr, arith, Bool-cases, ==_iff, all_below, all_below_sound,
  list_ord, nat_ord,
}
use fstx.Base.Radix.{from_str_radix, digits, to_digit}
use fstx.Changes.{parse_mode, strip_octal, at_most_7777}

at_most_lem : (found : Option ℕ) (m : ℕ) → at_most_7777 found ≡ some m → m ≤ 4095
unfolding at_most_7777
at_most_lem none m h = cc
at_most_lem (some k) m h = elim (Bool-cases (leb k 4095)) [
  | inl le ↦ let same : k ≡ m = some_inj.0 (rw le at h) in ground arith
  | inr gt ↦ let no : ◌≡◌ {A = Option ℕ} none (some m) = rw gt at h in cc
]

reads_as : Option ℕ → ℕ → Bool
reads_as none v = false
reads_as (some m) v = m == v

reads_as_lem : (found : Option ℕ) (v : ℕ) → reads_as found v ≡ true → found ≡ some v
unfolding reads_as
reads_as_lem none v h = cc
reads_as_lem (some m) v h = ap some ((==_iff m v).0 h)

-- The two spellings of three digits.
octal : ℕ → ℕ → ℕ → Bool
octal a b c =
    reads_as (parse_mode ((48 + a) ∷ (48 + b) ∷ (48 + c) ∷ [])) ((a * 8 + b) * 8 + c)
    && reads_as (parse_mode (b'0' ∷ b'o' ∷ (48 + a) ∷ (48 + b) ∷ (48 + c) ∷ []))
        ((a * 8 + b) * 8 + c)

every_octal : all_below 8 (λ a. all_below 8 (λ b. all_below 8 (octal a b))) ≡ true
unfolding all_below octal reads_as parse_mode strip_octal at_most_7777 from_str_radix digits
    to_digit ℕ_discrete
every_octal = refl

octal_lem : (a b c : ℕ) → a < 8 → b < 8 → c < 8 → octal a b c ≡ true
octal_lem a b c p q r =
    all_below_sound 8 (octal a b) c
      (all_below_sound 8 (λ y. all_below 8 (octal a y)) b
        (all_below_sound 8 (λ x. all_below 8 (λ y. all_below 8 (octal x y))) a every_octal p) q)
      r

both_true : (x y : Bool) → (x && y) ≡ true → (x ≡ true) × (y ≡ true)
both_true true y h = (refl, h)
both_true false y h = cc

-- A mode that is accepted is at most `0o7777`, and three octal digits, with or without `0o` in front,
-- are accepted and read as a number to base eight.
pub parse_mode-octal :
    ((s : List ℕ) (m : ℕ) → parse_mode s ≡ some m → m ≤ 4095)
    × ((a b c : ℕ)
        → a < 8
        → b < 8
        → c < 8
        → (parse_mode ((48 + a) ∷ (48 + b) ∷ (48 + c) ∷ []) ≡ some ((a * 8 + b) * 8 + c))
          × (parse_mode (b'0' ∷ b'o' ∷ (48 + a) ∷ (48 + b) ∷ (48 + c) ∷ [])
              ≡ some ((a * 8 + b) * 8 + c)))
unfolding octal
parse_mode-octal = (
  λ s m. unfold parse_mode in (at_most_lem (from_str_radix 8 4294967295 (strip_octal s)) m),
  λ a b c p q r.
      let (plain, marked) =
        both_true
          (reads_as (parse_mode ((48 + a) ∷ (48 + b) ∷ (48 + c) ∷ [])) ((a * 8 + b) * 8 + c))
          (reads_as (parse_mode (b'0' ∷ b'o' ∷ (48 + a) ∷ (48 + b) ∷ (48 + c) ∷ []))
            ((a * 8 + b) * 8 + c))
          (octal_lem a b c p q r) in
      (
        reads_as_lem (parse_mode ((48 + a) ∷ (48 + b) ∷ (48 + c) ∷ [])) ((a * 8 + b) * 8 + c) plain,
        reads_as_lem (parse_mode (b'0' ∷ b'o' ∷ (48 + a) ∷ (48 + b) ∷ (48 + c) ∷ []))
            ((a * 8 + b) * 8 + c) marked,
      ),
)
