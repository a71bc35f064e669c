-- ===== src/Sim/Torn.antt =====
-- What may be on disk of a file that was only appended to (`data_variant` of src/sim.rs).
use fstx.Base.{
  ℕ, suc, zero, List, [], ◌∷◌, ◌++◌, some, ◌≡◌, refl, sym, ap, ◌∙◌, ◌/◌, ◌%◌, length, take, arith,
  nat_eq,
}
use mathlib.Core.List.{append-nil}
use fstx.Sim.Crash.{data_variant, strip_prefix, variant_by, variant_of, garbage}

strip_prefix-append : (old tail : List ℕ) → strip_prefix old (old ++ tail) ≡ some tail
unfolding strip_prefix
strip_prefix-append [] tail = refl
strip_prefix-append (x ∷ old) tail = ground (arith, strip_prefix-append old tail)

variant_lem :
    (n : ℕ) (old tail : List ℕ)
    → (rest : List ℕ) × (variant_of n old (old ++ tail) old tail ≡ old ++ rest)
unfolding variant_of
variant_lem zero old tail = ([], sym (append-nil old))
variant_lem (suc zero) old tail = (tail, refl)
variant_lem (suc (suc zero)) old tail = (take (length tail / 2) tail, refl)
variant_lem (suc (suc (suc n))) old tail = (garbage tail, refl)

-- Whatever the seed, what may be on disk of a file that was appended to since it was synced starts
-- with the synced data.
pub data_variant-append :
    (old tail : List ℕ) (seed : ℕ)
    → (rest : List ℕ) × (data_variant old (old ++ tail) seed ≡ old ++ rest)
unfolding data_variant variant_by
data_variant-append old tail seed =
    let (rest, same) = variant_lem (seed % 4) old tail in
    (rest, ap (λ t. variant_by t old (old ++ tail) seed) (strip_prefix-append old tail) ∙ same)
