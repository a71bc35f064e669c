-- ===== src/Overlay/Invariant.antt =====
-- What holds of every slot of the view still holds after the loops that move slots
-- (src/overlay.rs).
use fstx.Base.{
  List, [], ◌∷◌, Option, none, some, ◌==◌, nat_eq, list_eq, ◌≡◌, refl, sym, inl, inr, arith,
  Bool-cases, All, list_ord, nat_ord,
}
use mathlib.Core.Path.{subst}
use fstx.Base.Map.{BTreeMap, get, insert, remove, get-insert, get-remove}
use fstx.Path.{RelPath, strip_prefix, join_path}
use fstx.Overlay.{Slot}
use fstx.Overlay.Edit.{remove_keys, place_moved}

module _ (Q : Slot → Type 0) where
  abbrev pub AllSlots : BTreeMap RelPath Slot → Type 0
  AllSlots m = (k : RelPath) (slot : Slot) → get k m ≡ some slot → Q slot

  pub AllSlots-insert :
      (p : RelPath) (slot : Slot) (m : BTreeMap RelPath Slot)
      → Q slot
      → AllSlots m
      → AllSlots (insert p slot m)
  AllSlots-insert p slot m q h k found e =
      let put = get-insert k p slot m in
      elim (Bool-cases (k == p)) [
        | inl same ↦ let it : slot ≡ found = ground arith in subst Q it q
        | inr other ↦ h k found (ground arith)
      ]

  AllSlots-remove : (p : RelPath) (m : BTreeMap RelPath Slot) → AllSlots m → AllSlots (remove p m)
  AllSlots-remove p m h k found e = let cut = get-remove k p m in h k found (ground arith)

  abbrev Taken : Type 0
  Taken = List (RelPath × Slot) × BTreeMap RelPath Slot

  abbrev pub TakenKeeps : Taken → Type 0
  TakenKeeps t = All (λ (x : RelPath × Slot). Q x.1) t.0 × AllSlots t.1

  -- One turn of the loop that takes the keys out.
  abbrev take_one : RelPath → Option Slot → Taken → Taken
  take_one k (some slot) t = ((k, slot) ∷ t.0, t.1)
  take_one k none t = t

  take_one_keeps :
      (k : RelPath) (found : Option Slot) (t : Taken)
      → ((slot : Slot) → found ≡ some slot → Q slot)
      → TakenKeeps t
      → TakenKeeps (take_one k found t)
  take_one_keeps k (some slot) t q h = ((q slot refl, h.0), h.1)
  take_one_keeps k none t q h = h

  remove_keys_step :
      (k : RelPath) (ks : List RelPath) (m : BTreeMap RelPath Slot)
      → remove_keys (k ∷ ks) m ≡ take_one k (get k m) (remove_keys ks (remove k m))
  remove_keys_step k ks m = unfold remove_keys in same (get k m) (remove_keys ks (remove k m))
    where
      same :
          (found : Option Slot) (t : Taken)
          → (elim found [ some slot ↦ ((k, slot) ∷ t.0, t.1) | none ↦ (t.0, t.1) ])
            ≡ take_one k found t
      same (some slot) t = refl
      same none t = refl

  pub remove_keys_keeps :
      (ks : List RelPath) (m : BTreeMap RelPath Slot) → AllSlots m → TakenKeeps (remove_keys ks m)
  remove_keys_keeps [] m h = unfold remove_keys in (tt, h)
  remove_keys_keeps (k ∷ ks) m h = subst TakenKeeps (sym (remove_keys_step k ks m)) (
      take_one_keeps k (get k m) (remove_keys ks (remove k m)) (λ slot e. h k slot e)
        (remove_keys_keeps ks (remove k m) (AllSlots-remove k m h)))

  abbrev put_moved :
      RelPath
      → RelPath
      → List (RelPath × Slot)
      → BTreeMap RelPath Slot
      → Slot
      → Option RelPath
      → BTreeMap RelPath Slot
  put_moved from to moved m slot (some rest) =
      place_moved from to moved (insert (join_path to rest) slot m)
  put_moved from to moved m slot none = place_moved from to moved m

  place_moved_step :
      (from to k : RelPath) (slot : Slot) (moved : List (RelPath × Slot))
      (m : BTreeMap RelPath Slot)
      → place_moved from to ((k, slot) ∷ moved) m
        ≡ put_moved from to moved m slot (strip_prefix k from)
  place_moved_step from to k slot moved m = unfold place_moved in same (strip_prefix k from)
    where
      same :
          (r : Option RelPath)
          → (elim r [
            | some rest ↦ place_moved from to moved (insert (join_path to rest) slot m)
            | none ↦ place_moved from to moved m
          ])
            ≡ put_moved from to moved m slot r
      same (some rest) = refl
      same none = refl

  put_moved_keeps :
      (from to : RelPath) (moved : List (RelPath × Slot)) (m : BTreeMap RelPath Slot) (slot : Slot)
      (r : Option RelPath)
      → ((m' : BTreeMap RelPath Slot) → AllSlots m' → AllSlots (place_moved from to moved m'))
      → Q slot
      → AllSlots m
      → AllSlots (put_moved from to moved m slot r)
  put_moved_keeps from to moved m slot (some rest) f q h =
      f (insert (join_path to rest) slot m) (AllSlots-insert (join_path to rest) slot m q h)
  put_moved_keeps from to moved m slot none f q h = f m h

  pub place_moved_keeps :
      (from to : RelPath) (moved : List (RelPath × Slot)) (m : BTreeMap RelPath Slot)
      → All (λ (x : RelPath × Slot). Q x.1) moved
      → AllSlots m
      → AllSlots (place_moved from to moved m)
  place_moved_keeps from to [] m a h = unfold place_moved in h
  place_moved_keeps from to ((k, slot) ∷ moved) m a h =
      subst AllSlots (sym (place_moved_step from to k slot moved m)) (
        put_moved_keeps from to moved m slot (strip_prefix k from)
          (λ m'. place_moved_keeps from to moved m' a.1) a.0 h)
