-- ===== src/Overlay/Sound.antt =====
-- Every operation leaves each moved base entry detached from its base path (src/overlay.rs).
use fstx.Base.{
  ℕ, List, [], ◌∷◌, Option, true, nat_eq, list_eq, ◌≡◌, refl, sym, ap, ◌∙◌, inl, inr, arith, Result,
  ok, err, All, list_ord, nat_ord,
}
use fstx.Base.Action.{◌>>=◌, reads, lift, for_each}
use fstx.Base.Map.{BTreeMap, get, insert, contains_key, get-insert}
use mathlib.Core.Path.{subst}
use fstx.Path.{RelPath}
use fstx.Error.{Error}
use fstx.Vfs.{FileId}
use fstx.Overlay.{
  Overlay, Entry, Slot, absent, present, base, blob, new_dir, EKind, plain, directory,
  children_of_placed,
}
use fstx.Overlay.Edit.{
  Edit, place, detach, drop_placed_under, place_moved, move_entry, remove_entry,
}
use fstx.Overlay.ReadYourWrites.{detach_cases}
use fstx.Overlay.Invariant.{AllSlots, AllSlots-insert, remove_keys_keeps, place_moved_keeps}

-- A slot holds no base entry that is still at its base path.
abbrev pub IsGone : BTreeMap RelPath (FileId × EKind) → Slot → Type 0
IsGone detached slot =
    (e : Entry) (o : RelPath) (id : FileId) (mode : ℕ)
    → slot ≡ present e
    → e.source ≡ base o id mode
    → contains_key o detached ≡ true

-- The invariant, slot by slot.
abbrev pub IsSound : Overlay → Type 0
IsSound ov = AllSlots (IsGone ov.detached) ov.placed

IsGone-insert :
    (o : RelPath) (v : FileId × EKind) (m : BTreeMap RelPath (FileId × EKind)) (slot : Slot)
    → IsGone m slot
    → IsGone (insert o v m) slot
IsGone-insert o v m slot h e j id mode is src =
    let old = h e j id mode is src in let put = get-insert j o v m in ground arith

IsGone-detach :
    (e : Entry) (ov : Overlay) (slot : Slot)
    → IsGone ov.detached slot
    → IsGone (detach e ov).detached slot
IsGone-detach e ov slot h = elim (detach_cases e ov) [
  | inl same ↦ subst (λ (v : Overlay). IsGone v.detached slot) (sym same) h
  | inr (o, id, mode, src, same) ↦
      subst (λ (v : Overlay). IsGone v.detached slot) (sym same)
        (IsGone-insert o (id, e.kind) ov.detached slot h)
]

detach_keeps_placed : (e : Entry) (ov : Overlay) → (detach e ov).placed ≡ ov.placed
detach_keeps_placed e ov = elim (detach_cases e ov) [
  | inl same ↦ ap (λ (v : Overlay). v.placed) same
  | inr (o, id, mode, src, same) ↦ ap (λ (v : Overlay). v.placed) same
]

detach_base :
    (e : Entry) (ov : Overlay) (o : RelPath) (id : FileId) (mode : ℕ)
    → e.source ≡ base o id mode
    → detach e ov ≡ record ov { detached = insert o (id, e.kind) ov.detached }
unfolding detach
detach_base e ov o id mode h = rw h refl

present_entry : {e e' : Entry} → present e ≡ present e' → e ≡ e'
present_entry h = ground arith

contains_key-insert_self :
    (o : RelPath) (v : FileId × EKind) (m : BTreeMap RelPath (FileId × EKind))
    → contains_key o (insert o v m) ≡ true
contains_key-insert_self o v m = let put = get-insert o o v m in ground arith

detach_self : (e : Entry) (ov : Overlay) → IsGone (detach e ov).detached (present e)
detach_self e ov e' o id mode is src =
    let own : e.source ≡ base o id mode = ap (λ (x : Entry). x.source) (present_entry is) ∙ src in
    subst (λ (v : Overlay). contains_key o v.detached ≡ true) (sym (detach_base e ov o id mode own))
      (contains_key-insert_self o (id, e.kind) ov.detached)

pub IsSound-detach : (e : Entry) (ov : Overlay) → IsSound ov → IsSound (detach e ov)
IsSound-detach e ov h =
    let same = detach_keeps_placed e ov in
    λ k slot at. IsGone-detach e ov slot (h k slot (ap (get k) (sym same) ∙ at))

pub IsSound-place :
    (p : RelPath) (slot : Slot) (ov : Overlay)
    → IsGone ov.detached slot
    → IsSound ov
    → IsSound (place p slot ov)
IsSound-place p slot ov g h = AllSlots-insert (IsGone ov.detached) p slot ov.placed g h

IsGone-absent : (m : BTreeMap RelPath (FileId × EKind)) → IsGone m absent
IsGone-absent m e o id mode is src = cc

pub IsSound-remove_entry :
    (p : RelPath) (e : Entry) (ov : Overlay) → IsSound ov → IsSound (remove_entry p e ov)
unfolding remove_entry drop_placed_under
IsSound-remove_entry p e ov h =
    let dropped = (drop_placed_under p ov).1 in
    IsSound-detach e (place p absent dropped) (
      IsSound-place p absent dropped (IsGone-absent ov.detached)
        (remove_keys_keeps (IsGone ov.detached) (children_of_placed ov p) ov.placed h).1)

All-IsGone-detach :
    (e : Entry) (ov : Overlay) (moved : List (RelPath × Slot))
    → All (λ (x : RelPath × Slot). IsGone ov.detached x.1) moved
    → All (λ (x : RelPath × Slot). IsGone (detach e ov).detached x.1) moved
All-IsGone-detach e ov [] h = tt
All-IsGone-detach e ov (x ∷ moved) h =
    (IsGone-detach e ov x.1 h.0, All-IsGone-detach e ov moved h.1)

pub IsSound-move_entry :
    (from to : RelPath) (e : Entry) (ov : Overlay) → IsSound ov → IsSound (move_entry from to e ov)
unfolding move_entry drop_placed_under
IsSound-move_entry from to e ov h =
    let kept = remove_keys_keeps (IsGone ov.detached) (children_of_placed ov from) ov.placed h in
    let left = place from absent (drop_placed_under from ov).1 in
    let gone = detach e left in
    let moved = (drop_placed_under from ov).0 in
    let sound : IsSound gone = IsSound-detach e left (
      IsSound-place from absent (drop_placed_under from ov).1 (IsGone-absent ov.detached) kept.1) in
    AllSlots-insert (IsGone gone.detached) to (present e) (place_moved from to moved gone.placed)
      (detach_self e left)
      (place_moved_keeps (IsGone gone.detached) from to moved gone.placed
        (All-IsGone-detach e left moved kept.0) sound)

pub IsGone-blob :
    (n : ℕ) (mode : Option ℕ) (m : BTreeMap RelPath (FileId × EKind))
    → IsGone m (present (record { kind = plain; source = blob n mode }))
IsGone-blob n mode m e o id mode' is src = absurd (ground arith)

pub IsGone-new_dir :
    (n : ℕ) (m : BTreeMap RelPath (FileId × EKind))
    → IsGone m (present (record { kind = directory; source = new_dir n }))
IsGone-new_dir n m e o id mode' is src = absurd (ground arith)

-- What a chain of edits keeps.
abbrev pub Keeps : {A : Type 0} → Edit A → Type 0
Keeps m = (ov : Overlay) → IsSound ov → IsSound (m ov).1

module _ {A B : Type 0} where
  pub Keeps-bind :
      (m : Edit A) (k : A → Edit B) → Keeps m → ((a : A) → Keeps (k a)) → Keeps (m >>= k)
  Keeps-bind m k h f ov sound = step (m ov) (h ov sound)
    where
      step : (r : Result Error A × Overlay) → IsSound r.1 → IsSound (((λ _. r) >>= k) ov).1
      step (ok a, ov') sound' = f a ov' sound'
      step (err e, ov') sound' = sound'

pub Keeps-reads : {A : Type 0} (f : Overlay → Result Error A) → Keeps (reads f)
Keeps-reads f ov sound = sound

pub Keeps-lift : {A : Type 0} (r : Result Error A) → Keeps (lift r)
Keeps-lift r ov sound = sound

pub Keeps-for_each :
    (xs : List RelPath) (f : RelPath → Edit (Unit {0}))
    → ((x : RelPath) → Keeps (f x))
    → Keeps (for_each xs f)
Keeps-for_each [] f h ov sound = sound
Keeps-for_each (x ∷ xs) f h ov sound =
    Keeps-bind (f x) (λ _. for_each xs f) (h x) (λ _. Keeps-for_each xs f h) ov sound
