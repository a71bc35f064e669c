-- ===== src/Overlay/ReadYourWrites.antt =====
-- A file that is written is there, and its data is what is read back (src/overlay.rs).
use fstx.Base.{
  ℕ, ◌+◌, ◌-◌, ◌<◌, [], ◌∷◌, ◌++◌, Option, none, some, true, nat_eq, list_eq, length, take, ◌≡◌,
  refl, sym, ap, ◌∙◌, ◌≢◌, ◌⊎◌, inl, inr, arith, Result, ok, err, length-append, ok-injective,
  list_ord, nat_ord,
}
use fstx.Base.Map.{BTreeMap, get, insert, contains_key, get-insert}
use fstx.Path.{Name, RelPath, root, join, parent_or_root, parent, file_name}
use fstx.Error.{Error}
use fstx.Vfs.{Vfs, FileId}
use fstx.Overlay.{
  Overlay, Entry, Slot, present, Src, base, blob, new_dir, EKind, plain, is_dir, resolve_name,
  resolve_from, resolve, root_entry, base_lookup, from_io, last_name, check_write,
}
use fstx.Overlay.Edit.{detach, place, apply_write, read}
use fstx.Overlay.CheckWrite.{IsFlat, require_parent_dir_inv, check_write_inv}
use fstx.Overlay.Resolve.{resolve_from-append}
use fstx.Overlay.Above.{IsDetached, IsWrittenAt, found_source, resolve_from_same}

take-last :
    (c : Name) (cs : RelPath) → take (length cs) (c ∷ cs) ++ (last_name (c ∷ cs) ∷ []) ≡ c ∷ cs
unfolding file_name
take-last c [] = refl
take-last c (d ∷ cs) = ap (λ p. c ∷ p) (take-last d cs)

parent-last :
    (c : Name) (cs : RelPath) → join (parent_or_root (c ∷ cs)) (last_name (c ∷ cs)) ≡ c ∷ cs
unfolding parent_or_root parent join
parent-last c cs = let n : length (c ∷ cs) - 1 ≡ length cs = omega arith in rw n (take-last c cs)

pub detach_cases :
    (e : Entry) (ov : Overlay)
    → (detach e ov ≡ ov)
      ⊎ ((o : RelPath) × (id : FileId) × (mode : ℕ) × (e.source ≡ base o id mode)
          × (detach e ov ≡ record ov { detached = insert o (id, e.kind) ov.detached }))
unfolding detach
detach_cases e ov = go e.source refl
  where
    go :
        (src : Src)
        → e.source ≡ src
        → (detach e ov ≡ ov)
          ⊎ ((o : RelPath) × (id : FileId) × (mode : ℕ) × (e.source ≡ base o id mode)
              × (detach e ov ≡ record ov { detached = insert o (id, e.kind) ov.detached }))
    go (base o id mode) h = inr (o, id, mode, h, rw h refl)
    go (blob n mode) h = inl (rw h refl)
    go (new_dir n) h = inl (rw h refl)

contains_key-insert :
    (j k : RelPath) (v : FileId × EKind) (m : BTreeMap RelPath (FileId × EKind))
    → contains_key j (insert k v m) ≡ true
    → (j ≡ k) ⊎ (contains_key j m ≡ true)
contains_key-insert j k v m h = let found = get-insert j k v m in ground arith

module _ (vfs : Vfs) (s : vfs.State) (ov : Overlay) (p : RelPath) where
  -- The last name of the path is looked up in its parent's entry.
  resolve-last :
      (view : Overlay) (c : Name) (cs : RelPath) (d : Entry)
      → p ≡ c ∷ cs
      → resolve vfs s view (parent_or_root p) ≡ ok (some d)
      → resolve vfs s view p ≡ resolve_name vfs s view d (parent_or_root p) (last_name p)
  resolve-last view c cs d is_p h =
      let path : join (parent_or_root p) (last_name p) ≡ p = rw is_p (parent-last c cs) in
      ap (resolve vfs s view) (sym path)
      ∙ unfold resolve join in
        (resolve_from-append vfs s view (parent_or_root p) (root_entry view) root (last_name p) d h)

  abbrev withdraw : Option Entry → Overlay
  withdraw none = ov
  withdraw (some e) = detach e ov

  abbrev rewritten : Slot → Option Entry → Overlay
  rewritten slot found = place p slot (withdraw found)

  -- What the overwritten entry was: its base path, if it has one, is detached or was looked up.
  abbrev IsKnown : Option Entry → Type 0
  IsKnown none = Unit
  IsKnown (some e) =
      (o : RelPath) (id : FileId) (mode : ℕ)
      → e.source ≡ base o id mode
      → (contains_key o ov.detached ≡ true) ⊎ (base_lookup vfs s ov o ≡ ok (some e))

  elsewhere_of :
      (slot : Slot) (placed : BTreeMap RelPath Slot) (k : RelPath)
      → k ≢ p
      → get k (insert p slot placed) ≡ get k placed
  elsewhere_of slot placed k other = let found = get-insert k p slot placed in ground arith

  IsWrittenAt-rewritten :
      (slot : Slot) (found : Option Entry)
      → IsFlat found
      → IsKnown found
      → IsWrittenAt vfs s p ov (rewritten slot found)
  IsWrittenAt-rewritten slot none flat known = record {
    elsewhere = elsewhere_of slot ov.placed;
    same_root = refl;
    same_case = refl;
    newly_detached = λ o h. inl h;
  }
  IsWrittenAt-rewritten slot (some e) flat known = elim (detach_cases e ov) [
    | inl same ↦ rw same (record {
      elsewhere = elsewhere_of slot ov.placed;
      same_root = refl;
      same_case = refl;
      newly_detached = λ o h. inl h;
    })
    | inr (o, id, mode, src, same) ↦ rw same (record {
      elsewhere = elsewhere_of slot ov.placed;
      same_root = refl;
      same_case = refl;
      newly_detached = λ j h. elim (contains_key-insert j o (id, e.kind) ov.detached h) [
        | inr before ↦ inl before
        | inl at_o ↦ elim (known o id mode src) [
          | inl before ↦ inl (rw at_o before)
          | inr looked_up ↦ inr (e, ap (base_lookup vfs s ov) at_o ∙ looked_up, flat)
        ]
      ];
    })
  ]

  source-IsKnown :
      (found : Option Entry) (c : Name) (cs : RelPath) (d : Entry)
      → IsDetached ov
      → p ≡ c ∷ cs
      → resolve vfs s ov (parent_or_root p) ≡ ok (some d)
      → resolve vfs s ov p ≡ ok found
      → IsKnown found
  source-IsKnown none c cs d det is_p up here = tt
  source-IsKnown (some e) c cs d det is_p up here = λ o id mode src.
      found_source vfs s ov d (parent_or_root p) (last_name p) e o id mode det
        (sym (resolve-last ov c cs d is_p up) ∙ here) src

  placed_is_found :
      (e d : Entry) (c : Name) (cs : RelPath) (view : Overlay) (m : BTreeMap RelPath Slot)
      → p ≡ c ∷ cs
      → view.placed ≡ insert p (present e) m
      → is_dir d.kind ≡ true
      → resolve_name vfs s view d (parent_or_root p) (last_name p) ≡ ok (some e)
  unfolding resolve_name
  placed_is_found e d c cs view m is_p put k =
      let path : join (parent_or_root p) (last_name p) ≡ p = rw is_p (parent-last c cs) in
      let found = get-insert p p (present e) m in
      let here : get (join (parent_or_root p) (last_name p)) view.placed ≡ some (present e) =
        rw (path, put) (ground arith) in
      ground arith

  resolve_same_root :
      (view : Overlay) (q : RelPath)
      → view.root_id ≡ ov.root_id
      → resolve vfs s view q ≡ resolve_from vfs s view (root_entry ov) root q
  unfolding resolve root_entry
  resolve_same_root view q same = rw same refl

  length-parent : (c : Name) (cs : RelPath) → p ≡ c ∷ cs → length (parent_or_root p) < length p
  length-parent c cs is_p =
      let path : join (parent_or_root p) (last_name p) ≡ p = rw is_p (parent-last c cs) in
      let n : length (join (parent_or_root p) (last_name p)) ≡ length (parent_or_root p) + 1 =
        unfold join in (length-append (parent_or_root p) (last_name p ∷ [])) in
      let m : length (join (parent_or_root p) (last_name p)) ≡ length p = ap length path in
      omega arith

  resolves_after :
      (found : Option Entry) (e d : Entry) (c : Name) (cs : RelPath)
      → IsDetached ov
      → p ≡ c ∷ cs
      → resolve vfs s ov (parent_or_root p) ≡ ok (some d)
      → is_dir d.kind ≡ true
      → resolve vfs s ov p ≡ ok found
      → IsFlat found
      → resolve vfs s (rewritten (present e) found) p ≡ ok (some e)
  resolves_after found e d c cs det is_p up k here flat =
      let view = rewritten (present e) found in
      let w =
        IsWrittenAt-rewritten (present e) found flat
          (source-IsKnown found c cs d det is_p up here) in
      let up0 = sym (resolve_same_root ov (parent_or_root p) refl) ∙ up in
      let up1 =
        resolve_from_same vfs s p ov view w (parent_or_root p) (root_entry ov) root d
          (let n = length-parent c cs is_p in omega arith) up0 k in
      let up2 = resolve_same_root view (parent_or_root p) w.same_root ∙ up1 in
      resolve-last view c cs d is_p up2
      ∙ placed_is_found e d c cs view (withdraw found).placed is_p refl k

abbrev pub written : ℕ → Option ℕ → Entry
written n mode = record { kind = plain; source = blob n mode }

module _ (vfs : Vfs) (s : vfs.State) (ov : Overlay) where
  -- The last part of `apply_write`.
  abbrev finish_write :
      RelPath → ℕ → Option ℕ → Result Error (Option Entry) → Result Error (Unit {0}) × Overlay
  finish_write p n mode (ok a) = (ok tt, rewritten vfs s ov p (present (written n mode)) a)
  finish_write p n mode (err e) = (err e, ov)

  apply_write_of :
      (p : RelPath) (n : ℕ) (mode : Option ℕ) (found : Option Entry)
      (r : Result Error (Option Entry))
      → r ≡ ok found
      → finish_write p n mode r ≡ (ok tt, rewritten vfs s ov p (present (written n mode)) found)
  apply_write_of p n mode found (ok a) h =
      ap (λ a. (ok tt, rewritten vfs s ov p (present (written n mode)) a)) (ok-injective h)
  apply_write_of p n mode found (err e) h = cc

  apply_write_run :
      (p : RelPath) (n : ℕ) (mode : Option ℕ) (found : Option Entry)
      → resolve vfs s ov p ≡ ok found
      → apply_write vfs s p n mode ov
        ≡ (ok tt, rewritten vfs s ov p (present (written n mode)) found)
  unfolding apply_write
  apply_write_run p n mode found h = apply_write_of p n mode found (resolve vfs s ov p) h

  read_run :
      (blob_path : ℕ → RelPath) (p : RelPath) (n : ℕ) (mode : Option ℕ) (view : Overlay)
      → resolve vfs s view p ≡ ok (some (written n mode))
      → read vfs s blob_path p view ≡ from_io (vfs.read_file (blob_path n) s)
  unfolding read
  read_run blob_path p n mode view h = rw (h, read) refl

  root_is_refused : (inherited : Option ℕ) → check_write vfs s ov [] ≡ ok inherited → ⊥
  root_is_refused inherited h =
      let (d, found, _, here, flat) = check_write_inv vfs s ov [] inherited h in
      not_flat found (sym here ∙ unfold resolve resolve_from in refl) flat
    where
      not_flat :
          (found : Option Entry)
          → ◌≡◌ {A = Result Error (Option Entry)} (ok found) (ok (some (root_entry ov)))
          → IsFlat found
          → ⊥
      not_flat none h flat = cc
      not_flat (some e) h flat = unfold root_entry in (ground arith)

  -- Where every moved base entry is detached from its base path and `check_write` accepts the path,
  -- `apply_write` succeeds, the path resolves to the staged file right after it, and reading it gives
  -- what reading the staged file gives.
  pub apply_write-resolve :
      (blob_path : ℕ → RelPath) (p : RelPath) (n : ℕ) (mode inherited : Option ℕ)
      → IsDetached ov
      → check_write vfs s ov p ≡ ok inherited
      → ((apply_write vfs s p n mode ov).0 ≡ ok tt)
        × (resolve vfs s (apply_write vfs s p n mode ov).1 p ≡ ok (some (written n mode)))
        × (read vfs s blob_path p (apply_write vfs s p n mode ov).1
            ≡ from_io (vfs.read_file (blob_path n) s))
  apply_write-resolve blob_path [] n mode inherited det h = absurd (root_is_refused inherited h)
  apply_write-resolve blob_path (c ∷ cs) n mode inherited det h =
      let p = c ∷ cs in
      let (d, found, up, here, flat) = check_write_inv vfs s ov p inherited h in
      let (up', k) = require_parent_dir_inv vfs s ov p d up in
      let run = apply_write_run p n mode found here in
      let there =
        resolves_after vfs s ov p found (written n mode) d c cs det refl up' k here flat in
      (
        ap (λ r. r.0) run,
        ap (λ r. resolve vfs s r.1 p) run ∙ there,
        ap (λ r. read vfs s blob_path p r.1) run
            ∙ read_run blob_path p n mode (rewritten vfs s ov p (present (written n mode)) found)
                there,
      )
