-- ===== src/Overlay/Above.antt =====
-- What a write at a path changes for the other paths (src/overlay.rs).
use fstx.Base.{
  ℕ, ◌+◌, ◌<◌, List, [], ◌∷◌, Option, none, some, true, false, nat_eq, list_eq, length, ◌≡◌, refl,
  sym, ap, ◌∙◌, ◌≢◌, ◌⊎◌, inl, inr, arith, Bool-cases, Option-cases, Result, ok, err, ◌>>=◌,
  length-append, >>=-eq-ok, list_ord, nat_ord,
}
use fstx.Base.Map.{get, contains_key}
use fstx.Path.{Name, RelPath, join, parent_or_root, is_private}
use fstx.Error.{Error, ErrorKind}
use fstx.Vfs.{Vfs, FileId, Meta}
use fstx.Overlay.{
  Overlay, Entry, absent, present, Src, base, blob, new_dir, is_dir, resolve_name, resolve_from,
  inherit, base_lookup, from_io, stat_base, lookup_exact, ekind,
}
use fstx.Overlay.Resolve.{resolve_from_inv, resolve_from_of, is_dir_of_resolve}

-- Each base entry that was moved to a place in the view is detached from its base path.
abbrev pub IsDetached : Overlay → Type 0
IsDetached ov =
    (k : RelPath) (e : Entry) (o : RelPath) (id : FileId) (mode : ℕ)
    → get k ov.placed ≡ some (present e)
    → e.source ≡ base o id mode
    → contains_key o ov.detached ≡ true

true_is_false : true ≡ false → ⊥
true_is_false h = cc

flat_dir :
    (e e' : Entry)
    → ◌≡◌ {A = Result Error (Option Entry)} (ok (some e)) (ok (some e'))
    → is_dir e.kind ≡ true
    → is_dir e'.kind ≡ false
    → ⊥
flat_dir e e' h k flat = ground arith

base_path :
    (b o : RelPath) {id id' : FileId} {mode mode' : ℕ} → base b id mode ≡ base o id' mode' → b ≡ o
base_path b o h = ground arith

module _ (vfs : Vfs) (s : vfs.State) where
  stat_base-source :
      (b : RelPath) (e : Entry)
      → stat_base vfs s b ≡ ok (some e)
      → (id : FileId) × (mode : ℕ) × (e.source ≡ base b id mode)
  stat_base-source b e h = unfold stat_base in of_stat (vfs.stat b s) h
    where
      of_stat :
          (r : Result ErrorKind (Option Meta))
          → (from_io r >>= λ found. elim found [
            | none ↦ ok none
            | some m ↦ ok (some (record { kind = ekind m.kind; source = base b m.id m.mode }))
          ])
            ≡ ok (some e)
          → (id : FileId) × (mode : ℕ) × (e.source ≡ base b id mode)
      of_stat (ok (some m)) h = (m.id, m.mode, ground arith)
      of_stat (ok none) h = cc
      of_stat (err x) h = cc

  lookup_exact-source :
      (b : RelPath) (names : List Name) (e : Entry)
      → lookup_exact vfs s b names ≡ ok (some e)
      → (id : FileId) × (mode : ℕ) × (e.source ≡ base b id mode)
  lookup_exact-source b names e h = stat_base-source b e (unfold lookup_exact in (ground arith))

  base_lookup-source :
      (ov : Overlay) (b : RelPath) (e : Entry)
      → base_lookup vfs s ov b ≡ ok (some e)
      → (id : FileId) × (mode : ℕ) × (e.source ≡ base b id mode)
  unfolding base_lookup
  base_lookup-source ov b e h = elim (Bool-cases (is_private b)) [
    | inl hidden ↦ absurd (ground arith)
    | inr seen ↦ elim (Bool-cases ov.case_insensitive) [
      | inr exact ↦ stat_base-source b e (ground arith)
      | inl folds ↦
          let (names, _, found) =
            >>=-eq-ok (from_io (vfs.read_dir (parent_or_root b) s)) (lookup_exact vfs s b)
              (ground arith) in
          lookup_exact-source b names e found
    ]
  ]

  module _ (ov : Overlay) where
    inherit_lookup :
        (src : Src) (c : Name) (e : Entry) (o : RelPath) (id : FileId) (mode : ℕ)
        → inherit vfs s ov src c ≡ ok (some e)
        → e.source ≡ base o id mode
        → base_lookup vfs s ov o ≡ ok (some e)
    unfolding inherit
    inherit_lookup (base origin id' mode') c e o id mode h own =
        let looked_up : base_lookup vfs s ov (join origin c) ≡ ok (some e) = ground arith in
        let (id'', mode'', own') = base_lookup-source ov (join origin c) e looked_up in
        let same : join origin c ≡ o = base_path (join origin c) o (sym own' ∙ own) in
        ap (base_lookup vfs s ov) (sym same) ∙ looked_up
    inherit_lookup (blob n mode') c e o id mode h own = cc
    inherit_lookup (new_dir n) c e o id mode h own = cc

    -- Where a base entry that is found comes from: its base path was looked up, or it was placed.
    pub found_source :
        (cur : Entry) (view : RelPath) (c : Name) (e : Entry) (o : RelPath) (id : FileId) (mode : ℕ)
        → IsDetached ov
        → resolve_name vfs s ov cur view c ≡ ok (some e)
        → e.source ≡ base o id mode
        → (contains_key o ov.detached ≡ true) ⊎ (base_lookup vfs s ov o ≡ ok (some e))
    unfolding resolve_name
    found_source cur view c e o id mode d h src =
        elim (Option-cases (get (join view c) ov.placed)) [
          | inr (present e', at_view) ↦ inl (d (join view c) e o id mode (ground arith) src)
          | inr (absent, at_view) ↦ absurd (ground arith)
          | inl free ↦ inr (inherit_lookup cur.source c e o id mode (ground arith) src)
        ]

  -- A view after a write at `p`, as far as the other paths can tell.
  pub record IsWrittenAt (p : RelPath) (ov ov' : Overlay) : Type 0 where
    pub elsewhere : (k : RelPath) → k ≢ p → get k ov'.placed ≡ get k ov.placed
    pub same_root : ov'.root_id ≡ ov.root_id
    pub same_case : ov'.case_insensitive ≡ ov.case_insensitive
    pub newly_detached :
        (o : RelPath)
        → contains_key o ov'.detached ≡ true
        → (contains_key o ov.detached ≡ true)
          ⊎ ((e : Entry) × (base_lookup vfs s ov o ≡ ok (some e)) × (is_dir e.kind ≡ false))

  module _ (p : RelPath) (ov ov' : Overlay) (w : IsWrittenAt p ov ov') where
    base_lookup_same : (b : RelPath) → base_lookup vfs s ov' b ≡ base_lookup vfs s ov b
    unfolding base_lookup
    base_lookup_same b = rw w.same_case refl

    stays_attached :
        (o : RelPath) (e : Entry)
        → contains_key o ov.detached ≡ false
        → base_lookup vfs s ov o ≡ ok (some e)
        → is_dir e.kind ≡ true
        → contains_key o ov'.detached ≡ false
    stays_attached o e kept found k = elim (Bool-cases (contains_key o ov'.detached)) [
      | inr free ↦ free
      | inl gone ↦ elim (w.newly_detached o gone) [
        | inl before ↦ absurd (true_is_false (sym before ∙ kept))
        | inr (e', found', flat) ↦ absurd (flat_dir e e' (sym found ∙ found') k flat)
      ]
    ]

    inherit_same :
        (src : Src) (c : Name) (e : Entry)
        → inherit vfs s ov src c ≡ ok (some e)
        → is_dir e.kind ≡ true
        → inherit vfs s ov' src c ≡ ok (some e)
    unfolding inherit
    inherit_same (base origin id mode) c e h k =
        let kept : contains_key (join origin c) ov.detached ≡ false = ground arith in
        let found : base_lookup vfs s ov (join origin c) ≡ ok (some e) = ground arith in
        let kept' = stays_attached (join origin c) e kept found k in
        let found' = base_lookup_same (join origin c) ∙ found in ground arith
    inherit_same (blob n mode) c e h k = cc
    inherit_same (new_dir n) c e h k = cc

    resolve_name_same :
        (cur : Entry) (view : RelPath) (c : Name) (e : Entry)
        → join view c ≢ p
        → resolve_name vfs s ov cur view c ≡ ok (some e)
        → is_dir e.kind ≡ true
        → resolve_name vfs s ov' cur view c ≡ ok (some e)
    unfolding resolve_name
    resolve_name_same cur view c e other h k =
        let same = w.elsewhere (join view c) other in
        elim (Option-cases (get (join view c) ov.placed)) [
          | inr (slot, at_view) ↦ ground arith
          | inl free ↦ let kept = inherit_same cur.source c e (ground arith) k in ground arith
        ]

    longer : (view : RelPath) (c : Name) → length view + 1 < length p → join view c ≢ p
    unfolding join
    longer view c short same =
        let n = ap length same in let m = length-append view (c ∷ []) in absurd (omega arith)

    -- The directories above the written path resolve as before.
    pub resolve_from_same :
        (q : RelPath) (cur : Entry) (view : RelPath) (d : Entry)
        → length view + length q < length p
        → resolve_from vfs s ov cur view q ≡ ok (some d)
        → is_dir d.kind ≡ true
        → resolve_from vfs s ov' cur view q ≡ ok (some d)
    resolve_from_same [] cur view d short h k = unfold resolve_from in h
    resolve_from_same (c ∷ q) cur view d short h k =
        let (e, here, rest) = resolve_from_inv vfs s ov cur view c q d h in
        let is_above = is_dir_of_resolve vfs s ov q e (join view c) d rest k in
        let n : length (join view c) ≡ length view + 1 =
          unfold join in length-append view (c ∷ []) in
        let here' = resolve_name_same cur view c e (longer view c (omega arith)) here is_above in
        resolve_from_of vfs s ov' cur view c q e here'
        ∙ resolve_from_same q e (join view c) d (omega arith) rest k
