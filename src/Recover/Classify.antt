-- ===== src/Recover/Classify.antt =====
-- Classification finds a token exactly where its identity is (src/recover.rs).
use fstx.Base.{
  contains-append, ℕ, zero, suc, ◌+◌, List, [], ◌∷◌, none, some, true, ◌&&◌, ◌==◌, nat_eq, list_eq,
  contains, ◌≡◌, refl, sym, ap, ◌∙◌, ◌⊎◌, inl, inr, arith, Bool-cases, Result, ok, err, get_elem?,
  ok-injective, >>=-eq-ok, list_ord, nat_ord,
}
use fstx.Error.{Reason}
use fstx.Vfs.{Vfs, FileId, Meta, Probe, parent_mismatch, missing, present, file_id_eq, kind_eq}
use fstx.Plan.{Loc, Token}
use fstx.Recover.{Pos, at, both, Found, note_probe, judge, scan_locs, classify_tokens}
use fstx.Vfs.{file}
use fstx.State.{TxDir}
use fstx.Recover.Rollback.{all_located}
use fstx.Error.{Error}

note_probe-hits :
    (known : List FileId) (tok : Token) (i : ℕ) (loc : Loc) (p : Probe) (found : Found) (j : ℕ)
    → contains (note_probe known tok i loc p found).hits j ≡ true
    → (contains found.hits j ≡ true)
      ⊎ ((j ≡ i) × ((m : Meta) × (p ≡ present m) × (m.id ≡ tok.id) × (m.kind ≡ tok.kind)))
unfolding note_probe
note_probe-hits known tok i loc parent_mismatch found j h = inl h
note_probe-hits known tok i loc missing found j h = inl h
note_probe-hits known tok i loc (present m) found j h =
    elim (Bool-cases (m.id == tok.id && m.kind == tok.kind)) [
      | inl same ↦ elim (Bool-cases (j == i)) [
        | inl e ↦ inr (ground arith, (m, refl, ground arith, ground arith))
        | inr e ↦ inl (let app = contains-append found.hits (i ∷ []) j in ground arith)
      ]
      | inr other ↦ inl (ground arith)
    ]

note_probe_keeps :
    (known : List FileId) (tok : Token) (i : ℕ) (loc : Loc) (p : Probe) (found : Found) (j : ℕ)
    → contains found.hits j ≡ true
    → contains (note_probe known tok i loc p found).hits j ≡ true
unfolding note_probe
note_probe_keeps known tok i loc parent_mismatch found j h = h
note_probe_keeps known tok i loc missing found j h = h
note_probe_keeps known tok i loc (present m) found j h =
    ground (arith, contains-append found.hits (i ∷ []) j)

note_probe_hit :
    (known : List FileId) (tok : Token) (i : ℕ) (loc : Loc) (m : Meta) (found : Found)
    → m.id ≡ tok.id
    → m.kind ≡ tok.kind
    → contains (note_probe known tok i loc (present m) found).hits i ≡ true
unfolding note_probe
note_probe_hit known tok i loc m found e k = ground (arith, contains-append found.hits (i ∷ []) i)

module _ (vfs : Vfs) (s : vfs.State) where
  -- The entry at the location has the token's identity and kind, and its parent is the right one.
  abbrev pub Holds : Token → Loc → Type 0
  Holds tok loc =
      (m : Meta) × (vfs.probe loc.path loc.parent s ≡ ok (present m))
      × (m.id ≡ tok.id)
      × (m.kind ≡ tok.kind)

  -- The token is found at its location of that number.
  abbrev pub HoldsAt : Token → List Loc → ℕ → Type 0
  HoldsAt tok locs k = (loc : Loc) × (get_elem? locs k ≡ some loc) × Holds tok loc

  scan_locs-inv :
      (known : List FileId) (tok : Token) (i : ℕ) (loc : Loc) (locs : List Loc)
      (found found' : Found)
      → scan_locs vfs known tok i (loc ∷ locs) found s ≡ ok found'
      → (p : Probe) × (vfs.probe loc.path loc.parent s ≡ ok p)
        × (scan_locs vfs known tok (i + 1) locs (note_probe known tok i loc p found) s ≡ ok found')
  unfolding scan_locs
  scan_locs-inv known tok i loc locs found found' h =
      >>=-eq-ok (vfs.probe loc.path loc.parent s) _ h

  scan_locs-hits :
      (known : List FileId) (tok : Token) (i : ℕ) (locs : List Loc) (found found' : Found) (j : ℕ)
      → scan_locs vfs known tok i locs found s ≡ ok found'
      → contains found'.hits j ≡ true
      → (contains found.hits j ≡ true) ⊎ ((k : ℕ) × (j ≡ i + k) × HoldsAt tok locs k)
  scan_locs-hits known tok i [] found found' j h c =
      unfold scan_locs in inl (let e = ok-injective h in rw e c)
  scan_locs-hits known tok i (loc ∷ locs) found found' j h c =
      let (p, e, rest) = scan_locs-inv known tok i loc locs found found' h in
      elim (scan_locs-hits known tok (i + 1) locs (note_probe known tok i loc p found) found' j rest
        c) [
          | inr (k, n, at_k) ↦ inr (suc k, omega arith, at_k)
          | inl old ↦ elim (note_probe-hits known tok i loc p found j old) [
            | inl older ↦ inl older
            | inr (n, (m, here, same, kind)) ↦
                inr (0, omega arith, (loc, refl, (m, rw e (ap ok here), same, kind)))
          ]
        ]

  scan_locs_keeps :
      (known : List FileId) (tok : Token) (i : ℕ) (locs : List Loc) (found found' : Found) (j : ℕ)
      → scan_locs vfs known tok i locs found s ≡ ok found'
      → contains found.hits j ≡ true
      → contains found'.hits j ≡ true
  scan_locs_keeps known tok i [] found found' j h c = unfold scan_locs in (rw (← ok-injective h) c)
  scan_locs_keeps known tok i (loc ∷ locs) found found' j h c =
      let (p, e, rest) = scan_locs-inv known tok i loc locs found found' h in
      scan_locs_keeps known tok (i + 1) locs _ found' j rest
        (note_probe_keeps known tok i loc p found j c)

  scan_locs_hit :
      (known : List FileId) (tok : Token) (i : ℕ) (locs : List Loc) (found found' : Found) (k : ℕ)
      → scan_locs vfs known tok i locs found s ≡ ok found'
      → HoldsAt tok locs k
      → contains found'.hits (i + k) ≡ true
  scan_locs_hit known tok i [] found found' k h (loc, e, _) = cc
  scan_locs_hit known tok i (loc ∷ locs) found found' zero h (loc', e, (m, pr, same, kind)) =
      let (p, e', rest) = scan_locs-inv known tok i loc locs found found' h in
      let is_loc : loc ≡ loc' = ground arith in
      let seen : p ≡ present m = ok-injective (sym e' ∙ rw is_loc pr) in
      let hit : contains (note_probe known tok i loc p found).hits i ≡ true =
        rw seen (note_probe_hit known tok i loc m found same kind) in
      let n : i + 0 ≡ i = omega arith in
      rw n (
        scan_locs_keeps known tok (i + 1) locs (note_probe known tok i loc p found) found' i rest
          hit)
  scan_locs_hit known tok i (loc ∷ locs) found found' (suc k) h at_k =
      let (p, e, rest) = scan_locs-inv known tok i loc locs found found' h in
      let ih = scan_locs_hit known tok (i + 1) locs _ found' k rest at_k in
      let n : i + 1 + k ≡ i + suc k = omega arith in rw n at ih

  -- Where the verdict puts a token, and nowhere else, its identity is found.
  abbrev pub Sits : Token → Pos → Type 0
  Sits tok (at i) = HoldsAt tok tok.locs i × ((k : ℕ) → HoldsAt tok tok.locs k → k ≡ i)
  Sits tok (both i) =
      HoldsAt tok tok.locs i
      × HoldsAt tok tok.locs (i + 1)
      × (tok.kind ≡ file)
      × ((k : ℕ) → HoldsAt tok tok.locs k → (k ≡ i) ⊎ (k ≡ i + 1))

  abbrev nothing : Found
  nothing = record { hits = []; foreign = none }

  hit_HoldsAt :
      (known : List FileId) (tok : Token) (found : Found) (j : ℕ)
      → scan_locs vfs known tok 0 tok.locs nothing s ≡ ok found
      → contains found.hits j ≡ true
      → HoldsAt tok tok.locs j
  hit_HoldsAt known tok found j h c =
      elim (scan_locs-hits known tok 0 tok.locs nothing found j h c) [
        | inl e ↦ absurd (ground arith)
        | inr (k, n, at_k) ↦ let e : j ≡ k = omega arith in rw e at_k
      ]

  HoldsAt-hit :
      (known : List FileId) (tok : Token) (found : Found) (k : ℕ)
      → scan_locs vfs known tok 0 tok.locs nothing s ≡ ok found
      → HoldsAt tok tok.locs k
      → contains found.hits k ≡ true
  HoldsAt-hit known tok found k h at_k =
      let e : 0 + k ≡ k = omega arith in
      rw e at (scan_locs_hit known tok 0 tok.locs nothing found k h at_k)

  -- The shapes of hits that are a verdict.
  judge_at :
      (tok : Token) (found : Found) (i : ℕ) → judge tok found ≡ ok (at i) → found.hits ≡ i ∷ []
  unfolding judge
  judge_at tok found i h = ground arith

  judge_both :
      (tok : Token) (found : Found) (i : ℕ)
      → judge tok found ≡ ok (both i)
      → (found.hits ≡ i ∷ (i + 1) ∷ []) × (tok.kind ≡ file)
  unfolding judge
  judge_both tok found i h = ground arith

  judge-Sits :
      (known : List FileId) (tok : Token) (found : Found) (p : Pos)
      → scan_locs vfs known tok 0 tok.locs nothing s ≡ ok found
      → judge tok found ≡ ok p
      → Sits tok p
  judge-Sits known tok found (at i) h v =
      let e = judge_at tok found i v in
      (
        hit_HoldsAt known tok found i h (rw e (ground arith)),
        λ k at_k. let c = HoldsAt-hit known tok found k h at_k in ground arith,
      )
  judge-Sits known tok found (both i) h v =
      let (e, f) = judge_both tok found i v in
      (
        hit_HoldsAt known tok found i h (rw e (ground arith)),
        hit_HoldsAt known tok found (i + 1) h (rw e (ground arith)),
        f,
        λ k at_k. let c = HoldsAt-hit known tok found k h at_k in ground arith,
      )

  abbrev pub AllSit : List Token → List Pos → Type 0
  AllSit [] [] = Unit
  AllSit (tok ∷ tokens) (p ∷ pos) = Sits tok p × AllSit tokens pos
  AllSit _ _ = ⊥

  classify_tokens-inv :
      (known : List FileId) (tok : Token) (tokens : List Token) (rs : List (Result Reason Pos))
      → classify_tokens vfs known (tok ∷ tokens) s ≡ ok rs
      → (found : Found) × (rest : List (Result Reason Pos)) × (scan_locs vfs known tok 0 tok.locs
            nothing s
          ≡ ok found)
        × (classify_tokens vfs known tokens s ≡ ok rest)
        × (rs ≡ judge tok found ∷ rest)
  unfolding classify_tokens
  classify_tokens-inv known tok tokens rs h =
      let (found, e, h1) = >>=-eq-ok (scan_locs vfs known tok 0 tok.locs nothing s) _ h in
      let (rest, e', h2) =
        >>=-eq-ok (classify_tokens vfs known tokens s) (λ rest. ok (judge tok found ∷ rest)) h1 in
      (found, rest, e, e', sym (ok-injective h2))

  all_located-inv :
      (tx : TxDir) (r : Result Reason Pos) (rest : List (Result Reason Pos)) (pos : List Pos)
      → all_located tx (r ∷ rest) ≡ ok pos
      → (p : Pos) × (pos' : List Pos) × (r ≡ ok p)
        × (all_located tx rest ≡ ok pos')
        × (pos ≡ p ∷ pos')
  unfolding all_located
  all_located-inv tx (err e) rest pos h = absurd (ground arith)
  all_located-inv tx (ok p) rest pos h = go (all_located tx rest) refl
    where
      go :
          (r : Result Error (List Pos))
          → all_located tx rest ≡ r
          → (p' : Pos) × (pos' : List Pos) × (◌≡◌ {A = Result Reason Pos} (ok p) (ok p'))
            × (all_located tx rest ≡ ok pos')
            × (pos ≡ p' ∷ pos')
      go (ok pos') e = (p, pos', refl, e, ground arith)
      go (err x) e = absurd (ground arith)

  -- Where the classification of the tokens finds no anomaly, each token's identity is observed where
  -- its position says, at one location or, for a file, at two adjacent ones, and at no other of its
  -- locations.
  pub classify_tokens-AllSit :
      (known : List FileId) (tx : TxDir) (tokens : List Token) (rs : List (Result Reason Pos))
      (pos : List Pos)
      → classify_tokens vfs known tokens s ≡ ok rs
      → all_located tx rs ≡ ok pos
      → AllSit tokens pos
  classify_tokens-AllSit known tx [] rs pos h l =
      unfold classify_tokens all_located in
      (let e : rs ≡ [] = sym (ok-injective h) in
        let l' : all_located tx [] ≡ ok pos = rw e at l in rw (← ok-injective l') tt)
  classify_tokens-AllSit known tx (tok ∷ tokens) rs pos h l =
      let (found, rest, scanned, more, e) = classify_tokens-inv known tok tokens rs h in
      let (p, pos', verdict, located, e') =
        all_located-inv tx (judge tok found) rest pos (rw e at l) in
      let later = classify_tokens-AllSit known tx tokens rest pos' more located in
      rw e' (judge-Sits known tok found p scanned verdict, later)
