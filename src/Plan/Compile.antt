-- ===== src/Plan/Compile.antt =====
-- The compilation of the logical layer to a physical plan (src/plan.rs).
use fstx.Base.{
  ℕ, ◌+◌, List, [], ◌∷◌, ◌++◌, map, Option, none, some, Bool, true, false, ◌&&◌, ◌||◌, not, ◌==◌,
  nat_eq, list_eq, if◌then◌else◌, length, contains, any, Result, ok, err, map_ok, list_ord, nat_ord,
}
use fstx.Base.Action.{Action, ◌>>=◌, pure, reads, fold_each, map_err}
use fstx.Base.Map.{BTreeMap, get, insert, contains_key}
use mathlib.Core.List.{reverse}
use fstx.Base.Radix.{to_string}
use fstx.Path.{Name, RelPath, is_root, join, parent_or_root, proper_prefixes, depth}
use fstx.Error.{Error}
use fstx.Vfs.{Vfs, FileId, Kind, file, dir, file_id_eq, kind_eq}
use fstx.State.{TxDir, staged, backup}
use fstx.Plan.{Token, Step, Plan, no_id}
use fstx.Overlay.{
  Overlay, Entry, Slot, absent, present, Src, base, blob, new_dir, EKind, plain, directory, special,
  resolve,
}

unfoldable pub base_origin : Src → Option RelPath
base_origin (base origin id mode) = some origin
base_origin _ = none

-- `base_origin(e) == Some(p)`
unfoldable pub is_origin : RelPath → Src → Bool
unfolding base_origin
is_origin p src = elim (base_origin src) [ none ↦ false | some o ↦ o == p ]

unfoldable pub token_kind : EKind → RelPath → Result Error Kind
token_kind plain what = ok file
token_kind directory what = ok dir
token_kind special what = err (Error.unsupported_file_type what)

abbrev pub Placement : Type 0
Placement = RelPath × Entry

unfoldable pub placements : BTreeMap RelPath Slot → List Placement
placements [] = []
placements ((p, present e) ∷ m) = (p, e) ∷ placements m
placements ((p, absent) ∷ m) = placements m

unfoldable pub without_noops : List RelPath → List Placement → List Placement
without_noops noop [] = []
without_noops noop ((p, e) ∷ ps) =
    let rest = without_noops noop ps in if contains noop p then rest else (p, e) ∷ rest

-- Where each attached base entry goes.
unfoldable pub attached_origins :
    List Placement → BTreeMap RelPath RelPath → BTreeMap RelPath RelPath
unfolding base_origin
attached_origins [] m = m
attached_origins ((p, e) ∷ ps) m =
    attached_origins ps (elim (base_origin e.source) [ some o ↦ insert o p m | none ↦ m ])

-- What the loops of the compilation read.
pub record Context : Type 0 where
  pub noop : List RelPath
  pub attached : BTreeMap RelPath RelPath

-- The entry leaves the tree, and is not put back.
abbrev pub is_removed : Overlay → Context → RelPath → Bool
is_removed ov ctx a =
    contains_key a ov.detached && not (contains_key a ctx.attached) && not (contains ctx.noop a)

-- A removed entry leaves with a removed ancestor.
unfoldable pub is_covered : Overlay → Context → RelPath → Bool
is_covered ov ctx b =
    not (contains_key b ctx.attached) && any (is_removed ov ctx) (proper_prefixes b)

pub record Detached : Type 0 where
  pub path : RelPath
  pub id : FileId
  pub kind : EKind

-- `map.entry(depth).or_default().push(step)`
unfoldable pub push_step : ℕ → Step → BTreeMap ℕ (List Step) → BTreeMap ℕ (List Step)
push_step d step m = elim (get d m) [
  | none ↦ insert d (step ∷ []) m
  | some steps ↦ insert d (steps ++ (step ∷ [])) m
]

-- The plan that is being built.
pub record Draft : Type 0 where
  pub tokens : List Token
  pub detach_steps : BTreeMap ℕ (List Step)
  pub attach_steps : BTreeMap ℕ (List Step)

-- `ids[&n]`, which is there for each number that the overlay holds.
abbrev id_at : ℕ → BTreeMap ℕ FileId → FileId
id_at n ids = elim (get n ids) [ none ↦ no_id | some id ↦ id ]

unfoldable pub push_token : Token → Option (ℕ × ℕ) → Option (ℕ × ℕ) → Draft → Draft
unfolding push_step
push_token tok leaves enters draft =
    let t = length draft.tokens in
    record {
      tokens = draft.tokens ++ (tok ∷ []);
      detach_steps = elim leaves [
        | none ↦ draft.detach_steps
        | some (d, i) ↦ push_step d (record { token = t; from = i }) draft.detach_steps
      ];
      attach_steps = elim enters [
        | none ↦ draft.attach_steps
        | some (d, i) ↦ push_step d (record { token = t; from = i }) draft.attach_steps
      ];
    }

unfoldable pub waves_of : Draft → List (List Step)
waves_of draft = reverse (map (λ e. e.1) draft.detach_steps) ++ map (λ e. e.1) draft.attach_steps

abbrev pub blob_name : ℕ → Name
blob_name n = b'b' ∷ to_string n

abbrev pub dir_name : ℕ → Name
dir_name n = b'd' ∷ to_string n

module _ (vfs : Vfs) (ov : Overlay) where
  -- The path's own base entry is there in the view.
  unfoldable pub keeps_place : RelPath → vfs.State → Result Error Bool
  unfolding is_origin
  keeps_place q s =
      map_ok (λ found. elim found [ none ↦ false | some e ↦ is_origin q e.source ])
        (resolve vfs s ov q)

  -- The loop ends at the first path whose entry has moved.
  unfoldable pub all_keep_place : List RelPath → vfs.State → Result Error Bool
  unfolding keeps_place
  all_keep_place [] s = ok true
  all_keep_place (q ∷ qs) s = elim (keeps_place q s) [
    | err e ↦ err e
    | ok false ↦ ok false
    | ok true ↦ all_keep_place qs s
  ]

  unfoldable pub is_noop : Placement → vfs.State → Result Error Bool
  unfolding all_keep_place is_origin
  is_noop (p, e) s =
      if not (is_origin p e.source) then ok false else all_keep_place (proper_prefixes p) s

  unfoldable pub noops : List Placement → vfs.State → Result Error (List RelPath)
  unfolding is_noop
  noops [] s = ok []
  noops (pl ∷ ps) s = elim (is_noop pl s) [
    | err e ↦ err e
    | ok same ↦ map_ok (λ rest. if same then pl.0 ∷ rest else rest) (noops ps s)
  ]

  -- The base entry is still the one that the transaction saw.
  unfoldable pub verify : RelPath → FileId → vfs.State → Result Error (Unit {0})
  verify b id s = elim (vfs.stat b s) [
    | err e ↦ err (Error.io e)
    | ok none ↦ err (Error.conflict b)
    | ok (some m) ↦ if m.id == id then ok tt else err (Error.conflict b)
  ]

  unfoldable pub detaches :
      Context → BTreeMap RelPath (FileId × EKind) → vfs.State → Result Error (List Detached)
  unfolding is_covered verify
  detaches ctx [] s = ok []
  detaches ctx ((b, (id, kind)) ∷ m) s =
      let rest = detaches ctx m s in
      if contains ctx.noop b || is_covered ov ctx b then rest else elim (verify b id s) [
        | err e ↦ err e
        | ok _ ↦ map_ok (λ ds. record { path = b; id = id; kind = kind } ∷ ds) rest
      ]

  unfoldable pub dir_id : RelPath → vfs.State → Result Error FileId
  dir_id p s = elim (vfs.stat p s) [
    | err e ↦ err (Error.io e)
    | ok none ↦ err (Error.conflict p)
    | ok (some m) ↦ if m.kind == dir then ok m.id else err (Error.conflict p)
  ]

  -- Makes the staged directories, so that each token's identity is known before the journal is.
  unfoldable pub stage_dir :
      TxDir → Placement → BTreeMap ℕ FileId → Action vfs.State Error (BTreeMap ℕ FileId)
  stage_dir tx (p, e) ids = elim e.source [
    | new_dir n ↦ do
      m ← map_err Error.io (vfs.mkdir (join (staged tx) (dir_name n)))
      pure (insert n m.id ids)
    | _ ↦ pure ids
  ]

  unfoldable pub entry_id : BTreeMap ℕ FileId → RelPath → EKind → Src → Result Error FileId
  entry_id dirs q directory (base origin id mode) = ok id
  entry_id dirs q directory (new_dir n) = ok (id_at n dirs)
  entry_id dirs q _ _ = err (Error.not_found q)

  unfoldable pub view_parent_id :
      FileId → BTreeMap ℕ FileId → RelPath → vfs.State → Result Error FileId
  unfolding entry_id
  view_parent_id root_id dirs p s =
      if is_root (parent_or_root p)
      then ok root_id
      else elim (resolve vfs s ov (parent_or_root p)) [
        | err e ↦ err e
        | ok none ↦ err (Error.not_found (parent_or_root p))
        | ok (some e) ↦ entry_id dirs (parent_or_root p) e.kind e.source
      ]

  -- The locations of a detached entry, and where it enters the tree again if it does.
  unfoldable pub base_token :
      TxDir
      → Context
      → FileId
      → FileId
      → BTreeMap ℕ FileId
      → ℕ
      → Detached
      → vfs.State
      → Result Error (Token × Option (ℕ × ℕ))
  unfolding dir_id view_parent_id token_kind
  base_token tx ctx root_id backup_id dirs k d s =
      let home =
        if is_root (parent_or_root d.path) then ok root_id else dir_id (parent_or_root d.path) s in
      elim home [
        | err e ↦ err e
        | ok parent_id ↦
            let away =
              record { path = d.path; parent = parent_id }
              ∷ record { path = join (backup tx) (to_string k); parent = backup_id }
              ∷ [] in
            elim (get d.path ctx.attached) [
              | none ↦
                  map_ok (λ kind. (record { kind = kind; id = d.id; locs = away }, none))
                    (token_kind d.kind d.path)
              | some p ↦ elim (view_parent_id root_id dirs p s) [
                | err e ↦ err e
                | ok to ↦
                    map_ok
                      (λ kind. (
                        record {
                          kind = kind;
                          id = d.id;
                          locs = away ++ (record { path = p; parent = to } ∷ []);
                        },
                        some (depth p, 1),
                      ))
                      (token_kind d.kind d.path)
              ]
            ]
      ]

  unfoldable pub add_detached :
      TxDir
      → Context
      → FileId
      → FileId
      → BTreeMap ℕ FileId
      → ℕ
      → List Detached
      → Draft
      → vfs.State
      → Result Error Draft
  unfolding base_token push_token
  add_detached tx ctx root_id backup_id dirs k [] draft s = ok draft
  add_detached tx ctx root_id backup_id dirs k (d ∷ ds) draft s =
      elim (base_token tx ctx root_id backup_id dirs k d s) [
        | err e ↦ err e
        | ok (tok, enters) ↦
            add_detached tx ctx root_id backup_id dirs (k + 1) ds
              (push_token tok (some (depth d.path, 0)) enters draft) s
      ]

  -- The staged name, the identity and the kind of what the transaction made itself.
  unfoldable pub staged_entry :
      BTreeMap ℕ FileId → BTreeMap ℕ FileId → Src → Option (Name × FileId × Kind)
  staged_entry blobs dirs (base origin id mode) = none
  staged_entry blobs dirs (blob n mode) = some (blob_name n, id_at n blobs, file)
  staged_entry blobs dirs (new_dir n) = some (dir_name n, id_at n dirs, dir)

  unfoldable pub add_attached :
      TxDir
      → FileId
      → FileId
      → BTreeMap ℕ FileId
      → BTreeMap ℕ FileId
      → List Placement
      → Draft
      → vfs.State
      → Result Error Draft
  unfolding staged_entry push_token
  add_attached tx root_id staged_id blobs dirs [] draft s = ok draft
  add_attached tx root_id staged_id blobs dirs ((p, e) ∷ ps) draft s =
      elim (staged_entry blobs dirs e.source) [
        | none ↦ add_attached tx root_id staged_id blobs dirs ps draft s
        | some (name, id, kind) ↦ elim (view_parent_id root_id dirs p s) [
          | err e ↦ err e
          | ok to ↦
              let tok : Token = record {
                kind = kind;
                id = id;
                locs =
                    record { path = join (staged tx) name; parent = staged_id }
                    ∷ record { path = p; parent = to }
                    ∷ [];
              } in
              add_attached tx root_id staged_id blobs dirs ps
                (push_token tok none (some (depth p, 0)) draft) s
        ]
      ]

  unfoldable pub compile : TxDir → BTreeMap ℕ FileId → Action vfs.State Error Plan
  unfolding placements
  compile tx blobs = do
    noop ← reads (noops (placements ov.placed))
    let attach = without_noops noop (placements ov.placed)
    let ctx : Context = record { noop = noop; attached = attached_origins attach [] }
    ds ← reads (detaches ctx ov.detached)
    root_id ← map_err Error.io (reads vfs.root_id)
    staged_id ← reads (dir_id (staged tx))
    backup_id ← reads (dir_id (backup tx))
    dirs ← fold_each attach (stage_dir tx) []
    away ← reads (
        add_detached tx ctx root_id backup_id dirs 0 ds
          (record { tokens = []; detach_steps = []; attach_steps = [] }))
    draft ← reads (add_attached tx root_id staged_id blobs dirs attach away)
    pure (record { tokens = draft.tokens; waves = waves_of draft })
