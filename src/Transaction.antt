-- ===== src/Transaction.antt =====
-- Transactions: their start, their operations and the commit (src/transaction.rs).
use fstx.Base.{
  ℕ, zero, suc, ◌+◌, ◌-◌, ◌*◌, ◌/◌, ◌%◌, ◌≤◌, ◌<◌, List, [], ◌∷◌, ◌++◌, map, Option, none, some,
  Bool, true, false, ◌&&◌, ◌||◌, not, ltb, leb, ◌==◌, nat_eq, list_eq, if◌then◌else◌, length, take,
  drop, is_empty, contains, any, all, ◌≡◌, refl, sym, ap, ◌∙◌, ◌≢◌, ◌↔◌, ◌⊎◌, inl, inr, arith,
  Bool-cases, Option-cases, ==_iff, ==_refl, Result, ok, err, All, take-append, drop-append,
  take-append-drop, length-append, get_elem?, length-take_of_le, All-append, ok-injective,
  >>=-eq-ok, contains-append, length-set, all_below, all_below_sound, set, fail_if, ok_or, map_ok,
  replicate, Eq, Ord, list_ord, nat_ord,
}
pub mod Commit
pub mod Sealed
mod Tests
use fstx.Base.Action.{Action, ◌>>=◌, ◌>>◌, pure, fail, reads, lift, handle, map_err}
use fstx.Base.Map.{BTreeMap, insert}
use fstx.Base.Radix.{to_string}
use fstx.Path.{Name, RelPath, root, join}
use fstx.Path.Validate.{validate_user_path}
use fstx.Error.{Error, ErrorKind}
use fstx.Vfs.{Vfs, FileId, dir, kind_eq, Meta}
use fstx.State.{TxDir, tx_dir, staged, backup, private_dir, gc, tolerate_existing}
use fstx.Journal.{Codec}
use fstx.Recover.Rollback.{Io, Act, io}
use fstx.Recover.Decide.{RecoveryReport, recover_locked}
use fstx.Overlay.{Overlay, new, resolve, check_write}
use fstx.Overlay.Edit.{Edit, apply_write, create_dir_all, rename, remove_path, remove_dir_all, read}
use fstx.Caps.{Caps, Cache, attempt, probe}

pub record Transaction : Type 0 where
  pub tx : TxDir
  pub overlay : Overlay
  pub blobs : BTreeMap ℕ FileId
  pub next_blob : ℕ
  pub caps : Caps
  pub recovered : RecoveryReport
  pub finished : Bool

unfoldable pub blob_path : TxDir → ℕ → RelPath
unfolding staged join to_string
blob_path tx n = join (staged tx) (b'b' ∷ to_string n)

-- `.gitignore`
abbrev gitignore : RelPath
gitignore =
    join private_dir (b'.' ∷ b'g' ∷ b'i' ∷ b't' ∷ b'i' ∷ b'g' ∷ b'n' ∷ b'o' ∷ b'r' ∷ b'e' ∷ [])

-- `mode & 0o7777`
unfoldable pub permission_bits : ℕ → ℕ
permission_bits mode = mode % 4096

-- `mode.or(inherited)`
unfoldable pub or_inherited : Option ℕ → Option ℕ → Option ℕ
or_inherited (some mode) inherited = some mode
or_inherited none inherited = inherited

module _ (vfs : Vfs) where
  unfoldable pub ignore_private : Act vfs (Unit {0})
  ignore_private = do
    found ← io vfs (reads (vfs.stat gitignore))
    elim found [
      | some _ ↦ pure tt
      | none ↦ io vfs (
          handle (vfs.create_file gitignore (b'*' ∷ 10 ∷ []) none) (λ _. pure tt)
            (tolerate_existing vfs))
    ]

  unfoldable pub make_private : Act vfs (Unit {0})
  make_private = do io vfs (vfs.mkdir private_dir); io vfs (vfs.sync_dir root)

  unfoldable pub ensure_private_dir : Act vfs (Unit {0})
  unfolding ignore_private make_private
  ensure_private_dir = do
    found ← io vfs (reads (vfs.stat private_dir))
    elim found [
      | some m ↦ if m.kind == dir then pure tt else fail (Error.unsupported_file_type private_dir)
      | none ↦ make_private
    ]
    ignore_private

  -- `name` is made of the time, the process and a counter; `probe_name` likewise. The lock is held
  -- for as long as the transaction lives.
  unfoldable pub begin_on : Codec → ℕ → Name → Name → Bool → Cache → Act vfs (Transaction × Cache)
  unfolding ensure_private_dir
  begin_on codec fuel name probe_name allow_untested_fs cache = do
    ensure_private_dir
    io vfs (reads (vfs.lock true))
    (caps, cache') ← probe vfs fuel probe_name allow_untested_fs cache
    recovered ← recover_locked vfs codec fuel
    io vfs (vfs.mkdir (tx_dir (record { name = name })))
    io vfs (vfs.mkdir (staged (record { name = name })))
    io vfs (vfs.mkdir (backup (record { name = name })))
    root_id ← io vfs (reads vfs.root_id)
    pure (
      record {
        tx = record { name = name };
        overlay = new root_id caps.case_insensitive;
        blobs = [];
        next_blob = 0;
        caps = caps;
        recovered = recovered;
        finished = false;
      },
      cache',
    )

  -- A method that takes `&mut self`: the filesystem and the transaction both change.
  abbrev pub Method : Type 0 → Type 0
  Method = Action (vfs.State × Transaction) Error

  abbrev pub in_vfs : {A : Type 0} → Act vfs A → Method A
  in_vfs m (s, t) = let (r, s') = m s in (r, (s', t))

  abbrev pub in_overlay : {A : Type 0} → (vfs.State → Edit A) → Method A
  in_overlay f (s, t) = let (r, ov) = f s t.overlay in (r, (s, record t { overlay = ov }))

  abbrev of_path : {A : Type 0} → List ℕ → (RelPath → Method A) → Method A
  of_path path f = lift (validate_user_path path) >>= f

  -- The number of the next staged file.
  unfoldable pub take_blob : Method ℕ
  take_blob (s, t) = (ok t.next_blob, (s, record t { next_blob = t.next_blob + 1 }))

  unfoldable pub write_impl : List ℕ → List ℕ → Option ℕ → Method (Unit {0})
  unfolding take_blob or_inherited
  write_impl path bytes mode = do
    p ← lift (validate_user_path path)
    inherited ← reads (λ (s, t). check_write vfs s t.overlay p)
    n ← take_blob
    tx ← reads (λ (s, t). ok t.tx)
    made ← in_vfs (io vfs (vfs.create_file (blob_path tx n) bytes (or_inherited mode inherited)))
    λ (s, t). (ok tt, (s, record t { blobs = insert n made.id t.blobs }))
    in_overlay (λ s. apply_write vfs s p n (or_inherited mode inherited))

  unfoldable pub write : List ℕ → List ℕ → Method (Unit {0})
  unfolding write_impl
  write path bytes = write_impl path bytes none

  unfoldable pub write_with_mode : List ℕ → List ℕ → ℕ → Method (Unit {0})
  unfolding write_impl permission_bits
  write_with_mode path bytes mode = write_impl path bytes (some (permission_bits mode))

  unfoldable pub make_dir_all : List ℕ → Method (Unit {0})
  make_dir_all path = of_path path (λ p. in_overlay (λ s. create_dir_all vfs s p))

  unfoldable pub rename_path : List ℕ → List ℕ → Method (Unit {0})
  rename_path from to = of_path from (λ p. of_path to (λ q. in_overlay (λ s. rename vfs s p q)))

  unfoldable pub remove : List ℕ → Method (Unit {0})
  remove path = of_path path (λ p. in_overlay (λ s. remove_path vfs s p))

  unfoldable pub remove_tree : List ℕ → Method (Unit {0})
  remove_tree path = of_path path (λ p. in_overlay (λ s. remove_dir_all vfs s p))

  abbrev pub read_at : RelPath → Method (List ℕ)
  read_at p = reads (λ (s, t). read vfs s (blob_path t.tx) p t.overlay)

  unfoldable pub read_path : List ℕ → Method (List ℕ)
  read_path path = of_path path read_at

  abbrev pub exists_at : RelPath → Method Bool
  exists_at p = reads (λ (s, t).
      map_ok (λ found. elim found [ none ↦ false | some _ ↦ true ]) (resolve vfs s t.overlay p))

  unfoldable pub exists : List ℕ → Method Bool
  exists path = of_path path exists_at

  -- The destructor.
  unfoldable pub drop_transaction : ℕ → Transaction → Act vfs (Unit {0})
  drop_transaction fuel t = if t.finished then pure tt else attempt (gc vfs fuel t.tx)
