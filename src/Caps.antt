-- ===== src/Caps.antt =====
-- The probe of what the filesystem can do (src/caps.rs).
use fstx.Base.{
  ℕ, List, [], ◌∷◌, ◌++◌, Option, none, some, Bool, true, false, ◌&&◌, not, ◌==◌, nat_eq, list_eq,
  if◌then◌else◌, is_empty, Result, ok, err, list_ord, nat_ord,
}
use fstx.Base.Action.{Action, ◌>>=◌, ◌>>◌, pure, fail, reads, lift}
use fstx.Path.{Name, RelPath, join}
use fstx.Error.{Error, ErrorKind, Missing}
use fstx.Vfs.{Vfs, FileId, Meta, file_id_eq}
use fstx.State.{private_dir, delete_tree}
use fstx.Recover.Rollback.{Act, io}

pub record Caps : Type 0 where
  pub case_insensitive : Bool

-- The process's table of what was probed. A missing key is a filesystem that was not.
abbrev pub Cache : Type 0
Cache = List (FileId × Caps)

unfoldable pub cached : FileId → Cache → Option Caps
cached k [] = none
cached k ((j, c) ∷ cache) = if k == j then some c else cached k cache

-- What the table says of a filesystem that has a key.
unfoldable pub known : Option FileId → Cache → Option Caps
unfolding cached
known none cache = none
known (some k) cache = cached k cache

-- Any other error is a failure, and not a missing capability.
unfoldable pub is_unsupported : ErrorKind → Bool
is_unsupported ErrorKind.unsupported = true
is_unsupported ErrorKind.invalid_input = true
is_unsupported _ = false

-- `let _ = m;`
abbrev pub attempt : {S E F A : Type 0} → Action S E A → Action S F (Unit {0})
attempt m s = (ok tt, (m s).1)

-- The call's result is the value of the next part of the chain.
abbrev pub observe : {S E F A : Type 0} → Action S E A → Action S F (Result E A)
observe m s = let (r, s') = m s in (ok r, s')

unfoldable pub after_replace : Result ErrorKind (Unit {0}) → Result Error (List Missing)
unfolding is_unsupported
after_replace (ok _) = ok (Missing.destination_replaced ∷ [])
after_replace (err ErrorKind.already_exists) = ok []
after_replace (err e) =
    if is_unsupported e then ok (Missing.no_replace_rename ∷ []) else err (Error.io e)

unfoldable pub after_sync : Result ErrorKind (Unit {0}) → Result Error (List Missing)
unfolding is_unsupported
after_sync (ok _) = ok []
after_sync (err e) =
    if is_unsupported e then ok (Missing.directory_fsync ∷ []) else err (Error.io e)

abbrev letter : ℕ → Name
letter c = c ∷ []

-- `CaseProbe` and `caseprobe`
abbrev case_probe : ℕ → ℕ → Name
case_probe c p = c ∷ b'a' ∷ b's' ∷ b'e' ∷ p ∷ b'r' ∷ b'o' ∷ b'b' ∷ b'e' ∷ []

-- No identity before, or another one after.
unfoldable pub is_unstable : Option Meta → Option Meta → Bool
is_unstable none after = true
is_unstable (some m) none = true
is_unstable (some m) (some m') = not (m.id == m'.id)

abbrev is_none : Option Meta → Bool
is_none none = true
is_none (some _) = false

module _ (vfs : Vfs) where
  unfoldable pub probe_identity : RelPath → Act vfs (List Missing)
  unfolding is_unstable
  probe_identity d = do
    before ← io vfs (reads (vfs.stat (join d (letter b'a'))))
    io vfs (vfs.rename_noreplace (join d (letter b'a')) none (join d (letter b'c')) none)
    after ← if is_none before then pure none else io vfs (reads (vfs.stat (join d (letter b'c'))))
    pure (if is_unstable before after then Missing.stable_identities ∷ [] else [])

  unfoldable pub run_probe : RelPath → Act vfs Caps
  unfolding after_replace after_sync probe_identity
  run_probe d = do
    io vfs (vfs.create_file (join d (letter b'a')) (b'a' ∷ []) none)
    io vfs (vfs.create_file (join d (letter b'b')) (b'b' ∷ []) none)
    replaced ←
        observe (vfs.rename_noreplace (join d (letter b'a')) none (join d (letter b'b')) none)
    missing ← lift (after_replace replaced)
    more ← if is_empty missing then probe_identity d else pure []
    synced ← observe (vfs.sync_dir d)
    last ← lift (after_sync synced)
    if is_empty (missing ++ more ++ last)
        then (do
          io vfs (vfs.create_file (join d (case_probe b'C' b'P')) [] none)
          folded ← io vfs (reads (vfs.stat (join d (case_probe b'c' b'p'))))
          pure (record { case_insensitive = elim folded [ none ↦ false | some _ ↦ true ] }))
        else fail (Error.unsupported_filesystem (missing ++ more ++ last))

  -- The directory is deleted whatever the probe found.
  unfoldable pub probe_afresh : ℕ → Name → Act vfs Caps
  unfolding run_probe
  probe_afresh fuel probe_name = do
    io vfs (vfs.mkdir (join private_dir probe_name))
    result ← observe (run_probe (join private_dir probe_name))
    attempt (delete_tree vfs fuel (join private_dir probe_name))
    lift result

  abbrev cache_caps : Option FileId → Caps → Cache → Cache
  cache_caps none caps cache = cache
  cache_caps (some k) caps cache = (k, caps) ∷ cache

  -- `probe_name` is `probe-<process>-<time>`.
  unfoldable pub probe : ℕ → Name → Bool → Cache → Act vfs (Caps × Cache)
  unfolding probe_afresh known
  probe fuel probe_name allow_untested_fs cache = do
    untrusted ← io vfs (reads vfs.untrusted_fs_type)
    if elim untrusted [ none ↦ false | some _ ↦ true ] && not allow_untested_fs
        then fail (Error.unsupported_filesystem (Missing.local_filesystem ∷ []))
        else elim (known vfs.probe_cache_key cache) [
          | some caps ↦ pure (caps, cache)
          | none ↦ do
            caps ← probe_afresh fuel probe_name
            pure (caps, cache_caps vfs.probe_cache_key caps cache)
        ]
