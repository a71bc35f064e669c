-- ===== src/Api.antt =====
-- Recovery on a given backend, from outside a transaction (src/lib.rs).
use fstx.Base.{ℕ, none, some, Bool, true, nat_eq, list_eq, list_ord, nat_ord}
use fstx.Base.Action.{◌>>=◌, ◌>>◌, pure, reads}
use fstx.Path.{Name}
use fstx.Vfs.{Vfs}
use fstx.State.{private_dir}
use fstx.Journal.{Codec}
use fstx.Recover.Rollback.{Act, io}
use fstx.Recover.Decide.{RecoveryReport, empty_report, recover_locked}
use fstx.Caps.{Cache, probe}

module _ (vfs : Vfs) (codec : Codec) where
  -- The lock is released where the call returns.
  unfoldable pub recover_on : ℕ → Name → Bool → Cache → Act vfs (RecoveryReport × Cache)
  recover_on fuel probe_name allow_untested_fs cache = do
    found ← io vfs (reads (vfs.stat private_dir))
    elim found [
      | none ↦ pure (empty_report, cache)
      | some _ ↦ do
        io vfs (reads (vfs.lock true))
        (caps, cache') ← probe vfs fuel probe_name allow_untested_fs cache
        report ← recover_locked vfs codec fuel
        pure (report, cache')
    ]
