-- ===== src/Changes/Sync/Walk.antt =====
-- One entry and one directory of the walk over the source tree (`stage_sync` of cli/src/changes.rs).
use fstx.Base.{
  ℕ, List, [], ◌∷◌, ◌++◌, Option, none, some, Bool, true, false, nat_eq, list_eq, if◌then◌else◌,
  contains, ◌≡◌, refl, sym, ap, ◌∙◌, ◌⊎◌, inl, inr, arith, Result, ok, err, ok_or, Bool-cases,
  ok-injective,
}
use fstx.Base.Action.{◌>>=◌, ◌>>◌, pure, lift, fold_each}
use mathlib.Core.Path.{subst}
use fstx.Path.{Name}
use fstx.Vfs.{Vfs}
use fstx.Recover.Decide.{sort_names}
use fstx.Transaction.{make_dir_all}
use fstx.Changes.{failure, io_failure, Message, Outside, Staging, method}
use fstx.Changes.Chains.{St, bind_ok}
use fstx.Changes.Sync.{
  FileMeta, directory, regular_file, other_type, Source, join_name, Walked, entry_names, with_dir,
  with_file, with_skipped, write_copy, sync_meta, sync_entry, sync_dir_entries,
}

-- What one entry adds.
pub data Adds (exclude : List Name) (rel : List ℕ) (name : Name) (w : Walked)
    : Walked → Type 0 where
  nothing : Adds exclude rel name w w
  a_dir : contains exclude name ≡ false → Adds exclude rel name w (with_dir (join_name rel name) w)
  a_file :
      contains exclude name ≡ false → Adds exclude rel name w (with_file (join_name rel name) w)
  a_skip :
      contains exclude name ≡ false → Adds exclude rel name w (with_skipped (join_name rel name) w)

-- What the entries of a directory add.
pub data AddsAll (exclude : List Name) (rel : List ℕ) : List Name → Walked → Walked → Type 0 where
  no_more : {w : Walked} → AddsAll exclude rel [] w w
  one_more :
      {name : Name} {names : List Name} {w w' w'' : Walked}
      → Adds exclude rel name w w'
      → AddsAll exclude rel names w' w''
      → AddsAll exclude rel (name ∷ names) w w''

module _ (outside : Outside) (vfs : Vfs) (source : Source) (exclude : List Name) where
  sync_meta-Adds :
      (rel : List ℕ) (name : Name) (meta : FileMeta) (w w' : Walked) (st : St outside vfs)
      → contains exclude name ≡ false
      → (sync_meta outside vfs source exclude (join_name rel name) meta w st).0 ≡ ok w'
      → Adds exclude rel name w w'
  unfolding sync_meta
  sync_meta-Adds rel name directory w w' st kept h =
      let child = join_name rel name in
      let (_, _, e) =
        bind_ok outside vfs (method outside vfs none (make_dir_all vfs child))
          (λ _. pure (with_dir child w)) st w' h in
      subst (Adds exclude rel name w) (ok-injective e) (a_dir kept)
  sync_meta-Adds rel name (regular_file mode) w w' st kept h =
      let child = join_name rel name in
      let (bytes, _, e) =
        bind_ok outside vfs
          (lift (
            ok_or (source.read_all child) (
              failure io_failure none (Message.not_copied (fstx.Base.Utf8.to_string_lossy child)))))
          (λ bytes.
            write_copy outside vfs source exclude child bytes mode >> pure (with_file child w))
          st w' h in
      let (_, _, e') =
        bind_ok outside vfs (write_copy outside vfs source exclude child bytes mode)
          (λ _. pure (with_file child w)) _ w' e in
      subst (Adds exclude rel name w) (ok-injective e') (a_file kept)
  sync_meta-Adds rel name other_type w w' st kept h =
      subst (Adds exclude rel name w) (ok-injective h) (a_skip kept)

  sync_entry-Adds :
      (rel : List ℕ) (name : Name) (w w' : Walked) (st : St outside vfs)
      → (sync_entry outside vfs source exclude rel name w st).0 ≡ ok w'
      → Adds exclude rel name w w'
  unfolding sync_entry
  sync_entry-Adds rel name w w' st h = go (contains exclude name) refl h
    where
      child : List ℕ
      child = join_name rel name

      found : Staging outside vfs FileMeta
      found = lift (
          ok_or (source.symlink_metadata child)
            (failure io_failure none (Message.not_found (fstx.Base.Utf8.to_string_lossy child))))

      rest : FileMeta → Staging outside vfs Walked
      rest meta = sync_meta outside vfs source exclude child meta w

      go :
          (b : Bool)
          → contains exclude name ≡ b
          → ((if b then pure w else (found >>= rest)) st).0 ≡ ok w'
          → Adds exclude rel name w w'
      go true e h = subst (Adds exclude rel name w) (ok-injective h) nothing
      go false e h =
          let (meta, _, q) = bind_ok outside vfs found rest st w' h in
          sync_meta-Adds rel name meta w w' _ e q

  fold_each-AddsAll :
      (rel : List ℕ) (names : List Name) (w w' : Walked) (st : St outside vfs)
      → (fold_each names (sync_entry outside vfs source exclude rel) w st).0 ≡ ok w'
      → AddsAll exclude rel names w w'
  fold_each-AddsAll rel [] w w' st h = subst (AddsAll exclude rel [] w) (ok-injective h) no_more
  fold_each-AddsAll rel (name ∷ names) w w' st h =
      let (w1, e, q) =
        bind_ok outside vfs (sync_entry outside vfs source exclude rel name w)
          (fold_each names (sync_entry outside vfs source exclude rel)) st w' h in
      one_more (sync_entry-Adds rel name w w1 st e) (fold_each-AddsAll rel names w1 w' _ q)

  -- A directory that is read adds what its entries add.
  pub sync_dir_entries-AddsAll :
      (rel : List ℕ) (w w' : Walked) (st : St outside vfs)
      → (sync_dir_entries outside vfs source exclude rel w st).0 ≡ ok w'
      → (names : List Name) × (entry_names rel (source.read_dir rel) ≡ ok names)
        × AddsAll exclude rel (sort_names names) w w'
  unfolding sync_dir_entries
  sync_dir_entries-AddsAll rel w w' st h =
      let (names, e, q) =
        bind_ok outside vfs (lift (entry_names rel (source.read_dir rel)))
          (λ names. fold_each (sort_names names) (sync_entry outside vfs source exclude rel) w) st
          w' h in
      (names, e, fold_each-AddsAll rel (sort_names names) w w' _ q)
