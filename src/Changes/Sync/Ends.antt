-- ===== src/Changes/Sync/Ends.antt =====
-- The walk over the source tree ends (`stage_sync` of cli/src/changes.rs).
use fstx.Base.{
  ℕ, zero, suc, ◌+◌, ◌≤◌, List, [], ◌∷◌, none, Bool, true, false, nat_eq, list_eq, if◌then◌else◌,
  ◌≡◌, ◌≢◌, refl, ap, ◌∙◌, arith, ok, list_ord, nat_ord,
}
use fstx.Path.{Name}
use fstx.Vfs.{Vfs}
use fstx.Recover.Decide.{insert_name, sort_names}
use fstx.Changes.{Outside}
use fstx.Changes.Chains.{St, bind_ok}
use fstx.Changes.Sync.{
  Source, join_name, Walked, entry_names, with_dir, with_file, with_skipped, sync_dir_entries,
  sync_loop, stage_sync,
}
use fstx.Changes.Sync.Walk.{
  Adds, nothing, a_dir, a_file, a_skip, AddsAll, no_more, one_more, sync_dir_entries-AddsAll,
}

-- What is still to be visited from the paths of a stack, where `below` says how much lies below each.
abbrev to_visit : (List ℕ → ℕ) → List (List ℕ) → ℕ
to_visit below [] = 0
to_visit below (rel ∷ stack) = suc (below rel) + to_visit below stack

-- The entries of a directory, each with what lies below it.
abbrev pub entries_below : (List ℕ → ℕ) → List ℕ → List Name → ℕ
entries_below below rel [] = 0
entries_below below rel (name ∷ names) =
    suc (below (join_name rel name)) + entries_below below rel names

-- A finite source: a number for each directory that is at least the number of the entries below it.
abbrev pub IsFinite : Source → (List ℕ → ℕ) → Type 0
IsFinite source below =
    (rel : List ℕ) (names : List Name)
    → entry_names rel (source.read_dir rel) ≡ ok names
    → entries_below below rel names ≤ below rel

entries_below-insert_name :
    (below : List ℕ → ℕ) (rel : List ℕ) (n : Name) (ns : List Name)
    → entries_below below rel (insert_name n ns) ≡ entries_below below rel (n ∷ ns)
unfolding insert_name
entries_below-insert_name below rel n [] = refl
entries_below-insert_name below rel n (m ∷ ms) =
    let ih = entries_below-insert_name below rel n ms in go (list_ord.lt n m) ih
  where
    go :
        (b : Bool)
        → entries_below below rel (insert_name n ms) ≡ entries_below below rel (n ∷ ms)
        → entries_below below rel (if b then n ∷ m ∷ ms else m ∷ insert_name n ms)
          ≡ entries_below below rel (n ∷ m ∷ ms)
    go true ih = refl
    go false ih = omega arith

entries_below-sort_names :
    (below : List ℕ → ℕ) (rel : List ℕ) (ns : List Name)
    → entries_below below rel (sort_names ns) ≡ entries_below below rel ns
unfolding sort_names
entries_below-sort_names below rel [] = refl
entries_below-sort_names below rel (n ∷ ns) =
    entries_below-insert_name below rel n (sort_names ns)
    ∙ ap (λ k. suc (below (join_name rel n)) + k) (entries_below-sort_names below rel ns)

module _ (below : List ℕ → ℕ) (exclude : List Name) (rel : List ℕ) where
  to_visit-Adds :
      {name : Name} {w w' : Walked}
      → Adds exclude rel name w w'
      → to_visit below w'.stack ≤ suc (below (join_name rel name)) + to_visit below w.stack
  unfolding with_dir with_file with_skipped
  to_visit-Adds nothing = omega arith
  to_visit-Adds (a_dir kept) = omega arith
  to_visit-Adds (a_file kept) = omega arith
  to_visit-Adds (a_skip kept) = omega arith

  to_visit-AddsAll :
      {names : List Name} {w w' : Walked}
      → AddsAll exclude rel names w w'
      → to_visit below w'.stack ≤ entries_below below rel names + to_visit below w.stack
  to_visit-AddsAll no_more = omega arith
  to_visit-AddsAll (one_more a rest) =
      let here = to_visit-Adds a in let later = to_visit-AddsAll rest in omega arith

module _ (outside : Outside) (vfs : Vfs) (source : Source) (exclude : List Name)
    (below : List ℕ → ℕ) (finite : IsFinite source below) where
  sync_loop_ends :
      (fuel : ℕ) (stack : List (List ℕ)) (w : Walked) (st : St outside vfs)
      → to_visit below stack ≤ fuel
      → (sync_loop outside vfs source exclude fuel stack w st).0 ≢ ok none
  unfolding sync_loop
  sync_loop_ends fuel [] w st enough h = ground arith
  sync_loop_ends zero (rel ∷ stack) w st enough h = absurd (omega arith)
  sync_loop_ends (suc fuel) (rel ∷ stack) w st enough h =
      let (w', e, q) =
        bind_ok outside vfs
          (sync_dir_entries outside vfs source exclude rel (record w { stack = stack }))
          (λ w'. sync_loop outside vfs source exclude fuel w'.stack w') st none h in
      let (names, listed, adds) =
        sync_dir_entries-AddsAll outside vfs source exclude rel (record w { stack = stack }) w' st
          e in
      let grown = to_visit-AddsAll below exclude rel adds in
      let sorted = entries_below-sort_names below rel names in
      let few = finite rel names listed in sync_loop_ends fuel w'.stack w' _ (omega arith) q

  -- Where the source tree is finite, with a number for each of its directories that is at least the
  -- number of the entries below it, the copy does not run out of any fuel that exceeds the number of
  -- the root: it comes to its end or to an error, whatever the state it starts from.
  pub stage_sync_ends :
      (fuel : ℕ)
      → suc (below []) ≤ fuel
      → (st : St outside vfs) → (stage_sync outside vfs source exclude fuel st).0 ≢ ok none
  unfolding stage_sync
  stage_sync_ends fuel enough st =
      sync_loop_ends fuel ([] ∷ []) (record { done = []; skipped = []; stack = [] }) st
        (omega arith)
