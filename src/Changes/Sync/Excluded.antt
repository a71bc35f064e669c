-- ===== src/Changes/Sync/Excluded.antt =====
-- What is excluded from the copy of a source tree (`stage_sync` of cli/src/changes.rs).
use fstx.Base.{ℕ, List, [], false, nat_eq, list_eq, contains, ◌≡◌, All}
use fstx.Base.Utf8.{to_string_lossy}
use fstx.Path.{Name}
use fstx.Vfs.{Vfs}
use fstx.Changes.Sync.{join_name, Walked}

-- A path of the source with no excluded name at any depth.
pub data IsKept (exclude : List Name) : List ℕ → Type 0 where
  kept_root : IsKept exclude []
  kept_child :
      (rel : List ℕ) (name : Name)
      → IsKept exclude rel
      → contains exclude name ≡ false
      → IsKept exclude (join_name rel name)

-- A string that shows such a path.
abbrev pub Shows : List Name → List ℕ → Type 0
Shows exclude shown = (child : List ℕ) × IsKept exclude child × (shown ≡ to_string_lossy child)

-- What the walk has reported.
abbrev pub Reports : List Name → Walked → Type 0
Reports exclude w = All (λ d. Shows exclude d.path) w.done × All (Shows exclude) w.skipped

-- With what it has still to visit.
abbrev KeepsOut : List Name → Walked → Type 0
KeepsOut exclude w = Reports exclude w × All (IsKept exclude) w.stack
