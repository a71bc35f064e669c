-- ===== src/Vfs.antt =====
-- The filesystem abstraction that the protocol is written against (src/vfs.rs). A backend is a
-- record of operations on a state of its own; the calls that read leave the state alone.
use fstx.Base.{
  ℕ, List, Option, none, some, Bool, ◌&&◌, ◌==◌, nat_eq, list_eq, if◌then◌else◌, Result, ok, ◌>>=◌,
  Eq, list_ord, nat_ord,
}
use native.Mathlib.Decide.{ℕ_discrete}
use fstx.Base.Action.{Action}
use fstx.Path.{Name, RelPath, parent_or_root}
use fstx.Error.{ErrorKind}

pub record FileId : Type 0 where
  pub dev : ℕ
  pub ino : ℕ

pub data Kind : Type 0 where
  file dir symlink other : Kind

pub record Meta : Type 0 where
  pub kind : Kind
  pub id : FileId
  pub len : ℕ
  pub mode : ℕ
  pub nlink : ℕ

pub data Probe : Type 0 where
  parent_mismatch missing : Probe
  present : Meta → Probe

FileId_dec : Discrete FileId
FileId_dec = hlevel ℕ_discrete

instance unfoldable pub file_id_eq : Eq FileId
unfolding FileId_dec ℕ_discrete
file_id_eq = record { dec = FileId_dec }

Kind_dec : Discrete Kind
Kind_dec = hlevel

instance unfoldable pub kind_eq : Eq Kind
unfolding Kind_dec
kind_eq = record { dec = Kind_dec }

abbrev pub IoResult : Type 0 → Type 0
IoResult = Result ErrorKind

-- The body that the trait gives `probe`, over a backend's `stat`.
unfoldable pub default_probe :
    {S : Type 0} → (RelPath → S → IoResult (Option Meta)) → RelPath → FileId → S → IoResult Probe
default_probe stat p expect_parent s = do
  m ← stat (parent_or_root p) s
  elim m [
    | none ↦ ok parent_mismatch
    | some m ↦
        if m.kind == dir && m.id == expect_parent
        then (do
          found ← stat p s
          elim found [ none ↦ ok missing | some found ↦ ok (present found) ])
        else ok parent_mismatch
  ]

-- The protocol milestones that the code notes.
pub data Event : Type 0 where
  prepared committed stabilized undone : Event

-- `trait Vfs`
pub record Vfs : Type 1 where
  pub State : Type 0
  pub root_id : State → IoResult FileId
  pub stat : RelPath → State → IoResult (Option Meta)
  pub read_file : RelPath → State → IoResult (List ℕ)
  pub read_dir : RelPath → State → IoResult (List Name)
  pub create_file : RelPath → List ℕ → Option ℕ → Action State ErrorKind Meta
  pub append : RelPath → List ℕ → Action State ErrorKind (Unit {0})
  pub mkdir : RelPath → Action State ErrorKind Meta
  pub rename_noreplace :
      RelPath → Option FileId → RelPath → Option FileId → Action State ErrorKind (Unit {0})
  pub unlink : RelPath → Option FileId → Action State ErrorKind (Unit {0})
  pub rmdir : RelPath → Action State ErrorKind (Unit {0})
  pub sync_file : RelPath → Action State ErrorKind (Unit {0})
  pub sync_dir : RelPath → Action State ErrorKind (Unit {0})
  pub lock : Bool → State → IoResult (Unit {0})
  pub untrusted_fs_type : State → IoResult (Option Name)
  pub probe_cache_key : Option FileId
  pub probe : RelPath → FileId → State → IoResult Probe
  pub event : Event → State → State
