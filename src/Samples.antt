-- ===== src/Samples.antt =====
-- Test data: the plan of the source's own tests (src/plan.rs), and a filesystem that keeps the
-- metadata of its entries in a list and whose calls never fail for a reason of their own.
use fstx.Base.{
  ℕ, List, [], ◌∷◌, ◌++◌, Option, none, some, ◌==◌, nat_eq, list_eq, if◌then◌else◌, ok, err,
}
use fstx.Path.{Name, RelPath, root, private_dir_name, strip_prefix, join_path}
use fstx.Error.{ErrorKind}
use fstx.Vfs.{FileId, Kind, file, dir, Meta, Vfs, IoResult, default_probe}
use fstx.Plan.{Loc, Step, Plan}
use fstx.Base.Action.{Action, pure}

abbrev pub id : ℕ → FileId
id i = record { dev = 1; ino = i }

abbrev pub root_id : FileId
root_id = id 1

abbrev pub backup_id : FileId
backup_id = id 2

abbrev pub staged_id : FileId
staged_id = id 3

abbrev pub a : RelPath
a = (b'a' ∷ []) ∷ []

abbrev pub z : RelPath
z = (b'z' ∷ []) ∷ []

abbrev pub a_old : RelPath
a_old = (b'a' ∷ []) ∷ (b'o' ∷ b'l' ∷ b'd' ∷ []) ∷ []

abbrev pub z_new : RelPath
z_new = (b'z' ∷ []) ∷ (b'n' ∷ b'e' ∷ b'w' ∷ []) ∷ []

-- `tx-1`
abbrev pub tx_1 : Name
tx_1 = b't' ∷ b'x' ∷ b'-' ∷ b'1' ∷ []

abbrev pub tx_1_dir : RelPath
tx_1_dir = private_dir_name ∷ tx_1 ∷ []

abbrev pub backup_dir : RelPath
backup_dir = private_dir_name ∷ tx_1 ∷ (b'b' ∷ b'a' ∷ b'c' ∷ b'k' ∷ b'u' ∷ b'p' ∷ []) ∷ []

abbrev pub staged_dir : RelPath
staged_dir = private_dir_name ∷ tx_1 ∷ (b's' ∷ b't' ∷ b'a' ∷ b'g' ∷ b'e' ∷ b'd' ∷ []) ∷ []

abbrev pub backup_0 : RelPath
backup_0 = backup_dir ++ ((b'0' ∷ []) ∷ [])

abbrev pub backup_1 : RelPath
backup_1 = backup_dir ++ ((b'1' ∷ []) ∷ [])

abbrev pub staged_b0 : RelPath
staged_b0 = staged_dir ++ ((b'b' ∷ b'0' ∷ []) ∷ [])

abbrev pub loc : RelPath → FileId → Loc
loc p i = record { path = p; parent = i }

abbrev pub step : ℕ → ℕ → Step
step t i = record { token = t; from = i }

-- Rename `a` to `z`, write `z/new` and remove `a/old`.
abbrev pub sample : Plan
sample = record {
  tokens =
      record { kind = file; id = id 11; locs = loc a_old (id 10) ∷ loc backup_0 backup_id ∷ [] }
      ∷ record {
        kind = dir;
        id = id 10;
        locs = loc a root_id ∷ loc backup_1 backup_id ∷ loc z root_id ∷ [];
      }
      ∷ record { kind = file; id = id 20; locs = loc staged_b0 staged_id ∷ loc z_new (id 10) ∷ [] }
      ∷ [];
  waves = (step 0 0 ∷ []) ∷ (step 1 0 ∷ []) ∷ (step 1 1 ∷ []) ∷ (step 2 0 ∷ []) ∷ [];
}

-- The entries of a filesystem.
abbrev pub Table : Type 0
Table = List (RelPath × Meta)

abbrev lookup : RelPath → Table → Option Meta
lookup p [] = none
lookup p ((q, m) ∷ t) = if p == q then some m else lookup p t

abbrev names_under : RelPath → Table → List Name
names_under p [] = []
names_under p ((q, m) ∷ t) = elim (strip_prefix q p) [
  | some (n ∷ []) ↦ n ∷ names_under p t
  | _ ↦ names_under p t
]

abbrev without : RelPath → Table → Table
without p [] = []
without p ((q, m) ∷ t) = if p == q then without p t else (q, m) ∷ without p t

-- A directory moves with what is under it.
abbrev move : RelPath → RelPath → Table → Table
move from to [] = []
move from to ((q, m) ∷ t) = elim (strip_prefix q from) [
  | some rest ↦ (join_path to rest, m) ∷ move from to t
  | none ↦ (q, m) ∷ move from to t
]

abbrev add : RelPath → Kind → Action Table ErrorKind Meta
add p k t = elim (lookup p t) [
  | some _ ↦ (err ErrorKind.already_exists, t)
  | none ↦
      let m : Meta = record { kind = k; id = id 99; len = 0; mode = 0; nlink = 1 } in
      (ok m, (p, m) ∷ t)
]

abbrev table_stat : RelPath → Table → IoResult (Option Meta)
table_stat p t = ok (lookup p t)

abbrev pub table_vfs : Vfs
table_vfs = record {
  State = Table;
  root_id = λ t. ok root_id;
  stat = table_stat;
  read_file = λ p t. ok [];
  read_dir = λ p t. ok (names_under p t);
  create_file = λ p bytes mode. add p file;
  append = λ p bytes. pure tt;
  mkdir = λ p. add p dir;
  rename_noreplace = λ from _ to _ t. elim (lookup to t) [
    | some _ ↦ (err ErrorKind.already_exists, t)
    | none ↦ (ok tt, move from to t)
  ];
  unlink = λ p _ t. (ok tt, without p t);
  rmdir = λ p t. (ok tt, without p t);
  sync_file = λ p. pure tt;
  sync_dir = λ p. pure tt;
  lock = λ exclusive t. ok tt;
  untrusted_fs_type = λ t. ok none;
  probe_cache_key = none;
  probe = default_probe table_stat;
  event = λ e t. t;
}

abbrev pub entry : RelPath → Kind → FileId → RelPath × Meta
entry p k i = (p, record { kind = k; id = i; len = 0; mode = 0; nlink = 1 })

abbrev pub private_entries : Table
private_entries =
    entry root dir root_id
    ∷ entry tx_1_dir dir (id 4)
    ∷ entry backup_dir dir backup_id
    ∷ entry staged_dir dir staged_id
    ∷ []
