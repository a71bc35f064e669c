-- ===== src/Inspect.antt =====
-- The read-only report of what recovery would do (src/inspect.rs, src/lib.rs).
pub mod Agrees
mod Tests
use fstx.Base.{
  ℕ, List, [], ◌∷◌, ◌++◌, map, Option, none, some, Bool, true, false, ◌||◌, not, nat_eq, list_eq,
  if◌then◌else◌, Result, ok, err, ◌>>=◌, ◌>>◌, map_ok, list_ord, nat_ord,
}
use fstx.Path.{Name, RelPath}
use fstx.Error.{Reason}
use fstx.Vfs.{Vfs, FileId, Kind, IoResult}
use fstx.Plan.{Loc, Token}
use fstx.State.{private_dir, gc_prefix, probe_prefix, tx_prefix}
use fstx.Journal.{Codec, starts_with}
use fstx.Recover.{Pos, at, both, classify}
use fstx.Recover.Decide.{
  Decision, discard, settle_committed, settle_rolled_back, roll_back, require, decide, sort_names,
  utf8_names,
}

pub data RecoveryAction : Type 0 where
  discard_it clean_up_committed clean_up_rolled_back undo_it recovery_required : RecoveryAction

pub record TokenPosition : Type 0 where
  pub index : ℕ
  pub both_names : Bool

pub record TokenInspection : Type 0 where
  pub kind : Kind
  pub id : FileId
  pub locations : List RelPath
  pub position : Result Reason TokenPosition

pub record TxInspection : Type 0 where
  pub name : Name
  pub action : RecoveryAction
  pub reason : Option Reason
  pub tokens : List TokenInspection

pub record Inspection : Type 0 where
  pub transactions : List TxInspection
  pub garbage : List Name

unfoldable pub token_position : Pos → TokenPosition
token_position (at i) = record { index = i; both_names = false }
token_position (both i) = record { index = i; both_names = true }

unfoldable pub inspect_token : Token → Result Reason Pos → TokenInspection
unfolding token_position
inspect_token tok c = record {
  kind = tok.kind;
  id = tok.id;
  locations = map (λ (loc : Loc). loc.path) tok.locs;
  position = map_ok token_position c;
}

-- `iter().zip(classes)`
unfoldable pub inspect_tokens : List Token → List (Result Reason Pos) → List TokenInspection
unfolding inspect_token
inspect_tokens (tok ∷ tokens) (c ∷ cs) = inspect_token tok c ∷ inspect_tokens tokens cs
inspect_tokens _ _ = []

unfoldable pub first_anomaly : List (Result Reason Pos) → Option Reason
first_anomaly [] = none
first_anomaly (err e ∷ cs) = some e
first_anomaly (ok p ∷ cs) = first_anomaly cs

abbrev pub action_of : Option Reason → RecoveryAction
action_of none = undo_it
action_of (some _) = recovery_required

abbrev settled : Name → RecoveryAction → Option Reason → TxInspection
settled name action reason = record { name = name; action = action; reason = reason; tokens = [] }

module _ (vfs : Vfs) (codec : Codec) (s : vfs.State) where
  unfoldable pub inspect_decision : Name → Decision → IoResult TxInspection
  unfolding inspect_tokens first_anomaly
  inspect_decision name discard = ok (settled name discard_it none)
  inspect_decision name settle_committed = ok (settled name clean_up_committed none)
  inspect_decision name settle_rolled_back = ok (settled name clean_up_rolled_back none)
  inspect_decision name (require r) = ok (settled name recovery_required (some r))
  inspect_decision name (roll_back j) =
      map_ok
        (λ classes. record {
          name = name;
          action = action_of (first_anomaly classes);
          reason = first_anomaly classes;
          tokens = inspect_tokens j.plan.tokens classes;
        })
        (classify vfs j.plan s)

  unfoldable pub inspect_tx : Name → IoResult TxInspection
  unfolding inspect_decision
  inspect_tx name = decide vfs codec (record { name = name }) s >>= inspect_decision name

  unfoldable pub inspect_names : List Name → Inspection → IoResult Inspection
  unfolding inspect_tx
  inspect_names [] out = ok out
  inspect_names (name ∷ names) out =
      if starts_with gc_prefix name || starts_with probe_prefix name
      then inspect_names names (record out { garbage = out.garbage ++ (name ∷ []) })
      else if not (starts_with tx_prefix name)
      then inspect_names names out
      else inspect_tx name >>= λ t.
          inspect_names names (record out { transactions = out.transactions ++ (t ∷ []) })

  unfoldable pub inspect_locked : IoResult Inspection
  unfolding inspect_names
  inspect_locked = do
    vfs.lock false s
    names ← vfs.read_dir private_dir s
    inspect_names (sort_names (utf8_names names)) (record { transactions = []; garbage = [] })

  unfoldable pub inspect_on : IoResult Inspection
  unfolding inspect_locked
  inspect_on = do
    found ← vfs.stat private_dir s
    elim found [ none ↦ ok (record { transactions = []; garbage = [] }) | some _ ↦ inspect_locked ]
