-- ===== src/Plan.antt =====
-- The physical plan: tokens, the locations that each visits, and waves of steps (src/plan.rs).
pub mod Validate
pub mod Compile
pub mod Tests
use native.Mathlib.Decide.{ℕ_discrete}
use fstx.Base.{
  Eq, ℕ, zero, suc, ◌+◌, ◌-◌, ◌*◌, ◌/◌, ◌%◌, ◌≤◌, ◌<◌, List, [], ◌∷◌, ◌++◌, map, Option, none, some,
  Bool, true, false, ◌&&◌, ◌||◌, not, ltb, leb, ◌==◌, nat_eq, list_eq, if◌then◌else◌, length, take,
  drop, is_empty, contains, any, all, ◌≡◌, refl, sym, ap, ◌∙◌, ◌≢◌, ◌↔◌, ◌⊎◌, inl, inr, arith,
  Bool-cases, Option-cases, ==_iff, ==_refl, Result, ok, err, ◌>>=◌, All, take-append, drop-append,
  take-append-drop, length-append, get_elem?, length-take_of_le, All-append, ok-injective,
  >>=-eq-ok, all_below, all_below_sound, set, fail_if, ok_or, for_each, ◌>>◌, Eq, Ord, list_ord,
  nat_ord,
}
use fstx.Path.{Name, RelPath, root}
use fstx.Vfs.{FileId, Kind}

-- A location that a token can occupy, with the identity its parent directory must have.
pub record Loc : Type 0 where
  pub path : RelPath
  pub parent : FileId

pub record Token : Type 0 where
  pub kind : Kind
  pub id : FileId
  pub locs : List Loc

-- Moves `token` from `locs[from]` to `locs[from + 1]`.
pub record Step : Type 0 where
  pub token : ℕ
  pub from : ℕ

pub record Plan : Type 0 where
  pub tokens : List Token
  pub waves : List (List Step)

abbrev pub no_id : FileId
no_id = record { dev = 0; ino = 0 }

abbrev pub no_loc : Loc
no_loc = record { path = root; parent = no_id }

-- `tok.locs[i]`. The code panics past the end; a validated plan never gets there.
unfoldable pub loc_at : Token → ℕ → Loc
loc_at tok i = elim (get_elem? tok.locs i) [ none ↦ no_loc | some loc ↦ loc ]

-- `&self.tokens[t].locs[i]`
unfoldable pub location : Plan → ℕ → ℕ → Loc
unfolding loc_at
location plan t i = elim (get_elem? plan.tokens t) [ none ↦ no_loc | some tok ↦ loc_at tok i ]

unfoldable pub src : Plan → Step → Loc
unfolding location
src plan s = location plan s.token s.from

unfoldable pub dst : Plan → Step → Loc
unfolding location
dst plan s = location plan s.token (s.from + 1)

-- `v[i]` of a vector of indices; the code never reads past its end.
abbrev pub index : List ℕ → ℕ → ℕ
index [] i = 0
index (x ∷ xs) zero = x
index (x ∷ xs) (suc i) = index xs i

Step_dec : Discrete Step
Step_dec = hlevel ℕ_discrete

instance unfoldable pub step_eq : Eq Step
unfolding Step_dec ℕ_discrete
step_eq = record { dec = Step_dec }
