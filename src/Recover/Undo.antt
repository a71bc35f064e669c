-- ===== src/Recover/Undo.antt =====
-- The undo of a validated plan never gives up, and leaves every token where it was before the
-- commit (src/recover.rs). The filesystem is arbitrary: any of its calls may fail.
use fstx.Base.{
  length-set, ℕ, zero, suc, ◌+◌, ◌≤◌, ◌<◌, List, [], ◌∷◌, some, true, ltb, ◌==◌, nat_eq, list_eq,
  if◌then◌else◌, length, contains, ◌≡◌, ◌∙◌, ◌⊎◌, inl, inr, arith, Bool-cases, Result, ok, err, All,
  get_elem?, set, list_ord, nat_ord,
}
use fstx.Base.Action.{◌>>=◌, ◌>>◌}
use fstx.Error.{Error, ErrorKind}
use fstx.Vfs.{Vfs}
use fstx.Plan.{Token, Step, Plan, src, dst, step_eq}
use fstx.Plan.Validate.Steps.{lt_of_get_elem?, IsInRange}
use fstx.Plan.Validate.Order.{next_step}
use fstx.State.{TxDir}
use fstx.Recover.{Pos, at, both, pos_at, pre, step_state}
use fstx.Recover.Rollback.{rename_back, unlink_copy, leave, undo_action, Io, Act, io, undo_steps}

-- The step has not been made, seen from the tokens' positions.
abbrev pub IsPre : List Pos → Step → Type 0
IsPre pos s = step_state (pos_at pos s.token) s ≡ pre

-- No location past the token's last one.
abbrev pub InBounds : Pos → ℕ → Type 0
InBounds (at i) n = i < n
InBounds (both i) n = i + 1 < n

-- Every token has a position, at one of its locations.
abbrev pub IsLocated : Plan → List Pos → Type 0
IsLocated plan pos =
    (length pos ≡ length plan.tokens)
    × ((t : ℕ) (tok : Token)
        → get_elem? plan.tokens t ≡ some tok
        → InBounds (pos_at pos t) (length tok.locs))

-- What is not made stays not made.
abbrev pub Recedes : List Pos → List Pos → Type 0
Recedes pos pos' = (u : Step) → IsPre pos u → IsPre pos' u

pos_at-set :
    (pos : List Pos) (t : ℕ) (p : Pos) (u : ℕ)
    → t < length pos
    → pos_at (set pos t p) u ≡ (if u == t then p else pos_at pos u)
pos_at-set [] t p u h = absurd (omega arith)
pos_at-set (x ∷ pos) zero p zero h = ground arith
pos_at-set (x ∷ pos) zero p (suc u) h = ground arith
pos_at-set (x ∷ pos) (suc t) p zero h = ground arith
pos_at-set (x ∷ pos) (suc t) p (suc u) h = ground (arith, pos_at-set pos t p u (omega arith))

-- The token stands at the step's destination, alone or with its old name.
abbrev AtDestination : Pos → Step → Type 0
AtDestination p s = (p ≡ at (s.from + 1)) ⊎ (p ≡ both s.from)

Recedes-set :
    (pos : List Pos) (s : Step)
    → s.token < length pos
    → AtDestination (pos_at pos s.token) s
    → Recedes pos (set pos s.token (at s.from))
unfolding step_state
Recedes-set pos s h d u p = ground (arith, pos_at-set pos s.token (at s.from) u.token h)

IsPre-set :
    (pos : List Pos) (s : Step) → s.token < length pos → IsPre (set pos s.token (at s.from)) s
unfolding step_state
IsPre-set pos s h = ground (arith, pos_at-set pos s.token (at s.from) s.token h)

IsLocated-set :
    (plan : Plan) (pos : List Pos) (s : Step)
    → IsInRange plan s
    → IsLocated plan pos
    → IsLocated plan (set pos s.token (at s.from))
IsLocated-set plan pos s (tok, found, bound) (n, h) = (
  length-set pos s.token (at s.from) ∙ n,
  λ t tok' e.
      let put =
        pos_at-set pos s.token (at s.from) t
          (omega (arith, lt_of_get_elem? plan.tokens s.token found)) in
      let old = h t tok' e in ground arith,
)

-- The step can be undone or need not be: its token is not past the destination.
abbrev IsWithin : Pos → Step → Type 0
IsWithin (at i) s = i ≤ s.from + 1
IsWithin (both i) s = i ≤ s.from

-- Where the token's next step is not made, or where there is none, the token is within.
IsWithin-next_step :
    (plan : Plan) (pos : List Pos) (s : Step)
    → IsInRange plan s
    → IsLocated plan pos
    → (IsInRange plan (next_step s) → IsPre pos (next_step s))
    → IsWithin (pos_at pos s.token) s
unfolding step_state
IsWithin-next_step plan pos s (tok, found, bound) (n, h) next =
    let old = h s.token tok found in
    elim (Bool-cases (ltb (s.from + 2) (length tok.locs))) [
      | inl more ↦ let nx = next (tok, found, ground arith) in ground arith
      | inr last ↦ ground arith
    ]

data UndoCase (p : Pos) (s : Step) : Type 0 where
  back : undo_action p s ≡ rename_back → AtDestination p s → UndoCase p s
  copy : undo_action p s ≡ unlink_copy → AtDestination p s → UndoCase p s
  stay : undo_action p s ≡ leave → step_state p s ≡ pre → UndoCase p s

-- A token that is within is never refused.
undo_case : (p : Pos) (s : Step) → IsWithin p s → UndoCase p s
unfolding undo_action step_state
undo_case (at i) s h = elim (Bool-cases (i == s.from + 1)) [
  | inl e ↦ back (ground arith) (inl (ground arith))
  | inr e ↦ stay (ground arith) (ground arith)
]
undo_case (both i) s h = elim (Bool-cases (i == s.from)) [
  | inl e ↦ copy (ground arith) (inr (ground arith))
  | inr e ↦ stay (ground arith) (ground arith)
]

module _ (vfs : Vfs) where
  -- The call returned a value with the property, or a filesystem call failed.
  abbrev pub Outcome : {A : Type 0} → (A → Type 0) → Result Error A × vfs.State → Type 0
  Outcome P (ok a, s) = P a
  Outcome P (err (Error.io e), s) = Unit
  Outcome P (err _, s) = ⊥

  module _ {A : Type 0} (P Q : A → Type 0) where
    pub Outcome-map :
        (r : Result Error A × vfs.State) → ((a : A) → P a → Q a) → Outcome P r → Outcome Q r
    Outcome-map (ok a, s) f h = f a h
    Outcome-map (err (Error.io e), s) f h = tt
    Outcome-map (err _, s) f h = absurd h

  module _ {A B : Type 0} (Q : B → Type 0) where
    Outcome-io_of :
        (r : Result ErrorKind A × vfs.State) (k : A → Act vfs B) (s : vfs.State)
        → ((a : A) (s' : vfs.State) → Outcome Q (k a s'))
        → Outcome Q ((io vfs (λ _. r) >>= k) s)
    Outcome-io_of (ok a, s') k s h = h a s'
    Outcome-io_of (err e, s') k s h = tt

    pub Outcome-io :
        (m : Io vfs A) (k : A → Act vfs B) (s : vfs.State)
        → ((a : A) (s' : vfs.State) → Outcome Q (k a s'))
        → Outcome Q ((io vfs m >>= k) s)
    Outcome-io m k s h = Outcome-io_of (m s) k s h

    Outcome-bind_of :
        (P : A → Type 0) (r : Result Error A × vfs.State) (k : A → Act vfs B) (s : vfs.State)
        → Outcome P r
        → ((a : A) (s' : vfs.State) → P a → Outcome Q (k a s'))
        → Outcome Q (((λ _. r) >>= k) s)
    Outcome-bind_of P (ok a, s') k s p f = f a s' p
    Outcome-bind_of P (err (Error.io e), s') k s p f = tt
    Outcome-bind_of P (err _, s') k s p f = absurd p

    pub Outcome-bind :
        (P : A → Type 0) (m : Act vfs A) (k : A → Act vfs B) (s : vfs.State)
        → Outcome P (m s)
        → ((a : A) (s' : vfs.State) → P a → Outcome Q (k a s'))
        → Outcome Q ((m >>= k) s)
    Outcome-bind P m k s h f = Outcome-bind_of P (m s) k s h f

  module _ (tx : TxDir) (plan : Plan) where
    abbrev move_back : Step → Io vfs (Unit {0})
    move_back v =
        vfs.rename_noreplace (dst plan v).path (some (dst plan v).parent) (src plan v).path
          (some (src plan v).parent)

    abbrev drop_copy : Step → Io vfs (Unit {0})
    drop_copy v = vfs.unlink (dst plan v).path (some (dst plan v).parent)

    undo_steps_back :
        (w : ℕ) (v : Step) (wave : List Step) (pos : List Pos)
        → undo_action (pos_at pos v.token) v ≡ rename_back
        → undo_steps vfs tx plan w (v ∷ wave) pos
          ≡ (io vfs (move_back v) >> undo_steps vfs tx plan w wave (set pos v.token (at v.from)))
    unfolding undo_steps
    undo_steps_back w v wave pos e = rw (e, undo_steps)

    undo_steps_copy :
        (w : ℕ) (v : Step) (wave : List Step) (pos : List Pos)
        → undo_action (pos_at pos v.token) v ≡ unlink_copy
        → undo_steps vfs tx plan w (v ∷ wave) pos
          ≡ (io vfs (drop_copy v) >> undo_steps vfs tx plan w wave (set pos v.token (at v.from)))
    unfolding undo_steps
    undo_steps_copy w v wave pos e = rw (e, undo_steps)

    undo_steps_stays :
        (w : ℕ) (v : Step) (wave : List Step) (pos : List Pos)
        → undo_action (pos_at pos v.token) v ≡ leave
        → undo_steps vfs tx plan w (v ∷ wave) pos ≡ undo_steps vfs tx plan w wave pos
    unfolding undo_steps
    undo_steps_stays w v wave pos e = rw (e, undo_steps)

    abbrev pub NextsArePre : List Step → List Pos → Type 0
    NextsArePre wave pos =
        (v : Step) → contains wave v ≡ true → IsInRange plan (next_step v) → IsPre pos (next_step v)

    abbrev pub Undone : List Step → List Pos → List Pos → Type 0
    Undone wave pos pos' =
        IsLocated plan pos'
        × Recedes pos pos'
        × ((v : Step) → contains wave v ≡ true → IsPre pos' v)

    -- The rest of a wave, after its first step has been dealt with.
    Undone-cons :
        (v : Step) (wave : List Step) (pos mid pos' : List Pos)
        → Recedes pos mid
        → IsPre mid v
        → Undone wave mid pos'
        → Undone (v ∷ wave) pos pos'
    Undone-cons v wave pos mid pos' r p (h, r', q) = (
      h,
      λ u pu. r' u (r u pu),
      λ u m. elim (Bool-cases (u == v)) [
        | inl e ↦ let same : u ≡ v = ground arith in rw same (r' v p)
        | inr e ↦ q u (ground arith)
      ],
    )

    pub undo_steps-Outcome :
        (w : ℕ) (wave : List Step) (pos : List Pos) (s : vfs.State)
        → All (IsInRange plan) wave
        → IsLocated plan pos
        → NextsArePre wave pos
        → Outcome (Undone wave pos) (undo_steps vfs tx plan w wave pos s)
    undo_steps-Outcome w [] pos s r h nx = unfold undo_steps in (h, λ u p. p, λ v m. cc)
    undo_steps-Outcome w (v ∷ wave) pos s (range, r) h nx =
        let within = IsWithin-next_step plan pos v range h (nx v (ground arith)) in
        let bound : v.token < length pos =
          omega (arith, lt_of_get_elem? plan.tokens v.token range.1, h.0) in
        let next = set pos v.token (at v.from) in
        let rest = λ (d : AtDestination (pos_at pos v.token) v) (s' : vfs.State).
          let recedes = Recedes-set pos v bound d in
          Outcome-map (Undone wave next) (Undone (v ∷ wave) pos)
            (undo_steps vfs tx plan w wave next s')
            (λ pos'. Undone-cons v wave pos next pos' recedes (IsPre-set pos v bound))
            (undo_steps-Outcome w wave next s' r (IsLocated-set plan pos v range h)
              (λ u m nr. recedes (next_step u) (nx u (ground arith) nr))) in
        elim (undo_case (pos_at pos v.token) v within) [
          | back e d ↦
              rw (undo_steps_back w v wave pos e)
                (Outcome-io (Undone (v ∷ wave) pos) (move_back v) _ s (λ _ s'. rest d s'))
          | copy e d ↦
              rw (undo_steps_copy w v wave pos e)
                (Outcome-io (Undone (v ∷ wave) pos) (drop_copy v) _ s (λ _ s'. rest d s'))
          | stay e p ↦ rw (undo_steps_stays w v wave pos e) (
              Outcome-map (Undone wave pos) (Undone (v ∷ wave) pos) _
                (λ pos'. Undone-cons v wave pos pos pos' (λ u q. q) p)
                (undo_steps-Outcome w wave pos s r h (λ u m. nx u (ground arith))))
        ]
