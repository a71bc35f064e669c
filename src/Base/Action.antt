-- ===== src/Base/Action.antt =====
-- Calls that change a state and may fail. What was changed before an error stays changed, so the
-- state comes back beside the error too.
use mathlib.Core.List.{List, [], ◌∷◌}
use fstx.Base.Fallible.{Result, ok, err}
use mathlib.Core.Path.{◌≡◌, refl}
use native.Mathlib.Omega.{arith}

abbrev pub Action : Type 0 → Type 0 → Type 0 → Type 0
Action S E A = S → Result E A × S

infixl 5 ◌>>=◌ ◌>>◌
abbrev pub ◌>>=◌ : {S E A B : Type 0} → Action S E A → (A → Action S E B) → Action S E B
◌>>=◌ m f s = let (r, s') = m s in elim r [ ok a ↦ f a s' | err e ↦ (err e, s') ]

abbrev pub ◌>>◌ : {S E A B : Type 0} → Action S E A → Action S E B → Action S E B
m >> k = m >>= λ _. k

module _ {S E A : Type 0} where
  abbrev pub pure : A → Action S E A
  pure a s = (ok a, s)

  abbrev pub fail : E → Action S E A
  fail e s = (err e, s)

  -- A call that reads the state and leaves it alone.
  abbrev pub reads : (S → Result E A) → Action S E A
  reads f s = (f s, s)

  abbrev pub lift : Result E A → Action S E A
  lift r s = (r, s)

  -- `match m { Ok(a) => f(a), Err(e) => g(e) }`
  abbrev pub handle :
      {F B : Type 0} → Action S E A → (A → Action S F B) → (E → Action S F B) → Action S F B
  handle m f g s = let (r, s') = m s in elim r [ ok a ↦ f a s' | err e ↦ g e s' ]

-- The conversion that `?` makes.
abbrev pub map_err : {S E F A : Type 0} → (E → F) → Action S E A → Action S F A
map_err f m s = let (r, s') = m s in elim r [ ok a ↦ (ok a, s') | err e ↦ (err (f e), s') ]

abbrev pub for_each :
    {S E A : Type 0} → List A → (A → Action S E (Unit {0})) → Action S E (Unit {0})
for_each [] f = pure tt
for_each (x ∷ xs) f = f x >>= λ _. for_each xs f

-- A loop that carries a value.
abbrev pub fold_each : {S E A B : Type 0} → List A → (A → B → Action S E B) → B → Action S E B
fold_each [] f b = pure b
fold_each (x ∷ xs) f b = f x b >>= fold_each xs f

-- A read at the head of a chain that succeeds has succeeded, and the chain goes on from its value.
reads_of :
    {S E F A B : Type 0} (c : E → F) (r : Result E A) (k : A → Action S F B) {s s' : S} {b : B}
    → (map_err c (reads (λ _. r)) >>= k) s ≡ (ok b, s')
    → (a : A) × (r ≡ ok a) × (k a s ≡ (ok b, s'))
reads_of c (ok a) k h = (a, refl, h)
reads_of c (err e) k h = absurd (ground arith)

pub reads-bind_inv :
    {S E F A B : Type 0} (c : E → F) (f : S → Result E A) (k : A → Action S F B) (s : S) {s' : S}
    {b : B}
    → (map_err c (reads f) >>= k) s ≡ (ok b, s')
    → (a : A) × (f s ≡ ok a) × (k a s ≡ (ok b, s'))
reads-bind_inv c f k s h = reads_of c (f s) k h

pub lift-bind_inv :
    {S E A B : Type 0} (r : Result E A) (k : A → Action S E B) (s : S) {s' : S} {b : B}
    → (lift r >>= k) s ≡ (ok b, s')
    → (a : A) × (r ≡ ok a) × (k a s ≡ (ok b, s'))
lift-bind_inv (ok a) k s h = (a, refl, h)
lift-bind_inv (err e) k s h = absurd (ground arith)

-- A chain that reads leaves the state alone where what follows does.
reads_keeps_of :
    {S E F A B : Type 0} (c : E → F) (r : Result E A) (k : A → Action S F B) (s : S)
    → ((a : A) → (k a s).1 ≡ s)
    → ((map_err c (reads (λ _. r)) >>= k) s).1 ≡ s
reads_keeps_of c (ok a) k s h = h a
reads_keeps_of c (err e) k s h = refl

pub reads_keeps :
    {S E F A B : Type 0} (c : E → F) (f : S → Result E A) (k : A → Action S F B) (s : S)
    → ((a : A) → (k a s).1 ≡ s)
    → ((map_err c (reads f) >>= k) s).1 ≡ s
reads_keeps c f k s h = reads_keeps_of c (f s) k s h

pub lift_keeps :
    {S E A B : Type 0} (r : Result E A) (k : A → Action S E B) (s : S)
    → ((a : A) → (k a s).1 ≡ s)
    → ((lift r >>= k) s).1 ≡ s
lift_keeps (ok a) k s h = h a
lift_keeps (err e) k s h = refl
