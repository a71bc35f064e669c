-- ===== src/Changes/Chains.antt =====
-- Chains of staging calls, taken apart (cli/src/changes.rs).
use fstx.Base.{
  nat_eq, list_eq, ◌≡◌, refl, ◌∙◌, ◌⊎◌, inl, inr, arith, Result, ok, err, list_ord, nat_ord,
}
use fstx.Base.Action.{◌>>=◌, lift}
use fstx.Vfs.{Vfs}
use fstx.Transaction.{Transaction}
use fstx.Changes.{Failure, Outside, Staging}

module _ (outside : Outside) (vfs : Vfs) where
  abbrev pub St : Type 0
  St = vfs.State × Transaction

  -- A chain that succeeds has succeeded throughout.
  pub bind_ok :
      {A B : Type 0} (m : Staging outside vfs A) (k : A → Staging outside vfs B) (st : St) (b : B)
      → ((m >>= k) st).0 ≡ ok b
      → (a : A) × ((m st).0 ≡ ok a) × ((k a (m st).1).0 ≡ ok b)
  bind_ok {A} {B} m k st b h = go (m st).0 refl h
    where
      go :
          (r : Result Failure A)
          → (m st).0 ≡ r
          → ((lift r >>= k) (m st).1).0 ≡ ok b
          → (a : A) × ((m st).0 ≡ ok a) × ((k a (m st).1).0 ≡ ok b)
      go (ok a) e h = (a, e, h)
      go (err x) e h = cc

  pub bind_err :
      {A B : Type 0} (m : Staging outside vfs A) (k : A → Staging outside vfs B) (st : St)
      (f : Failure)
      → ((m >>= k) st).0 ≡ err f
      → ((m st).0 ≡ err f) ⊎ ((a : A) × ((m st).0 ≡ ok a) × ((k a (m st).1).0 ≡ err f))
  bind_err {A} {B} m k st f h = go (m st).0 refl h
    where
      go :
          (r : Result Failure A)
          → (m st).0 ≡ r
          → ((lift r >>= k) (m st).1).0 ≡ err f
          → ((m st).0 ≡ err f) ⊎ ((a : A) × ((m st).0 ≡ ok a) × ((k a (m st).1).0 ≡ err f))
      go (ok a) e h = inr (a, e, h)
      go (err x) e h = inl (e ∙ h2 x h)
        where
          h2 :
              (x : Failure)
              → ◌≡◌ {A = Result Failure B} (err x) (err f)
              → ◌≡◌ {A = Result Failure A} (err x) (err f)
          h2 x q = ground arith
