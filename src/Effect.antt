-- ===== src/Effect.antt =====
-- A call of a Go function that may return an error, panic or end the process, over a world `W`
-- that every call can change. What was done before an error stays done.
pub mod Ensures
pub mod Success
pub mod Total
use datafoundry_proxy.Base.{Bool, true, false, if◌then◌else◌}
use datafoundry_proxy.Errors.{GoError}

-- `(value, err)` with a nil `err`, and with another one.
pub data Result (A : Type 0) : Type 0 where
  ok : A → Result A
  err : GoError → Result A

-- How a call ends: it returns, it panics, or it calls glog.Fatal, which ends the process.
pub data Outcome (A : Type 0) : Type 0 where
  returns : A → Outcome A
  fails : GoError → Outcome A
  panics : Outcome A
  fatal : GoError → Outcome A

abbrev pub M : Type 0 → Type 0 → Type 0
M W A = W → Outcome A × W

abbrev outcome_of : {A : Type 0} → Result A → Outcome A
outcome_of (ok a) = returns a
outcome_of (err e) = fails e

abbrev attempted : {A : Type 0} → Outcome A → Outcome (Result A)
attempted (returns a) = returns (ok a)
attempted (fails e) = returns (err e)
attempted panics = panics
attempted (fatal e) = fatal e

module _ {W A : Type 0} where
  abbrev pub pure : A → M W A
  pure a w = (returns a, w)

  abbrev pub fail : GoError → M W A
  fail e w = (fails e, w)

  abbrev pub panic : M W A
  panic w = (panics, w)

  abbrev pub exit : GoError → M W A
  exit e w = (fatal e, w)

  abbrev pub lift : Result A → M W A
  lift r w = (outcome_of r, w)

  -- An action of a service, whose reply is returned as it is.
  abbrev pub run : (W → Result A × W) → M W A
  run f w = let (r, w') = f w in (outcome_of r, w')

  -- An action that cannot fail.
  abbrev pub call : (W → A × W) → M W A
  call f w = let (a, w') = f w in (returns a, w')

  -- `v, err := m` where the code looks at `err` itself.
  abbrev pub attempt : M W A → M W (Result A)
  attempt m w = let (r, w') = m w in (attempted r, w')

module _ {W A B : Type 0} where
  abbrev continue : Outcome A → (A → M W B) → M W B
  continue (returns a) f w = f a w
  continue (fails e) f w = (fails e, w)
  continue panics f w = (panics, w)
  continue (fatal e) f w = (fatal e, w)

  infixl 5 ◌>>=◌ ◌>>◌
  unfoldable pub ◌>>=◌ : M W A → (A → M W B) → M W B
  ◌>>=◌ m f w = let (r, w') = m w in continue r f w'

  abbrev pub ◌>>◌ : M W A → M W B → M W B
  m >> k = m >>= λ _. k

-- `if err != nil { return err }` on a test of the code's own.
abbrev pub guard : {W : Type 0} → Bool → GoError → M W (Unit {0})
guard true e = pure tt
guard false e = fail e
