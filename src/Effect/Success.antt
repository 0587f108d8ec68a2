-- ===== src/Effect/Success.antt =====
-- What a call did if it returned: one step back for each way to build an action.
use datafoundry_proxy.Base.{◌≡◌, refl, ap, Bool, true, false}
use datafoundry_proxy.Errors.{GoError}
use datafoundry_proxy.Effect.{
  Result, ok, err, Outcome, returns, fails, panics, fatal, M, pure, lift, run, attempt, guard,
  continue, outcome_of, attempted, ◌>>=◌,
}

-- From `w` the call returns `a` and leaves `w'`.
abbrev pub Gives : {W A : Type 0} → M W A → W → A → W → Type 0
Gives m w a w' = m w ≡ (returns a, w')

-- What the outcome of a call that returns says of its value.
abbrev value_or : {A : Type 0} → A → Outcome A → A
value_or d (returns a) = a
value_or d _ = d

pub returns-injective : {A : Type 0} {a b : A} → returns a ≡ returns b → a ≡ b
returns-injective {a} e = ap (value_or a) e

module _ {W A B : Type 0} where
  pub bind-Gives :
      (m : M W A) (f : A → M W B) {w : W} {b : B} {w'' : W}
      → Gives (m >>= f) w b w''
      → (a : A) × (w' : W) × Gives m w a w' × Gives (f a) w' b w''
  unfolding ◌>>=◌
  bind-Gives m f {w} {b} {w''} e = back (m w) refl e
    where
      back :
          (r : Outcome A × W)
          → m w ≡ r
          → continue r.0 f r.1 ≡ (returns b, w'')
          → (a : A) × (w' : W) × Gives m w a w' × Gives (f a) w' b w''
      back (returns a, w') i k = (a, w', i, k)
      back (fails x, w') i k = cc
      back (panics, w') i k = cc
      back (fatal x, w') i k = cc

module _ {W : Type 0} where
  pub guard-Gives :
      (b : Bool) (x : GoError) {w w' : W} → Gives (guard b x) w tt w' → (b ≡ true) × (w' ≡ w)
  guard-Gives true x e = (refl, cc)
  guard-Gives false x e = cc

module _ {W A : Type 0} where
  pub pure-Gives : (a : A) {b : A} {w w' : W} → Gives (pure a) w b w' → (b ≡ a) × (w' ≡ w)
  pure-Gives a e = (cc, cc)

  pub lift-Gives : (r : Result A) {a : A} {w w' : W} → Gives (lift r) w a w' → (r ≡ ok a) × (w' ≡ w)
  lift-Gives (ok b) e = (cc, cc)
  lift-Gives (err x) e = cc

  pub run-Gives :
      (f : W → Result A × W) {a : A} {w w' : W}
      → Gives (run f) w a w'
      → ((f w).0 ≡ ok a) × ((f w).1 ≡ w')
  run-Gives f {a} {w} {w'} e = back (f w) refl e
    where
      back :
          (r : Result A × W)
          → f w ≡ r
          → ◌≡◌ {A = Outcome A × W} (outcome_of r.0, r.1) (returns a, w')
          → (r.0 ≡ ok a) × (r.1 ≡ w')
      back (ok b, v) i k = (cc, cc)
      back (err x, v) i k = cc

  pub attempt-Gives :
      (m : M W A) {r : Result A} {w w' : W}
      → Gives (attempt m) w r w'
      → (attempted (m w).0 ≡ returns r) × ((m w).1 ≡ w')
  attempt-Gives m e = (cc, cc)

-- The same for a call that goes on after the action, with what holds of it handed on.
module _ {W A B : Type 0} {C : Type 0} where
  pub after :
      (m : M W A) (f : A → M W B) {w : W} {b : B} {w'' : W}
      → Gives (m >>= f) w b w''
      → ((a : A) (w' : W) → Gives m w a w' → Gives (f a) w' b w'' → C)
      → C
  after m f e next = let (a, w', here, rest) = bind-Gives m f e in next a w' here rest

  pub after_pure :
      (a : A) (f : A → M W B) {w : W} {b : B} {w'' : W}
      → Gives (pure a >>= f) w b w''
      → (Gives (f a) w b w'' → C)
      → C
  unfolding ◌>>=◌
  after_pure a f e next = next e

module _ {W B : Type 0} {C : Type 0} where
  pub after_guard :
      (t : Bool) (x : GoError) (m : M W B) {w : W} {b : B} {w'' : W}
      → Gives (guard t x >>= λ _. m) w b w''
      → (t ≡ true → Gives m w b w'' → C)
      → C
  unfolding ◌>>=◌
  after_guard true x m e next = next refl e
  after_guard false x m e next = cc
