-- ===== src/Effect/Ensures.antt =====
-- Invariants of actions: from a world with `P` a call ends in one with `P`, however it ends, and
-- a value that it returns has `Q`. One rule for each way to build an action.
use datafoundry_proxy.Base.{◌≡◌, refl, Bool, true, false, if◌then◌else◌}
use datafoundry_proxy.Errors.{GoError}
use datafoundry_proxy.Effect.{
  Result, ok, err, Outcome, returns, fails, panics, fatal, M, pure, fail, panic, exit, lift,
  attempt, guard, run, call, outcome_of, continue, attempted, ◌>>=◌,
}

-- What holds of the value of a call that returns.
abbrev pub Returns : {A : Type 0} → (A → Type 0) → Outcome A → Type 0
Returns Q (returns a) = Q a
Returns Q _ = Unit

-- What holds of the value beside a nil error.
abbrev pub Succeeds : {A : Type 0} → (A → Type 0) → Result A → Type 0
Succeeds Q (ok a) = Q a
Succeeds Q (err _) = Unit

pub record Ensures {W A : Type 0} (P : W → Type 0) (m : M W A) (Q : A → Type 0) : Type 0 where
  pub at : (w : W) → P w → P (m w).1 × Returns Q (m w).0

abbrev pub Any : {A : Type 0} → A → Type 0
Any _ = Unit

-- The action keeps `P`.
abbrev pub Keeping : {W A : Type 0} → (W → Type 0) → M W A → Type 0
Keeping P m = Ensures P m Any

attempted-Returns :
    {A : Type 0} (Q : A → Type 0) (r : Outcome A) → Returns Q r → Returns (Succeeds Q) (attempted r)
attempted-Returns Q (returns a) h = h
attempted-Returns Q (fails e) h = tt
attempted-Returns Q panics h = tt
attempted-Returns Q (fatal e) h = tt

outcome_of-Returns :
    {A : Type 0} (Q : A → Type 0) (r : Result A)
    → ((a : A) → r ≡ ok a → Q a)
    → Returns Q (outcome_of r)
outcome_of-Returns Q (ok a) h = h a refl
outcome_of-Returns Q (err e) h = tt

pub Succeeds-Any : {A : Type 0} (r : Result A) → Succeeds Any r
Succeeds-Any (ok a) = tt
Succeeds-Any (err e) = tt

Returns-Any : {A : Type 0} (r : Outcome A) → Returns Any r
Returns-Any (returns a) = tt
Returns-Any (fails e) = tt
Returns-Any panics = tt
Returns-Any (fatal e) = tt

module _ {W A : Type 0} {P : W → Type 0} {Q : A → Type 0} where
  pub Ensures-pure : (a : A) → Q a → Ensures P (pure a) Q
  Ensures-pure a q = record { at = λ w h. (h, q) }

  pub Ensures-fail : (e : GoError) → Ensures P (fail e) Q
  Ensures-fail e = record { at = λ w h. (h, tt) }

  pub Ensures-panic : Ensures P panic Q
  Ensures-panic = record { at = λ w h. (h, tt) }

  pub Ensures-lift : (r : Result A) → Succeeds Q r → Ensures P (lift r) Q
  Ensures-lift (ok a) q = Ensures-pure a q
  Ensures-lift (err e) q = Ensures-fail e

  pub Ensures-if :
      (b : Bool) (m n : M W A)
      → (b ≡ true → Ensures P m Q)
      → (b ≡ false → Ensures P n Q)
      → Ensures P (if b then m else n) Q
  Ensures-if true m n hm hn = hm refl
  Ensures-if false m n hm hn = hn refl

  pub Ensures-attempt : (m : M W A) → Ensures P m Q → Ensures P (attempt m) (Succeeds Q)
  Ensures-attempt m h = record {
    at = λ w p. ((h.at w p).0, attempted-Returns Q (m w).0 (h.at w p).1);
  }

  pub Ensures-Any : (m : M W A) → Ensures P m Q → Ensures P m Any
  Ensures-Any m h = record { at = λ w p. ((h.at w p).0, Returns-Any (m w).0) }

module _ {W A : Type 0} {P : W → Type 0} where
  -- A reply of a service, from what holds of the service.
  pub Ensures-run :
      (Q : A → Type 0) (f : W → Result A × W)
      → ((w : W) → P w → P (f w).1)
      → ((w : W) (a : A) → P w → (f w).0 ≡ ok a → Q a)
      → Ensures P (run f) Q
  Ensures-run Q f keep good = record {
    at = λ w p. (keep w p, outcome_of-Returns Q (f w).0 (λ a e. good w a p e));
  }

  pub Ensures-call : (f : W → A × W) → ((w : W) → P w → P (f w).1) → Ensures P (call f) Any
  Ensures-call f keep = record { at = λ w p. (keep w p, tt) }

module _ {W : Type 0} {P : W → Type 0} where
  pub Ensures-guard : (b : Bool) (e : GoError) → Ensures P (guard b e) (λ _. b ≡ true)
  Ensures-guard true e = Ensures-pure tt refl
  Ensures-guard false e = Ensures-fail e

module _ {W A B : Type 0} {P : W → Type 0} {R : B → Type 0} where
  pub Ensures-bind :
      (Q : A → Type 0) (m : M W A) (f : A → M W B)
      → Ensures P m Q
      → ((a : A) → Q a → Ensures P (f a) R)
      → Ensures P (m >>= f) R
  unfolding ◌>>=◌
  Ensures-bind Q m f hm hf = record {
    at = λ w p. Ensures-continue (m w).0 (m w).1 (hm.at w p).0 (hm.at w p).1;
  }
    where
      Ensures-continue :
          (r : Outcome A) (w : W)
          → P w
          → Returns Q r
          → P (continue r f w).1 × Returns R (continue r f w).0
      Ensures-continue (returns a) w p q = (hf a q).at w p
      Ensures-continue (fails e) w p q = (p, tt)
      Ensures-continue panics w p q = (p, tt)
      Ensures-continue (fatal e) w p q = (p, tt)

-- The rules where nothing is claimed of the values.
module _ {W A : Type 0} {P : W → Type 0} where
  pub Any-pure : (a : A) → Ensures P (pure a) Any
  Any-pure a = Ensures-pure a tt

  pub Any-fail : (e : GoError) → Ensures P (fail {A = A} e) Any
  Any-fail e = Ensures-fail e

  pub Any-panic : Ensures P (panic {A = A}) Any
  Any-panic = Ensures-panic

  pub Any-exit : (e : GoError) → Ensures P (exit {A = A} e) Any
  Any-exit e = record { at = λ w h. (h, tt) }

  pub Any-lift : (r : Result A) → Ensures P (lift r) Any
  Any-lift r = Ensures-lift r (Succeeds-Any r)

  pub Any-if :
      (b : Bool) (m n : M W A)
      → Ensures P m Any
      → Ensures P n Any
      → Ensures P (if b then m else n) Any
  Any-if b m n hm hn = Ensures-if b m n (λ _. hm) (λ _. hn)

  pub Any-attempt : (m : M W A) → Ensures P m Any → Ensures P (attempt m) Any
  Any-attempt m h = Ensures-Any _ (Ensures-attempt m h)

module _ {W A B : Type 0} {P : W → Type 0} where
  pub Any-bind :
      (m : M W A) (f : A → M W B)
      → Ensures P m Any
      → ((a : A) → Ensures P (f a) Any)
      → Ensures P (m >>= f) Any
  Any-bind m f hm hf = Ensures-bind Any m f hm (λ a _. hf a)

module _ {W : Type 0} {P : W → Type 0} where
  pub Any-guard : (b : Bool) (e : GoError) → Ensures P (guard b e) Any
  Any-guard true e = Any-pure tt
  Any-guard false e = Any-fail e

pub ruleset keeps_rules =
    (Any-pure, Any-fail, Any-panic, Any-exit, Any-lift, Any-if, Any-attempt, Any-guard, Any-bind)
