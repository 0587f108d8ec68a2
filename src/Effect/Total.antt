-- ===== src/Effect/Total.antt =====
-- Total correctness: from a world with `P` an action returns, with neither an error nor a panic, and
-- its value and the world it leaves have `Q`. One rule for each way to build an action.
use datafoundry_proxy.Base.{◌≡◌, refl, Bool, true, false, if◌then◌else◌}
use datafoundry_proxy.Errors.{GoError}
use datafoundry_proxy.Effect.{
  Result, ok, err, Outcome, returns, fails, M, pure, run, call, attempt, ◌>>=◌,
}

pub record Total {W A : Type 0} (P : W → Type 0) (m : M W A) (Q : A → W → Type 0) : Type 0 where
  pub at : (w : W) → P w → (a : A) × (w' : W) × (m w ≡ (returns a, w')) × Q a w'

module _ {W A : Type 0} {P : W → Type 0} {Q : A → W → Type 0} where
  pub Total-pure : (a : A) → ((w : W) → P w → Q a w) → Total P (pure a) Q
  Total-pure a h = record { at = λ w p. (a, w, refl, h w p) }

  pub Total-if :
      (b : Bool) (m n : M W A)
      → (b ≡ true → Total P m Q)
      → (b ≡ false → Total P n Q)
      → Total P (if b then m else n) Q
  Total-if true m n hm hn = hm refl
  Total-if false m n hm hn = hn refl

  -- An action that the program does whatever it replies.
  pub Total-call : (f : W → A × W) → ((w : W) → P w → Q (f w).0 (f w).1) → Total P (call f) Q
  Total-call f h = record { at = λ w p. ((f w).0, (f w).1, refl, h w p) }

module _ {W A : Type 0} {P : W → Type 0} where
  -- A service's reply, where the program looks at its error itself.
  pub Total-attempt :
      (Q : Result A → W → Type 0) (f : W → Result A × W)
      → ((w : W) → P w → Q (f w).0 (f w).1)
      → Total P (attempt (run f)) Q
  Total-attempt Q f h = record { at = λ w p. ((f w).0, (f w).1, reply (f w), h w p) }
    where
      reply :
          (r : Result A × W)
          → ◌≡◌ {A = Outcome (Result A) × W} (attempt (run (λ _. r)) r.1) (returns r.0, r.1)
      reply (ok a, w) = refl
      reply (err e, w) = refl

module _ {W A B : Type 0} {P : W → Type 0} {R : B → W → Type 0} where
  pub Total-bind :
      (Q : A → W → Type 0) (m : M W A) (f : A → M W B)
      → Total P m Q
      → ((a : A) → Total (Q a) (f a) R)
      → Total P (m >>= f) R
  unfolding ◌>>=◌
  Total-bind Q m f hm hf = record {
    at = λ w p.
        let (a, w', e, q) = hm.at w p in
        let (b, w'', e', r) = (hf a).at w' q in (b, w'', rw e e', r);
  }

-- The world that the action has been started in.
abbrev pub From : {W A : Type 0} → M W A → A → W → Type 0
From {W} m a w' = (w : W) × (m w ≡ (returns a, w'))

module _ {W A : Type 0} {P : W → Type 0} {Q : A → W → Type 0} where
  pub Total-From : (m : M W A) → Total P m Q → Total P m (λ a w'. Q a w' × From m a w')
  Total-From m h = record { at = λ w p. let (a, w', e, q) = h.at w p in (a, w', e, (q, (w, e))) }

-- An action that always returns, whatever the services reply.
abbrev pub AlwaysReturns : {W A : Type 0} → M W A → Type 0
AlwaysReturns m = Total (λ _. Unit) m (λ _ _. Unit)

module _ {W A : Type 0} where
  pub always_attempt : (f : W → Result A × W) → AlwaysReturns (attempt (run f))
  always_attempt f = Total-attempt (λ _ _. Unit) f (λ w p. tt)

  pub always_pure : (a : A) → AlwaysReturns (pure {W = W} a)
  always_pure a = Total-pure a (λ w p. tt)

  pub always_if :
      (b : Bool) (m n : M W A)
      → AlwaysReturns m
      → AlwaysReturns n
      → AlwaysReturns (if b then m else n)
  always_if b m n hm hn = Total-if b m n (λ _. hm) (λ _. hn)

module _ {W A B : Type 0} where
  pub always_bind :
      (m : M W A) (f : A → M W B)
      → AlwaysReturns m
      → ((a : A) → AlwaysReturns (f a))
      → AlwaysReturns (m >>= f)
  always_bind m f hm hf = Total-bind (λ _ _. Unit) m f hm hf

-- One step of a run, from what its first action does.
module _ {W A B : Type 0} where
  pub bind-eq :
      (m : M W A) (f : A → M W B) {w w' : W} {a : A} → m w ≡ (returns a, w') → (m >>= f) w ≡ f a w'
  unfolding ◌>>=◌
  bind-eq m f e = rw e refl

  pub bind-fails :
      (m : M W A) (f : A → M W B) {w w' : W} {e : GoError}
      → m w ≡ (fails e, w')
      → (m >>= f) w ≡ (fails e, w')
  unfolding ◌>>=◌
  bind-fails m f e = rw e refl
