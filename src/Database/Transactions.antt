-- ===== src/Database/Transactions.antt =====
-- What the program relies on in the transactions of the database, and the steps of a proof about a
-- function that uses one. `S` is what is stored.
use datafoundry_proxy.Base.{ℕ, suc, ◌<◌, ◌≡◌, ap, ◌∙◌, ◌⊎◌, inl, inr, Option, arith}
use datafoundry_proxy.Effect.{Result, ok, err, run, attempt, pure, ◌>>=◌}
use datafoundry_proxy.Effect.Total.{Total, Total-pure, Total-attempt, Total-bind}
use datafoundry_proxy.Database.{Database}

-- What is committed, the copy of the transaction at work, and how many transactions are open.
pub record View (W S : Type 0) : Type 0 where
  pub committed : W → S
  pub pending : W → S
  pub open_count : W → ℕ

module _ {W S : Type 0} where
  -- The action leaves what is committed and the count of the open transactions.
  abbrev pub Leaves : View W S → W → W → Type 0
  Leaves V w w' = (V.committed w' ≡ V.committed w) × (V.open_count w' ≡ V.open_count w)

  -- Rollback ends the transaction, also where it reports an error.
  abbrev pub Drops : View W S → W → Result (Unit {0}) × W → Type 0
  Drops V w (_, w') = (V.committed w' ≡ V.committed w) × (suc (V.open_count w') ≡ V.open_count w)

-- `F` is what an error of the database shows: `Unit` where any call may fail, and `⊥` for a database
-- that never does.
module _ {W S : Type 0} (F : Type 0) where
  -- A statement in a transaction that changes the copy, or fails.
  abbrev pub Writes : View W S → (S → S) → W → Result (Unit {0}) × W → Type 0
  Writes V f w (ok _, w') = Leaves V w w' × (V.pending w' ≡ f (V.pending w))
  Writes V f w (err _, w') = F × Leaves V w w'

  -- A transaction works on a copy of what is committed.
  abbrev pub Begins : View W S → W → Result (Unit {0}) × W → Type 0
  Begins V w (ok _, w') =
      (V.committed w' ≡ V.committed w)
      × (V.pending w' ≡ V.committed w)
      × (V.open_count w' ≡ suc (V.open_count w))
  Begins V w (err _, w') = F × Leaves V w w'

  -- Commit ends the transaction, also where it fails and changes nothing.
  abbrev pub Commits : View W S → W → Result (Unit {0}) × W → Type 0
  Commits V w (ok _, w') = (V.committed w' ≡ V.pending w) × (suc (V.open_count w') ≡ V.open_count w)
  Commits V w (err _, w') =
      F × (V.committed w' ≡ V.committed w) × (suc (V.open_count w') ≡ V.open_count w)

  -- A query for one row.
  abbrev pub Reads : {A : Type 0} → View W S → Option A → W → Result (Option A) × W → Type 0
  Reads V there w (ok row, w') = Leaves V w w' × (V.pending w' ≡ V.pending w) × (row ≡ there)
  Reads V there w (err _, w') = F × Leaves V w w'

  -- Commit and Rollback are only called in a transaction.
  pub record TxLaws (D : Database W) (V : View W S) : Type 0 where
    pub begin : (w : W) → Begins V w (D.begin w)
    pub commit : (w : W) → 0 < V.open_count w → Commits V w (D.commit w)
    pub rollback : (w : W) → 0 < V.open_count w → Drops V w (D.rollback w)

module _ {W S : Type 0} (V : View W S) (before : S) (n : ℕ) where
  -- Outside the transaction, in it, and in it with a copy that is `t`.
  abbrev pub Outside : W → Type 0
  Outside w = (V.committed w ≡ before) × (V.open_count w ≡ n)

  abbrev pub Inside : W → Type 0
  Inside w = (V.committed w ≡ before) × (V.open_count w ≡ suc n)

  abbrev pub InsideOn : S → W → Type 0
  InsideOn t w = (V.committed w ≡ before) × (V.open_count w ≡ suc n) × (V.pending w ≡ t)

module _ {W S : Type 0} (F : Type 0) (D : Database W) (V : View W S) (L : TxLaws F D V) (before : S)
    (n : ℕ) where
  -- After Begin, a write and a query, by the reply.
  abbrev pub Begun : Result (Unit {0}) → W → Type 0
  Begun (ok _) w = InsideOn V before n before w
  Begun (err _) w = F × Outside V before n w

  abbrev pub Wrote : S → Result (Unit {0}) → W → Type 0
  Wrote t (ok _) w = InsideOn V before n t w
  Wrote t (err _) w = F × Inside V before n w

  abbrev pub Selected : {A : Type 0} → Option A → Result (Option A) → W → Type 0
  Selected there (ok row) w = InsideOn V before n before w × (row ≡ there)
  Selected there (err _) w = F × Inside V before n w

  begins :
      (r : Result (Unit {0}) × W) (w : W) → Begins F V w r → Outside V before n w → Begun r.0 r.1
  begins (ok _, w') w b p = (b.0 ∙ p.0, b.2 ∙ ap suc p.1, b.1 ∙ p.0)
  begins (err _, w') w b p = (b.0, (b.1.0 ∙ p.0, b.1.1 ∙ p.1))

  wrote :
      (f : S → S) (t : S) (r : Result (Unit {0}) × W) (w : W)
      → Writes F V f w r
      → InsideOn V before n t w
      → Wrote (f t) r.0 r.1
  wrote f t (ok _, w') w c p = (c.0.0 ∙ p.0, c.0.1 ∙ p.1, c.1 ∙ ap f p.2)
  wrote f t (err _, w') w c p = (c.0, (c.1.0 ∙ p.0, c.1.1 ∙ p.1))

  selected :
      {A : Type 0} (there : S → Option A) (r : Result (Option A) × W) (w : W)
      → Reads F V (there (V.pending w)) w r
      → InsideOn V before n before w
      → Selected (there before) r.0 r.1
  selected there (ok row, w') w c p = ((c.0.0 ∙ p.0, c.0.1 ∙ p.1, c.1 ∙ p.2), c.2 ∙ ap there p.2)
  selected there (err _, w') w c p = (c.0, (c.1.0 ∙ p.0, c.1.1 ∙ p.1))

  commits :
      (t : S) (r : Result (Unit {0}) × W) (w : W)
      → Commits F V w r
      → InsideOn V before n t w
      → ((V.committed r.1 ≡ t) ⊎ (F × (V.committed r.1 ≡ before))) × (V.open_count r.1 ≡ n)
  commits t (ok _, w') w c p = (inl (c.0 ∙ p.2), omega (arith, c.1, p.1))
  commits t (err _, w') w c p = (inr (c.0, c.1 ∙ p.0), omega (arith, c.2, p.1))

  drops :
      (r : Result (Unit {0}) × W) (w : W)
      → Drops V w r
      → Inside V before n w
      → Outside V before n r.1
  drops r w d p = (d.0 ∙ p.0, omega (arith, d.1, p.1))

  pub Total-begin : Total (Outside V before n) (attempt (run D.begin)) Begun
  Total-begin = Total-attempt Begun D.begin λ w p. begins (D.begin w) w (L.begin w) p

  pub Total-write :
      (f : S → S) (t : S) (m : W → Result (Unit {0}) × W)
      → ((w : W) → InsideOn V before n t w → Writes F V f w (m w))
      → Total (InsideOn V before n t) (attempt (run m)) (Wrote (f t))
  Total-write f t m h = Total-attempt (Wrote (f t)) m λ w p. wrote f t (m w) w (h w p) p

  pub Total-select :
      {A : Type 0} (there : S → Option A) (m : W → Result (Option A) × W)
      → ((w : W) → Reads F V (there (V.pending w)) w (m w))
      → Total (InsideOn V before n before) (attempt (run m)) (Selected (there before))
  Total-select there m h =
      Total-attempt (Selected (there before)) m λ w p. selected there (m w) w (h w) p

  module _ {R : Type 0} {Q : R → W → Type 0} (r : R) where
    -- `tx.Rollback(); return r`
    pub Total-rollback :
        (P : W → Type 0)
        → ((w : W) → P w → Inside V before n w)
        → ((w w' : W) → P w → Outside V before n w' → Q r w')
        → Total P (attempt (run D.rollback) >>= λ _. pure r) Q
    Total-rollback P inside good =
        Total-bind (λ _. Q r) _ _
          (Total-attempt (λ _. Q r) D.rollback
            λ w p.
              let (i, j) = inside w p in
              good w (D.rollback w).1 p
                (drops (D.rollback w) w (L.rollback w (omega (arith, j))) (i, j)))
          (λ _. Total-pure r λ w p. p)

    -- `tx.Commit(); return r`
    pub Total-commit :
        (t : S)
        → ((w : W)
            → ((V.committed w ≡ t) ⊎ (F × (V.committed w ≡ before)))
            → V.open_count w ≡ n
            → Q r w)
        → Total (InsideOn V before n t) (attempt (run D.commit) >>= λ _. pure r) Q
    Total-commit t good =
        Total-bind (λ _. Q r) _ _
          (Total-attempt (λ _. Q r) D.commit
            λ w p.
              let (c, o) = commits t (D.commit w) w (L.commit w (omega (arith, p.1))) p in
              good (D.commit w).1 c o)
          (λ _. Total-pure r λ w p. p)
