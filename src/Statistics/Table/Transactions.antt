-- ===== src/Statistics/Table/Transactions.antt =====
-- What one update of the statistics does to the table, on every branch, errors included.
use datafoundry_proxy.Base.{
  ℕ, ◌≡◌, refl, sym, ap, subst, ◌∙◌, ◌⊎◌, inl, inr, Bool, true, false, not, ◌&&◌, List, [], ◌∷◌,
  Option, none, some, Str, if◌then◌else◌,
}
use datafoundry_proxy.Base.Int.{ℤ, pos, leb_ℤ, ltb_ℤ, eq_ℤ, int64_add}
use datafoundry_proxy.Errors.{GoError}
use datafoundry_proxy.Effect.{Result, ok, err, M, returns, run, attempt, pure, ◌>>=◌}
use datafoundry_proxy.Effect.Total.{Total, Total-pure, Total-bind}
use datafoundry_proxy.Database.{Database, Arg, text}
use datafoundry_proxy.Database.Transactions.{
  View, Outside, Inside, InsideOn, Begun, Wrote, Selected, Writes, Total-begin, Total-write,
  Total-select, Total-rollback, Total-commit,
}
use datafoundry_proxy.Statistics.Table.{
  StatReply, stored, old_not_match, failed, sql_get, sql_insert, sql_update, negative_delta,
  roll_back, write, insert_stat, replace_stat, with_row, update_or_set_stat,
}
use datafoundry_proxy.Statistics.Table.Laws.{Stats, put, Laws}

-- The reply by the value that the table holds: the compare-and-set that an update promises.
abbrev pub reply_to : ℤ → ℤ → Bool → Option ℤ → StatReply
reply_to delta if_old is_update none =
    if is_update && (leb_ℤ (pos 0) if_old && not (eq_ℤ if_old (pos 0)))
    then old_not_match (pos 0)
    else if ltb_ℤ delta (pos 0)
    then failed negative_delta
    else stored delta
reply_to delta if_old is_update (some old) =
    if leb_ℤ (pos 0) if_old && not (eq_ℤ if_old old)
    then old_not_match old
    else stored (if is_update then int64_add old delta else delta)

-- The committed table after an update with this reply, which `expected` is without a fault of the
-- database: a value that was stored is in the table, unless the commit failed, and else the table is
-- unchanged.
abbrev pub Settles : Type 0 → Str → Stats → StatReply → StatReply → Stats → Type 0
Settles F key before expected (stored v) after =
    (expected ≡ stored v) × ((after ≡ put key v before) ⊎ (F × (after ≡ before)))
Settles F key before expected (old_not_match v) after =
    (expected ≡ old_not_match v) × (after ≡ before)
Settles F key before expected (failed e) after = (F ⊎ (expected ≡ failed e)) × (after ≡ before)

module _ {W : Type 0} (F : Type 0) (D : Database W) (V : View W Stats) (L : Laws F D V)
    (before : Stats) (n : ℕ) where
  abbrev Ends : Str → StatReply → StatReply → W → Type 0
  Ends key expected r w = Settles F key before expected r (V.committed w) × (V.open_count w ≡ n)

  roll_back_lem :
      (P : W → Type 0) (key : Str) (expected r : StatReply)
      → ((w : W) → P w → Inside V before n w)
      → ((w : W) → P w → Settles F key before expected r before)
      → Total P (roll_back D r) (Ends key expected)
  unfolding roll_back
  roll_back_lem P key expected r inside s =
      Total-rollback F D V L.transactions before n r P inside
        λ w w' p q. (subst (Settles F key before expected r) (sym q.0) (s w p), q.1)

  -- A call that failed in the transaction.
  after_fault :
      (key : Str) (expected : StatReply) (e : GoError)
      → Total (λ w. F × Inside V before n w) (roll_back D (failed e)) (Ends key expected)
  after_fault key expected e =
      roll_back_lem _ key expected (failed e) (λ w p. p.1) (λ w p. (inl p.0, refl))

  rolled :
      (key : Str) (r expected : StatReply)
      → Settles F key before expected r before
      → Total (InsideOn V before n before) (roll_back D r) (Ends key expected)
  rolled key r expected s = roll_back_lem _ key expected r (λ w p. (p.0, p.1)) (λ _ _. s)

  write_lem :
      (key sql : Str) (args : List Arg) (v : ℤ)
      → ((w : W) → InsideOn V before n before w → Writes F V (put key v) w (D.tx_exec sql args w))
      → Total (InsideOn V before n before) (write D sql args v) (Ends key (stored v))
  unfolding write roll_back
  write_lem key sql args v writes =
      Total-bind (Wrote F D V L.transactions before n (put key v before)) _ _
        (Total-write F D V L.transactions before n (put key v) before (D.tx_exec sql args) writes)
        after_statement
    where
      after_statement :
          (r : Result (Unit {0}))
          → Total
              (Wrote F D V L.transactions before n (put key v before) r)
              (elim r [
                | err e ↦ roll_back D (failed e)
                | ok _ ↦ attempt (run D.commit) >>= λ _. pure (stored v)
              ])
              (Ends key (stored v))
      after_statement (err e) = after_fault key (stored v) e
      after_statement (ok _) =
          Total-commit F D V L.transactions before n (stored v) (put key v before)
            λ w c o. ((refl, c), o)

  Ends-if :
      (key : Str) (b : Bool) (m m' : M W StatReply) {r r' : StatReply}
      → Total (InsideOn V before n before) m (Ends key r)
      → Total (InsideOn V before n before) m' (Ends key r')
      → Total (InsideOn V before n before) (if b then m else m') (Ends key (if b then r else r'))
  Ends-if key true m m' h h' = h
  Ends-if key false m m' h h' = h'

  insert_stat_lem :
      (key : Str) (delta if_old : ℤ) (is_update : Bool)
      → before key ≡ none
      → Total
          (InsideOn V before n before)
          (insert_stat D key delta if_old is_update)
          (Ends key (reply_to delta if_old is_update none))
  unfolding insert_stat
  insert_stat_lem key delta if_old is_update absent =
      Ends-if key (is_update && (leb_ℤ (pos 0) if_old && not (eq_ℤ if_old (pos 0)))) _ _
        (rolled key (old_not_match (pos 0)) (old_not_match (pos 0)) (refl, refl))
        (Ends-if key (ltb_ℤ delta (pos 0)) _ _
          (rolled key (failed negative_delta) (failed negative_delta) (inr refl, refl))
          (write_lem key sql_insert _ delta
            λ w p. L.insert w key delta (ap (λ (t : Stats). t key) p.2 ∙ absent)))

  replace_stat_lem :
      (key : Str) (delta if_old : ℤ) (is_update : Bool) (old : ℤ)
      → before key ≡ some old
      → Total
          (InsideOn V before n before)
          (replace_stat D key delta if_old is_update old)
          (Ends key (reply_to delta if_old is_update (some old)))
  unfolding replace_stat
  replace_stat_lem key delta if_old is_update old present =
      Ends-if key (leb_ℤ (pos 0) if_old && not (eq_ℤ if_old old)) _ _
        (rolled key (old_not_match old) (old_not_match old) (refl, refl))
        (write_lem key sql_update _ (if is_update then int64_add old delta else delta)
          λ w p. L.update w key _ (ap (λ (t : Stats). t key) p.2 ∙ present))

  -- The row is that of the table.
  with_row_lem :
      (key : Str) (delta if_old : ℤ) (is_update : Bool) (row : Result (Option ℤ))
      → Total
          (Selected F D V L.transactions before n (before key) row)
          (with_row D key delta if_old is_update row)
          (Ends key (reply_to delta if_old is_update (before key)))
  unfolding with_row
  with_row_lem key delta if_old is_update (err e) = after_fault key _ e
  with_row_lem key delta if_old is_update (ok none) = record {
    at = λ w p.
        (subst
            (λ o.
              Total (InsideOn V before n before) (insert_stat D key delta if_old is_update)
                (Ends key (reply_to delta if_old is_update o)))
            p.1 (insert_stat_lem key delta if_old is_update (sym p.1))).at
          w p.0;
  }
  with_row_lem key delta if_old is_update (ok (some old)) = record {
    at = λ w p.
        (subst
            (λ o.
              Total (InsideOn V before n before) (replace_stat D key delta if_old is_update old)
                (Ends key (reply_to delta if_old is_update o)))
            p.1 (replace_stat_lem key delta if_old is_update old (sym p.1))).at
          w p.0;
  }

  -- An update returns, ends the transaction that it began, and settles the table by the reply.
  update_or_set_stat_lem :
      (key : Str) (delta if_old : ℤ) (is_update : Bool)
      → Total
          (Outside V before n)
          (update_or_set_stat D key delta if_old is_update)
          (Ends key (reply_to delta if_old is_update (before key)))
  unfolding update_or_set_stat
  update_or_set_stat_lem key delta if_old is_update =
      Total-bind (Begun F D V L.transactions before n) _ _
        (Total-begin F D V L.transactions before n) after_begin
    where
      after_begin :
          (r : Result (Unit {0}))
          → Total
              (Begun F D V L.transactions before n r)
              (elim r [
                | err e ↦ pure (failed e)
                | ok _ ↦
                    attempt (run (D.tx_query_number sql_get (text key ∷ [])))
                    >>= with_row D key delta if_old is_update
              ])
              (Ends key (reply_to delta if_old is_update (before key)))
      after_begin (err e) = Total-pure (failed e) λ w p. ((inl p.0, p.1.0), p.1.1)
      after_begin (ok _) =
          Total-bind (Selected F D V L.transactions before n (before key)) _ _
            (Total-select F D V L.transactions before n (λ (t : Stats). t key)
              (D.tx_query_number sql_get (text key ∷ [])) (λ w. L.select w key))
            (with_row_lem key delta if_old is_update)

-- An update of a statistic returns on every branch, whatever fails in the database; the transaction
-- that it began has ended (as many are open as before); and by its reply: with an error of the
-- database the committed table is unchanged; else the reply is the one that the old value of the key
-- determines, with the value in the table, and no other changed, unless the commit, whose error is
-- dropped, left the table as it was. On a database that never fails (`F` is `⊥`) only the reply that
-- the old value determines and its table are left.
pub update_or_set_stat-Settles :
    {W : Type 0} (F : Type 0) (D : Database W) (V : View W Stats) (L : Laws F D V) (key : Str)
    (delta if_old : ℤ) (is_update : Bool) (w : W)
    → (r : StatReply) × (w' : W) × (update_or_set_stat D key delta if_old is_update w
        ≡ (returns r, w'))
      × (Settles F key
            (V.committed w)
            (reply_to delta if_old is_update (V.committed w key))
            r
            (V.committed w')
          × (V.open_count w' ≡ V.open_count w))
update_or_set_stat-Settles F D V L key delta if_old is_update w =
    (update_or_set_stat_lem F D V L (V.committed w) (V.open_count w) key delta if_old is_update).at
      w (refl, refl)
