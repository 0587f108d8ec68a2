-- ===== src/Statistics/Table/Healthy.antt =====
-- The statistics on a database that never fails: what is written is read back.
use datafoundry_proxy.Base.{
  ◌≡◌, refl, sym, ap, ◌∙◌, ℕ, inl, inr, Bool-cases, Bool, false, [], ◌∷◌, Option, none, some, Str,
  str_eq_refl, if◌then◌else◌,
}
use datafoundry_proxy.Base.Int.{ℤ, pos, negsuc, ltb_ℤ, eq_ℤ, eq_ℤ_iff}
use datafoundry_proxy.Effect.{Result, ok, err, returns, run, pure, ◌>>=◌}
use datafoundry_proxy.Effect.Total.{bind-eq}
use datafoundry_proxy.Database.{Database, text}
use datafoundry_proxy.Statistics.Table.{
  StatReply, stored, old_not_match, failed, sql_get, sql_delete, update_or_set_stat, set_stat,
  retrieve_stat, remove_stat,
}
use datafoundry_proxy.Statistics.Table.Laws.{Stats, put, removed, Laws, Deletes}
use datafoundry_proxy.Database.Transactions.{View, Reads}
use datafoundry_proxy.Statistics.Table.Transactions.{reply_to, Settles, update_or_set_stat-Settles}

-- A statistic without a row counts as 0.
abbrev pub value_of : Option ℤ → ℤ
value_of none = pos 0
value_of (some v) = v

-- The table after an update with a reply that is known.
abbrev pub table_after : Str → StatReply → Stats → Stats
table_after key (stored v) t = put key v t
table_after key (old_not_match v) t = t
table_after key (failed e) t = t

set_reply :
    (v : ℤ) (old : Option ℤ) → ltb_ℤ v (pos 0) ≡ false → reply_to v (negsuc 0) false old ≡ stored v
set_reply v none h = rw h refl
set_reply v (some old) h = refl

nothing_left :
    (key : Str) (v : ℤ) (t : Stats)
    → value_of (t key) ≡ v
    → value_of ((if eq_ℤ v (pos 0) then t else removed key t) key) ≡ pos 0
nothing_left key v t e = elim (Bool-cases (eq_ℤ v (pos 0))) [
  | inl zero_value ↦ rw zero_value (e ∙ (eq_ℤ_iff v (pos 0)).0 zero_value)
  | inr other ↦ rw (other, str_eq_refl key) refl
]

module _ {W : Type 0} (D : Database W) (V : View W Stats) (L : Laws ⊥ D V) where
  settled :
      (key : Str) (before after : Stats) (expected r : StatReply)
      → Settles ⊥ key before expected r after
      → (r ≡ expected) × (after ≡ table_after key expected before)
  settled key before after expected (stored v) (e, inl t) =
      (sym e, t ∙ ap (λ r. table_after key r before) (sym e))
  settled key before after expected (stored v) (e, inr (no_fault, _)) = elim no_fault [ ]
  settled key before after expected (old_not_match v) (e, t) =
      (sym e, t ∙ ap (λ r. table_after key r before) (sym e))
  settled key before after expected (failed x) (inl no_fault, t) = elim no_fault [ ]
  settled key before after expected (failed x) (inr e, t) =
      (sym e, t ∙ ap (λ r. table_after key r before) (sym e))

  pub update_or_set_stat-Gives :
      (key : Str) (delta if_old : ℤ) (is_update : Bool) (w : W) (t : Stats)
      → V.committed w ≡ t
      → (w' : W) × (update_or_set_stat D key delta if_old is_update w
          ≡ (returns (reply_to delta if_old is_update (t key)), w'))
        × (V.committed w' ≡ table_after key (reply_to delta if_old is_update (t key)) t)
  update_or_set_stat-Gives key delta if_old is_update w t e =
      let (r, w', ran, (s, _)) = update_or_set_stat-Settles ⊥ D V L key delta if_old is_update w in
      let (same, after) = settled key _ _ _ r s in
      (
        w',
        ran
            ∙ ap (λ r. (returns r, w'))
                (same ∙ ap (λ (t : Stats). reply_to delta if_old is_update (t key)) e),
        after ∙ ap (λ (t : Stats). table_after key (reply_to delta if_old is_update (t key)) t) e,
      )

  pub retrieve_stat-Gives :
      (key : Str) (w : W) (t : Stats)
      → V.committed w ≡ t
      → (w' : W) × (retrieve_stat D key w ≡ (returns (value_of (t key)), w')) × (V.committed w' ≡ t)
  unfolding retrieve_stat ◌>>=◌
  retrieve_stat-Gives key w t e = go (D.query_number sql_get (text key ∷ []) w) refl (L.read w key)
    where
      go :
          (r : Result (Option ℤ) × W)
          → D.query_number sql_get (text key ∷ []) w ≡ r
          → Reads ⊥ V (V.committed w key) w r
          → (w' : W) × (retrieve_stat D key w ≡ (returns (value_of (t key)), w'))
            × (V.committed w' ≡ t)
      go (ok none, w') i (l, _, row) = (w', rw (i, ◌>>=◌, ← e, ← row) refl, l.0 ∙ e)
      go (ok (some v), w') i (l, _, row) = (w', rw (i, ◌>>=◌, ← e, ← row) refl, l.0 ∙ e)
      go (err x, w') i (no_fault, _) = elim no_fault [ ]

  pub remove_stat-Gives :
      (key : Str) (w : W) (t : Stats)
      → V.committed w ≡ t
      → (w' : W) × (remove_stat D key w ≡ (returns (value_of (t key)), w'))
        × (V.committed w' ≡ (if eq_ℤ (value_of (t key)) (pos 0) then t else removed key t))
  unfolding remove_stat
  remove_stat-Gives key w t e =
      let (w', got, same) = retrieve_stat-Gives key w t e in
      let (w'', done, after) = by_value (value_of (t key)) w' same in
      (w'', bind-eq (retrieve_stat D key) _ got ∙ done, after)
    where
      deleted :
          (v : ℤ) (w' : W) (r : Result (ℤ × ℕ) × W)
          → V.committed w' ≡ t
          → D.exec sql_delete (text key ∷ []) w' ≡ r
          → Deletes ⊥ V key w' r
          → (w'' : W) × ((run (D.exec sql_delete (text key ∷ [])) >>= λ _. pure v) w'
              ≡ (returns v, w''))
            × (V.committed w'' ≡ removed key t)
      deleted v w' (ok n, w'') same i d = (
        w'',
        bind-eq (run (D.exec sql_delete (text key ∷ []))) _ {a = n} (rw i refl),
        d.0 ∙ ap (removed key) same,
      )
      deleted v w' (err x, w'') same i (no_fault, _) = elim no_fault [ ]

      by_value :
          (v : ℤ) (w' : W)
          → V.committed w' ≡ t
          → (w'' : W) × ((if eq_ℤ v (pos 0)
                  then pure (pos 0)
                  else run (D.exec sql_delete (text key ∷ [])) >>= λ _. pure v)
                w'
              ≡ (returns v, w''))
            × (V.committed w'' ≡ (if eq_ℤ v (pos 0) then t else removed key t))
      by_value v w' same = elim (Bool-cases (eq_ℤ v (pos 0))) [
        | inl zero_value ↦ (
          w',
          rw zero_value (ap (λ v. (returns v, w')) (sym ((eq_ℤ_iff v (pos 0)).0 zero_value))),
          rw zero_value same,
        )
        | inr other ↦
            let (w'', ran, after) =
              deleted v w' (D.exec sql_delete (text key ∷ []) w') same refl (L.delete w' key) in
            (w'', rw other ran, rw other after)
      ]

  pub set_stat-Gives :
      (key : Str) (v : ℤ) (w : W) (t : Stats)
      → ltb_ℤ v (pos 0) ≡ false
      → V.committed w ≡ t
      → (w' : W) × (set_stat D key v w ≡ (returns (stored v), w')) × (V.committed w' ≡ put key v t)
  unfolding set_stat
  set_stat-Gives key v w t h e =
      let (w', ran, after) = update_or_set_stat-Gives key v (negsuc 0) false w t e in
      let reply = set_reply v (t key) h in
      (w', ran ∙ ap (λ r. (returns r, w')) reply, after ∙ ap (λ r. table_after key r t) reply)

-- On a database that never fails, after SetStat with a value that is not negative, RemoveStat returns
-- that value, and RetrieveStat then returns 0.
pub remove_stat-set_stat :
    {W : Type 0} (D : Database W) (V : View W Stats) (L : Laws ⊥ D V) (key : Str) (v : ℤ) (w : W)
    → ltb_ℤ v (pos 0) ≡ false
    → (w1 : W) × (w2 : W) × (w3 : W) × (set_stat D key v w ≡ (returns (stored v), w1))
      × (remove_stat D key w1 ≡ (returns v, w2))
      × (retrieve_stat D key w2 ≡ (returns (pos 0), w3))
remove_stat-set_stat D V L key v w h =
    let (w1, set, after) = set_stat-Gives D V L key v w (V.committed w) h refl in
    let there : put key v (V.committed w) key ≡ some v = rw str_eq_refl refl in
    let (w2, gone, left) = remove_stat-Gives D V L key w1 (put key v (V.committed w)) after in
    let (w3, read, _) = retrieve_stat-Gives D V L key w2 _ left in
    (
      w1,
      w2,
      w3,
      set,
      gone ∙ ap (λ o. (returns (value_of o), w2)) there,
      read ∙ ap (λ v. (returns v, w3)) (nothing_left key _ (put key v (V.committed w)) refl),
    )
