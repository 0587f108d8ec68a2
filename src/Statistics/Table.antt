-- ===== src/Statistics/Table.antt =====
-- statistics/statistics.go: the table of the statistics in the database.
pub mod Laws
pub mod Transactions
pub mod Healthy
use datafoundry_proxy.Base.{
  Bool, true, false, not, ◌&&◌, List, [], ◌∷◌, Option, none, some, Str, codes, if◌then◌else◌,
}
use datafoundry_proxy.Base.Int.{ℤ, pos, negsuc, leb_ℤ, ltb_ℤ, eq_ℤ, int64_add}
use datafoundry_proxy.Errors.{GoError, plain}
use datafoundry_proxy.Effect.{Result, ok, err, M, pure, run, attempt, ◌>>=◌, ◌>>◌}
use datafoundry_proxy.Database.{Database, Arg, text, number}

-- The pair of a number and an error that the functions return: `(stat, nil)`,
-- `(stat, ErrOldStatNotMatch)`, and `(0, err)` with another error.
pub data StatReply : Type 0 where
  stored : ℤ → StatReply
  old_not_match : ℤ → StatReply
  failed : GoError → StatReply

abbrev pub sql_get : Str
sql_get = codes "select STAT_VALUE from DF_ITEM_STAT where STAT_KEY=?"

abbrev pub sql_insert : Str
sql_insert = codes "insert into DF_ITEM_STAT (STAT_KEY, STAT_VALUE) values (?, ?)"

abbrev pub sql_update : Str
sql_update = codes "update DF_ITEM_STAT set STAT_VALUE=? where STAT_KEY=?"

abbrev pub sql_delete : Str
sql_delete = codes "delete from DF_ITEM_STAT where STAT_KEY=?"

abbrev pub negative_delta : GoError
negative_delta = plain (codes "stat delta can't be <= 0")

module _ {W : Type 0} (D : Database W) where
  -- `tx.Rollback(); return ...`
  unfoldable pub roll_back : StatReply → M W StatReply
  roll_back reply = do attempt (run D.rollback); pure reply

  -- `_, err := tx.Exec(...)`, then `tx.Commit()`, whose error is dropped.
  unfoldable pub write : Str → List Arg → ℤ → M W StatReply
  unfolding roll_back
  write sql args stat = do
    done ← attempt (run (D.tx_exec sql args))
    elim done [
      | err e ↦ roll_back (failed e)
      | ok _ ↦ do attempt (run D.commit); pure (stored stat)
    ]

  -- The branch of sql.ErrNoRows.
  unfoldable pub insert_stat : Str → ℤ → ℤ → Bool → M W StatReply
  unfolding roll_back write
  insert_stat key delta if_old_stat is_update =
      if is_update && (leb_ℤ (pos 0) if_old_stat && not (eq_ℤ if_old_stat (pos 0)))
      then roll_back (old_not_match (pos 0))
      else if ltb_ℤ delta (pos 0)
      then roll_back (failed negative_delta)
      else write sql_insert (text key ∷ number delta ∷ []) delta

  -- The branch of a row with the value `stat`.
  unfoldable pub replace_stat : Str → ℤ → ℤ → Bool → ℤ → M W StatReply
  unfolding roll_back write
  replace_stat key delta if_old_stat is_update stat =
      if leb_ℤ (pos 0) if_old_stat && not (eq_ℤ if_old_stat stat)
      then roll_back (old_not_match stat)
      else let new = if is_update then int64_add stat delta else delta in
        write sql_update (number new ∷ text key ∷ []) new

  unfoldable pub with_row : Str → ℤ → ℤ → Bool → Result (Option ℤ) → M W StatReply
  unfolding roll_back insert_stat replace_stat
  with_row key delta if_old_stat is_update (err e) = roll_back (failed e)
  with_row key delta if_old_stat is_update (ok none) = insert_stat key delta if_old_stat is_update
  with_row key delta if_old_stat is_update (ok (some stat)) =
      replace_stat key delta if_old_stat is_update stat

  unfoldable pub update_or_set_stat : Str → ℤ → ℤ → Bool → M W StatReply
  unfolding with_row
  update_or_set_stat key delta if_old_stat is_update = do
    begun ← attempt (run D.begin)
    elim begun [
      | err e ↦ pure (failed e)
      | ok _ ↦ do
        row ← attempt (run (D.tx_query_number sql_get (text key ∷ [])))
        with_row key delta if_old_stat is_update row
    ]

  unfoldable pub update_stat : Str → ℤ → M W StatReply
  unfolding update_or_set_stat
  update_stat key delta = update_or_set_stat key delta (negsuc 0) true

  unfoldable pub set_stat : Str → ℤ → M W StatReply
  unfolding update_or_set_stat
  set_stat key new_stat = update_or_set_stat key new_stat (negsuc 0) false

  unfoldable pub set_stat_if : Str → ℤ → ℤ → M W StatReply
  unfolding update_or_set_stat
  set_stat_if key new_stat if_old_stat = update_or_set_stat key new_stat if_old_stat false

  -- A statistic without a row is 0.
  unfoldable pub retrieve_stat : Str → M W ℤ
  retrieve_stat key = do
    row ← run (D.query_number sql_get (text key ∷ []))
    elim row [ none ↦ pure (pos 0) | some stat ↦ pure stat ]

  -- db.Exec does not return sql.ErrNoRows.
  unfoldable pub remove_stat : Str → M W ℤ
  remove_stat key = do
    num ← retrieve_stat key
    if eq_ℤ num (pos 0) then pure (pos 0) else do run (D.exec sql_delete (text key ∷ [])); pure num
