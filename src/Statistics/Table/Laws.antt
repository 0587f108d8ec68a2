-- ===== src/Statistics/Table/Laws.antt =====
-- What the statistics rely on in the database, beside its transactions: the statements of this package
-- read and write the row of one key.
use datafoundry_proxy.Base.{ℕ, ◌≡◌, [], ◌∷◌, Option, none, some, Str, str_eq, if◌then◌else◌}
use datafoundry_proxy.Base.Int.{ℤ}
use datafoundry_proxy.Effect.{Result, ok, err}
use datafoundry_proxy.Database.{Database, text, number}
use datafoundry_proxy.Database.Transactions.{View, Leaves, TxLaws, Writes, Reads}
use datafoundry_proxy.Statistics.Table.{sql_get, sql_insert, sql_update, sql_delete}

-- The values of the statistics by their keys.
abbrev pub Stats : Type 0
Stats = Str → Option ℤ

abbrev pub put : Str → ℤ → Stats → Stats
put key v t k = if str_eq k key then some v else t k

abbrev pub removed : Str → Stats → Stats
removed key t k = if str_eq k key then none else t k

module _ {W : Type 0} (F : Type 0) where
  abbrev pub Deletes : View W Stats → Str → W → Result (ℤ × ℕ) × W → Type 0
  Deletes V key w (ok _, w') =
      (V.committed w' ≡ removed key (V.committed w)) × (V.open_count w' ≡ V.open_count w)
  Deletes V key w (err _, w') = F × Leaves V w w'

  pub record Laws (D : Database W) (V : View W Stats) : Type 0 where
    pub transactions : TxLaws F D V
    pub select :
        (w : W) (key : Str)
        → Reads F V (V.pending w key) w (D.tx_query_number sql_get (text key ∷ []) w)
    pub insert :
        (w : W) (key : Str) (v : ℤ)
        → V.pending w key ≡ none
        → Writes F V (put key v) w (D.tx_exec sql_insert (text key ∷ number v ∷ []) w)
    pub update :
        (w : W) (key : Str) (v : ℤ) {old : ℤ}
        → V.pending w key ≡ some old
        → Writes F V (put key v) w (D.tx_exec sql_update (number v ∷ text key ∷ []) w)
    pub read :
        (w : W) (key : Str)
        → Reads F V (V.committed w key) w (D.query_number sql_get (text key ∷ []) w)
    pub delete : (w : W) (key : Str) → Deletes V key w (D.exec sql_delete (text key ∷ []) w)
