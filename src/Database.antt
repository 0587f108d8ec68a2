-- ===== src/Database.antt =====
-- The SQL database of the messages and the statistics: what the program calls of database/sql and
-- its MySQL driver. `Database.Transactions` states what the program relies on in transactions.
pub mod Transactions
use datafoundry_proxy.Base.{ℕ, List, Option, Str}
use datafoundry_proxy.Base.Int.{ℤ}
use datafoundry_proxy.Effect.{Result}
use datafoundry_proxy.Json.Codec.{Value}

-- What stands for a `?` of a statement.
pub data Arg : Type 0 where
  text : Str → Arg
  number : ℤ → Arg
  json_text : Value → Arg

-- The columns that a query of the messages selects; the time as the driver reads it.
pub record Row : Type 0 where
  pub message_id : ℤ
  pub message_type : Str
  pub status : ℤ
  pub level : ℤ
  pub time : Str
  pub receiver : Str
  pub sender : Str
  pub hints : Str
  pub raw_data : Value

-- `none` for a row is sql.ErrNoRows.
pub record Database (W : Type 0) : Type 0 where
  -- db.Begin, tx.Commit and tx.Rollback
  pub begin : W → Result (Unit {0}) × W
  pub commit : W → Result (Unit {0}) × W
  pub rollback : W → Result (Unit {0}) × W
  -- tx.QueryRow(...).Scan(&number), and with a text before the number
  pub tx_query_number : Str → List Arg → W → Result (Option ℤ) × W
  pub tx_query_text_number : Str → W → Result (Option (Str × ℤ)) × W
  -- tx.Exec, and db.Exec, which gives the id of the row that was inserted and the count of the
  -- rows that were changed
  pub tx_exec : Str → List Arg → W → Result (Unit {0}) × W
  pub exec : Str → List Arg → W → Result (ℤ × ℕ) × W
  -- db.QueryRow(...).Scan(&number)
  pub query_number : Str → List Arg → W → Result (Option ℤ) × W
  -- db.Query with the loop over its rows, for rows of a message and for rows of a text and a number
  pub query_rows : Str → W → Result (List Row) × W
  pub query_counts : Str → W → Result (List (Str × ℤ)) × W
  -- time.Now().Format("2006-01-02 15:04:05.999999")
  pub now : W → Str × W
