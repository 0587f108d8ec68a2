-- ===== src/Tests/Database.antt =====
-- A database in memory that never fails, for the statistics and for one message.
use datafoundry_proxy.Base.{
  ℕ, suc, ◌-◌, refl, List, [], ◌∷◌, Option, none, some, Str, str_eq, codes, arith,
}
use datafoundry_proxy.Base.Int.{ℤ, pos}
use datafoundry_proxy.Effect.{Result, ok}
use datafoundry_proxy.Json.Codec.{Value}
use datafoundry_proxy.Json.{Json}
use datafoundry_proxy.Database.{Database, Arg, text, number, Row}
use datafoundry_proxy.Database.Transactions.{View}
use datafoundry_proxy.Statistics.Table.Laws.{Stats, put, removed, Laws}
use datafoundry_proxy.Messages.Notification.{status_of_action}
use datafoundry_proxy.Messages.Notification.Modify.{Mailbox, set_status, MessageLaws}

pub record Memory (S : Type 0) : Type 0 where
  pub committed : S
  pub pending : S
  pub open_count : ℕ

abbrev pub memory_view : {S : Type 0} → View (Memory S) S
memory_view = record {
  committed = λ w. w.committed;
  pending = λ w. w.pending;
  open_count = λ w. w.open_count;
}

abbrev pub resting : {S : Type 0} → S → Memory S
resting s = record { committed = s; pending = s; open_count = 0 }

module _ {S : Type 0} where
  abbrev opened : Memory S → Result (Unit {0}) × Memory S
  opened w = (
    ok tt,
    record { committed = w.committed; pending = w.committed; open_count = suc w.open_count },
  )

  abbrev kept : Memory S → Result (Unit {0}) × Memory S
  kept w =
      (ok tt, record { committed = w.pending; pending = w.pending; open_count = w.open_count - 1 })

  abbrev dropped : Memory S → Result (Unit {0}) × Memory S
  dropped w = (ok tt, record w { open_count = w.open_count - 1 })

  abbrev changed : (S → S) → Memory S → Result (Unit {0}) × Memory S
  changed f w = (ok tt, record w { pending = f w.pending })

-- The arguments tell the statements of the statistics apart.
abbrev stats_exec_tx : Str → List Arg → Memory Stats → Result (Unit {0}) × Memory Stats
stats_exec_tx sql (text k ∷ number v ∷ []) w = changed (put k v) w
stats_exec_tx sql (number v ∷ text k ∷ []) w = changed (put k v) w
stats_exec_tx sql _ w = (ok tt, w)

abbrev stats_exec : Str → List Arg → Memory Stats → Result (ℤ × ℕ) × Memory Stats
stats_exec sql (text k ∷ []) w = (ok (pos 0, 1), record w { committed = removed k w.committed })
stats_exec sql _ w = (ok (pos 0, 0), w)

abbrev stats_row : Stats → List Arg → Option ℤ
stats_row t (text k ∷ []) = t k
stats_row t _ = none

abbrev pub stats_memory : Database (Memory Stats)
stats_memory = record {
  begin = opened;
  commit = kept;
  rollback = dropped;
  tx_query_number = λ sql args w. (ok (stats_row w.pending args), w);
  tx_query_text_number = λ sql w. (ok none, w);
  tx_exec = stats_exec_tx;
  exec = stats_exec;
  query_number = λ sql args w. (ok (stats_row w.committed args), w);
  query_rows = λ sql w. (ok [], w);
  query_counts = λ sql w. (ok [], w);
  now = λ w. (codes "2016-08-01 10:00:00", w);
}

-- Its transactions, and so its statistics, keep the laws with no fault at all.
pub stats_memory-laws : Laws ⊥ stats_memory memory_view
stats_memory-laws = record {
  transactions = record {
    begin = λ w. (refl, refl, refl);
    commit = λ w h. (refl, omega arith);
    rollback = λ w h. (refl, omega arith);
  };
  select = λ w key. ((refl, refl), refl, refl);
  insert = λ w key v h. ((refl, refl), refl);
  update = λ w key v h. ((refl, refl), refl);
  read = λ w key. ((refl, refl), refl, refl);
  delete = λ w key. (refl, refl);
}

-- The message 7, whatever the statement; it is for alice, and unread.
abbrev pub mailbox : Mailbox
mailbox k = some (codes "alice", pos 0)

abbrev pub row_7 : Row
row_7 = record {
  message_id = pos 7;
  message_type = codes "sitenotify";
  status = pos 0;
  level = pos 0;
  time = codes "2016-08-01 10:00:00";
  receiver = codes "alice";
  sender = codes "bob";
  hints = codes "invite,org";
  raw_data = Value.json (Json.num (pos 5));
}

abbrev pub mail_with : Row → Database (Memory Mailbox)
mail_with row = record {
  begin = opened;
  commit = kept;
  rollback = dropped;
  tx_query_number = λ sql args w. (ok none, w);
  tx_query_text_number = λ sql w. (ok (w.pending (pos 7)), w);
  tx_exec = λ sql args w. changed (set_status (pos 7) (pos 1)) w;
  exec = λ sql args w. (ok (pos 7, 1), w);
  query_number = λ sql args w. (ok (some (pos 3)), w);
  query_rows = λ sql w. (ok (row ∷ []), w);
  query_counts = λ sql w. (ok [], w);
  now = λ w. (codes "2016-08-01 10:00:00", w);
}

abbrev pub mail_memory : Database (Memory Mailbox)
mail_memory = mail_with row_7

pub mail_memory-laws :
    (table : Str)
    → MessageLaws ⊥ mail_memory memory_view table (pos 7) (status_of_action (codes "read"))
unfolding str_eq
mail_memory-laws table = record {
  transactions = record {
    begin = λ w. (refl, refl, refl);
    commit = λ w h. (refl, omega arith);
    rollback = λ w h. (refl, omega arith);
  };
  select = λ w. ((refl, refl), refl, refl);
  update = λ w. ((refl, refl), refl);
}
