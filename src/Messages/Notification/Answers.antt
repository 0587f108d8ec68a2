-- ===== src/Messages/Notification/Answers.antt =====
-- What a query of a user's messages answers.
use datafoundry_proxy.Base.{
  arith, ℕ, suc, ◌≤◌, ◌<◌, ◌≡◌, refl, not, str_eq, List, [], ◌∷◌, Option, none, some, Str, codes,
  true, false,
}
use datafoundry_proxy.Base.Int.{ℤ, pos, eq_ℤ, int64_half}
use datafoundry_proxy.Effect.{Result, ok, err, returns, pure, run, attempt, ◌>>=◌}
use datafoundry_proxy.Effect.Total.{
  AlwaysReturns, always_attempt, always_pure, always_if, always_bind,
}
use datafoundry_proxy.Database.{Database, Row}
use datafoundry_proxy.Messages.Notification.{
  Message, Modified, undo, write_status, with_message, modify_user_message, sql_set_status,
  sql_status, status_of_action, status_either, status_unread, no_rows, other_receiver,
}
use datafoundry_proxy.Messages.Notification.Query.{
  max_slots, where_of_user, sql_count, sql_select, query_messages_count, query_messages,
  get_user_messages, mark_read,
}
use datafoundry_proxy.Messages.Notification.Page.{
  half_range, page_of, page_of-bounds, limit_of-positive, limit_of, offset_of,
  validate_offset_and_limit-page_of,
}
use datafoundry_proxy.Messages.Notification.Rows.{
  pointers, messages_of, filled-pointers, parse_all-pointers,
}

module _ {W : Type 0} (D : Database W) where
  undo-returns : (r : Modified) → AlwaysReturns (undo D r)
  unfolding undo
  undo-returns r = always_bind _ _ (always_attempt D.rollback) (λ _. always_pure r)

  write_status-returns :
      (table : Str) (status id : ℤ) → AlwaysReturns (write_status D table status id)
  unfolding write_status
  write_status-returns table status id =
      always_bind _ _ (always_attempt (D.tx_exec (sql_set_status table status id) [])) written
    where
      written :
          (r : Result (Unit {0}))
          → AlwaysReturns {W = W} {A = Modified} (elim r [
            | err e ↦ undo D (true, some e)
            | ok _ ↦ attempt (run D.commit) >>= λ _. pure (true, none)
          ])
      written (err e) = undo-returns (true, some e)
      written (ok _) = always_bind _ _ (always_attempt D.commit) (λ _. always_pure (true, none))

  with_message-returns :
      (user table : Str) (status id : ℤ) (row : Result (Option (Str × ℤ)))
      → AlwaysReturns (with_message D user table status id row)
  unfolding with_message
  with_message-returns user table status id (err e) = undo-returns (true, some e)
  with_message-returns user table status id (ok none) = undo-returns (true, some no_rows)
  with_message-returns user table status id (ok (some (receiver, old))) =
      always_if (not (str_eq receiver user)) _ _ (undo-returns (true, some other_receiver)) (
        always_if (eq_ℤ old status) _ _ (undo-returns (true, none))
          (write_status-returns table status id))

  pub modify_user_message-returns :
      (user table : Str) (id : ℤ) (action : Str)
      → AlwaysReturns (modify_user_message D user table id action)
  unfolding modify_user_message
  modify_user_message-returns user table id action =
      always_if (eq_ℤ (status_of_action action) status_either) _ _ (always_pure (false, none))
        (always_bind _ _ (always_attempt D.begin) begun)
    where
      begun :
          (r : Result (Unit {0}))
          → AlwaysReturns {W = W} {A = Modified} (elim r [
            | err e ↦ pure (true, some e)
            | ok _ ↦
                attempt (run (D.tx_query_text_number (sql_status table id)))
                >>= with_message D user table (status_of_action action) id
          ])
      begun (err e) = always_pure (true, some e)
      begun (ok _) =
          always_bind _ _ (always_attempt (D.tx_query_text_number (sql_status table id)))
            (with_message-returns user table (status_of_action action) id)

  mark_read-returns :
      (user table : Str) (l : List Message) → AlwaysReturns (mark_read D user table l)
  unfolding mark_read
  mark_read-returns user table [] = always_pure tt
  mark_read-returns user table (m ∷ l) =
      always_bind _ _
        (always_if (eq_ℤ m.row.status status_unread) _ _
          (always_bind _ _ (modify_user_message-returns user table m.row.message_id (codes "read"))
            (λ _. always_pure tt))
          (always_pure tt))
        (λ _. mark_read-returns user table l)

  marked :
      (user table : Str) (l : List Message) (w : W)
      → mark_read D user table l w ≡ (returns tt, (mark_read D user table l w).1)
  marked user table l w = let (_, w', e, _) = (mark_read-returns user table l).at w tt in rw e refl

  -- A query that the database answers neither fails nor panics on the slots.
  pub query_messages-eq :
      (table sql_where : Str) (limit : ℕ) (offset : ℤ) (w : W) {rows : List Row} {w' : W}
      → limit ≤ max_slots
      → D.query_rows (sql_select table sql_where (pos limit) offset) w ≡ (ok rows, w')
      → query_messages D table sql_where (pos limit) offset w ≡ (returns (pointers rows), w')
  unfolding query_messages ◌>>=◌
  query_messages-eq table sql_where limit offset w {rows} fits e =
      rw (e, filled-pointers limit rows fits) refl

  query_messages_count-eq :
      (table sql_where : Str) (w : W) {n : ℤ} {w' : W}
      → D.query_number (sql_count table sql_where) [] w ≡ (ok (some n), w')
      → query_messages_count D table sql_where w ≡ (returns n, w')
  unfolding query_messages_count ◌>>=◌
  query_messages_count-eq table sql_where w e = rw e refl

some_there : (count : ℕ) → eq_ℤ (pos (suc count)) (pos 0) ≡ false
unfolding eq_ℤ
some_there count = ground arith

-- Where the database answers the query for the count with `count` (1 at least, and below 2^62), and
-- the query for the page of these messages (for a limit of at most 2^36 - 1, for which Go can make a slice) with any rows, more or fewer than
-- the page asks for: getUserMessages returns the count and the messages of exactly these rows, in
-- their order, with their data parsed; it does not panic, whatever its goroutine, which marks the
-- unread ones as read, meets.
pub get_user_messages-returns :
    {W : Type 0} (D : Database W) (username table message_type sender : Str)
    (level status offset limit : ℤ) (w : W) {count : ℕ} {w1 w2 : W} {rows : List Row}
    → suc count < half_range
    → offset_of offset < int64_half
    → limit_of limit ≤ max_slots
    → D.query_number
        (sql_count table (where_of_user username message_type level status sender))
        []
        w
      ≡ (ok (some (pos (suc count))), w1)
    → D.query_rows
        (sql_select table
          (where_of_user username message_type level status sender)
          (pos (page_of (suc count) (offset_of offset) (limit_of limit)).1)
          (pos (page_of (suc count) (offset_of offset) (limit_of limit)).0))
        w1
      ≡ (ok rows, w2)
    → get_user_messages D username table message_type level status sender offset limit w ≡ (
      returns (pos (suc count), messages_of rows),
      (mark_read D username table (messages_of rows) w2).1,
    )
unfolding get_user_messages ◌>>=◌
get_user_messages-returns D username table message_type sender level status offset limit w {count}
      {w1} {w2} {rows} c h l counted answered =
    let page = validate_offset_and_limit-page_of (suc count) offset limit c h (omega arith) in
    let (one, inside, short, start) =
      page_of-bounds (suc count) (offset_of offset) (limit_of limit) (omega arith)
        (limit_of-positive limit) in
    rw
      (
        query_messages_count-eq D table (where_of_user username message_type level status sender) w
            counted,
        some_there count,
        page,
        query_messages-eq D table (where_of_user username message_type level status sender) _ _ w1
            (omega arith) answered,
        parse_all-pointers rows,
        marked D username table (messages_of rows) w2,
      )
      refl
