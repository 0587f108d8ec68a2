-- ===== src/Messages/Handlers/Listing.antt =====
-- What GetMyMessages asks the database for, and answers.
use datafoundry_proxy.Base.{
  ℕ, zero, suc, ◌+◌, ◌*◌, ◌%◌, ◌≤◌, ◌<◌, ◌≡◌, refl, true, List, [], none, some, Str, codes, arith,
  Bool-cases, inl, inr, ltb,
}
use datafoundry_proxy.Base.Int.{pos, eq_ℤ, int64_mul, int64_half, int64_mod}
use datafoundry_proxy.Errors.{GoError}
use datafoundry_proxy.Effect.{ok, returns, ◌>>=◌}
use datafoundry_proxy.Database.{Database, Row}
use datafoundry_proxy.Messages.Params.Page.{optional_offset_and_size-bounds}
use datafoundry_proxy.Messages.Params.Must.{given, Words, must_current_user_name}
use datafoundry_proxy.Messages.Answer.{MessageRequest, json_result, query_list}
use datafoundry_proxy.Messages.Handlers.{get_my_messages}
use datafoundry_proxy.Messages.Notification.{message_table_name, level_any, status_either}
use datafoundry_proxy.Messages.Notification.Query.{where_of_user, sql_count, sql_select, mark_read}
use datafoundry_proxy.Messages.Notification.Page.{
  half_range, page_of, page_of-bounds, limit_of, offset_of,
}
use datafoundry_proxy.Messages.Notification.Rows.{messages_of}
use datafoundry_proxy.Messages.Notification.Answers.{get_user_messages-returns}
use datafoundry_proxy.Messages.Notification.Upgrade.{Server, is_serving}

-- A product of 64-bit numbers is one.
offset_of-int64_mul : (a b : ℕ) → offset_of (int64_mul (pos a) (pos b)) < int64_half
unfolding int64_mul
offset_of-int64_mul a b = elim (Bool-cases (ltb ((a * b) % int64_mod) int64_half)) [
  | inl small ↦ rw small (ground (arith, small))
  | inr large ↦ rw large (omega arith)
]

limit_of-id : (s : ℕ) → 1 ≤ s → limit_of (pos s) ≡ s
limit_of-id zero h = elim h [ ]
limit_of-id (suc n) h = refl

-- The condition of a query without any filter.
abbrev pub where_of : Str → Str
where_of user = where_of_user user [] level_any status_either []

-- For a caller with messages (fewer than 2^62) and a query without filters, whatever its page and size
-- say: where the database answers the count, and every query for a page within the messages, then
-- GetMyMessages asks for one such page, of 1 to 100 messages, and answers 200 with the count and the
-- messages of the rows that it got.
pub get_my_messages-page :
    {W : Type 0} (D : Database W) (V : Words) (error_text : GoError → Str) (r : MessageRequest)
    (s : Server W) {user : Str} {count : ℕ} {w1 : W}
    → is_serving s ≡ true
    → must_current_user_name r.user ≡ given user
    → r.form (codes "level") ≡ []
    → r.form (codes "status") ≡ []
    → r.form (codes "type") ≡ []
    → r.form (codes "sender") ≡ []
    → suc count < half_range
    → D.query_number (sql_count message_table_name (where_of user)) [] s.world
      ≡ (ok (some (pos (suc count))), w1)
    → ((o l : ℕ)
        → 1 ≤ l
        → o + l ≤ suc count
        → (rows : List Row) × (w2 : W) × (D.query_rows
              (sql_select message_table_name (where_of user) (pos l) (pos o))
              w1
            ≡ (ok rows, w2)))
    → (o : ℕ) × (l : ℕ) × (rows : List Row) × (w2 : W) × (1 ≤ l)
      × (l ≤ 100)
      × (o + l ≤ suc count)
      × (D.query_rows (sql_select message_table_name (where_of user) (pos l) (pos o)) w1
          ≡ (ok rows, w2))
      × (get_my_messages D V error_text r s ≡ (
        returns (json_result 200 none (query_list (pos (suc count)) (messages_of rows))),
        record s { world = (mark_read D user message_table_name (messages_of rows) w2).1 },
      ))
unfolding get_my_messages is_serving eq_ℤ ◌>>=◌
get_my_messages-page D V error_text r s {user} {count} {w1} serving who level status type_blank
      sender few counted answers =
    let (p, n, _, bounds, asked) =
      optional_offset_and_size-bounds (r.form (codes "page")) (r.form (codes "size")) (pos 30) 1 100
        (omega arith) (omega arith) in
    let offset = int64_mul (pos p) (pos n) in
    let length_is : limit_of (pos n) ≡ n = limit_of-id n bounds.0 in
    let (one, inside, short, _) =
      page_of-bounds (suc count) (offset_of offset) (limit_of (pos n)) (omega arith)
        (omega (arith, length_is, bounds.0)) in
    let (o, l) = page_of (suc count) (offset_of offset) (limit_of (pos n)) in
    let (rows, w2, answered) = answers o l one inside in
    (
      o,
      l,
      rows,
      w2,
      one,
      omega (arith, short, length_is, bounds.1),
      inside,
      answered,
      rw
          (
            serving,
            who,
            level,
            status,
            type_blank,
            sender,
            asked,
            get_user_messages-returns D user message_table_name [] [] level_any status_either offset
                (pos n) s.world few (offset_of-int64_mul p n) (omega (arith, length_is, bounds.1))
                counted answered,
          )
          refl,
    )
