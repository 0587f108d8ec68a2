-- ===== src/Messages/Notification/Query.antt =====
-- messages/notification/notification.go: the queries of the messages. A goroutine runs to its end
-- where it is started.
use datafoundry_proxy.Base.{
  ℕ, zero, suc, ◌+◌, List, [], ◌∷◌, ◌++◌, Option, none, some, Str, String, codes, str_eq, ltb, leb,
  ◌==◌, length, take, if◌then◌else◌,
}
use datafoundry_proxy.Base.Int.{
  ℤ, pos, negsuc, leb_ℤ, ltb_ℤ, eq_ℤ, int64_add, int64_sub, format_int,
}
use datafoundry_proxy.Effect.{M, pure, fail, panic, run, attempt, ◌>>=◌, ◌>>◌}
use datafoundry_proxy.Json.{Json}
use datafoundry_proxy.Json.Codec.{Value, json, text}
use datafoundry_proxy.Database.{Database, Row}
use datafoundry_proxy.Messages.Notification.{
  Message, status_unread, status_either, stat_category_message_type, stat_category_message_level,
  not_found, no_rows, modify_user_message,
}

-- validateOffsetAndLimit, whose pointers are the arguments and the results.
unfoldable pub validate_offset_and_limit : ℤ → ℤ → ℤ → ℤ × ℤ
validate_offset_and_limit count offset limit =
    let limit1 = if ltb_ℤ limit (pos 1) then pos 1 else limit in
    let offset1 = if leb_ℤ count offset then int64_sub count limit1 else offset in
    let offset2 = if ltb_ℤ offset1 (pos 0) then pos 0 else offset1 in
    let limit2 =
      if ltb_ℤ count (int64_add offset2 limit1) then int64_sub count offset2 else limit1 in
    (offset2, limit2)

-- The condition of getMessageByUserAndID.
unfoldable pub where_by_id : Str → ℤ → Str
where_by_id current_user message_id =
    codes " MESSAGE_ID="
    ++ (format_int message_id ++ (elim current_user [
      | [] ↦ []
      | c ∷ user ↦ codes " and RECEIVER='" ++ (c ∷ (user ++ codes "'"))
    ]))

-- ` and <column>='<text>'`, unless the text is blank.
abbrev pub and_text : String → Str → Str
and_text column [] = []
and_text column (c ∷ s) = codes " and " ++ (codes column ++ (codes "='" ++ (c ∷ (s ++ codes "'"))))

-- The condition of getUserMessages, and its order.
unfoldable pub where_of_user : Str → Str → ℤ → ℤ → Str → Str
where_of_user username message_type level status sender =
    codes " RECEIVER='"
    ++ (username
        ++ (codes "'"
            ++ (and_text "TYPE" message_type
                ++ ((if eq_ℤ status status_either
                      then []
                      else codes " and STATUS=" ++ format_int status)
                    ++ (and_text "SENDER" sender
                        ++ ((if leb_ℤ (pos 0) level
                              then codes " and LEVEL=" ++ format_int level
                              else [])
                            ++ codes " order by TIME desc"))))))

abbrev pub sql_count : Str → Str → Str
sql_count table sql_where =
    codes "select COUNT(*) from " ++ (table ++ (codes " where " ++ sql_where))

abbrev pub sql_select : Str → Str → ℤ → ℤ → Str
sql_select table sql_where limit offset =
    codes "select MESSAGE_ID, TYPE, STATUS, LEVEL, TIME, RECEIVER, SENDER, HINTS, DATA from "
    ++ (table
        ++ (codes " where "
            ++ (sql_where
                ++ (codes " limit "
                    ++ (format_int limit
                        ++ (codes " "
                            ++ ((if ltb_ℤ (pos 0) offset
                                  then codes "offset " ++ format_int offset
                                  else [])
                                ++ codes " ")))))))

abbrev pub sql_stats : Str → Str → Str → Str
sql_stats group_by table username =
    codes "select "
    ++ (group_by
        ++ (codes ", COUNT(*) FROM "
            ++ (table
                ++ (codes " where RECEIVER='"
                    ++ (username
                        ++ (codes "' and STATUS="
                            ++ (format_int status_unread ++ (codes " group by " ++ group_by))))))))

-- The slots of `make([]*Message, limit)`, which are nil.
abbrev pub nils : ℕ → List (Option Message)
nils zero = []
nils (suc n) = none ∷ nils n

-- `messages[num] = msg`
abbrev pub set_slot : ℕ → Message → List (Option Message) → List (Option Message)
set_slot i msg [] = []
set_slot zero msg (m ∷ l) = some msg ∷ l
set_slot (suc i) msg (m ∷ l) = m ∷ set_slot i msg l

-- `append`, where the slots are used up.
abbrev pub placed : ℕ → Message → List (Option Message) → List (Option Message)
placed num msg messages =
    if ltb num (length messages) then set_slot num msg messages else messages ++ some msg ∷ []

-- The loop over the rows: the slots, and `num` of them in use.
unfoldable pub fill_rows : List (Option Message) → ℕ → List Row → List (Option Message) × ℕ
fill_rows messages num [] = (messages, num)
fill_rows messages num (row ∷ rows) =
    fill_rows (placed num (record { row = row; json_data = none }) messages) (num + 1) rows

-- The longest slice of pointers, of 8 bytes each, for the 2^39 - 1 bytes that the heap of Go 1.7 (the
-- version of docker-compose.yml) can address on 64-bit Linux.
abbrev pub max_slots : ℕ
max_slots = 68719476735

-- `make` panics at a negative length and at one that is too large; `messages[:num]` is within the
-- slots. That the memory of the machine ends earlier is left out.
unfoldable pub slots_of : ℤ → Option (List (Option Message))
slots_of (pos n) = if leb n max_slots then some (nils n) else none
slots_of (negsuc n) = none

unfoldable pub filled : Option (List (Option Message)) → List Row → Option (List (Option Message))
unfolding fill_rows
filled none rows = none
filled (some slots) rows = let (messages, num) = fill_rows slots 0 rows in some (take num messages)

-- `json.Unmarshal([]byte(msg.Raw_data), &msg.Json_data)`, whose error is dropped.
abbrev pub parsed_data : Value → Option Json
parsed_data (json j) = some j
parsed_data (text s) = none

-- The loop that parses the data of each message; at a nil pointer it panics.
unfoldable pub parse_all : List (Option Message) → Option (List Message)
parse_all [] = some []
parse_all (none ∷ l) = none
parse_all (some m ∷ l) = elim (parse_all l) [
  | none ↦ none
  | some ms ↦ some (record m { json_data = parsed_data m.row.raw_data } ∷ ms)
]

abbrev pub or_panic : {W A : Type 0} → Option A → M W A
or_panic none = panic
or_panic (some a) = pure a

-- `stats[ttt] = ccc`
abbrev pub set_count : Str → ℤ → List (Str × ℤ) → List (Str × ℤ)
set_count key n [] = (key, n) ∷ []
set_count key n ((k, c) ∷ m) =
    let rest = set_count key n m in if str_eq k key then (key, n) ∷ m else (k, c) ∷ rest

abbrev pub counts_into : List (Str × ℤ) → List (Str × ℤ) → List (Str × ℤ)
counts_into stats [] = stats
counts_into stats ((key, n) ∷ rows) = counts_into (set_count key n stats) rows

-- The column of a category; `none` for the categories without one.
abbrev pub group_by_of : ℕ → Option Str
group_by_of category =
    if category == stat_category_message_type
    then some (codes "TYPE")
    else if category == stat_category_message_level
    then some (codes "LEVEL")
    else none

module _ {W : Type 0} (D : Database W) where
  unfoldable pub query_messages_count : Str → Str → M W ℤ
  query_messages_count table sql_where = do
    count ← run (D.query_number (sql_count table sql_where) [])
    elim count [ none ↦ fail no_rows | some n ↦ pure n ]

  unfoldable pub query_messages : Str → Str → ℤ → ℤ → M W (List (Option Message))
  query_messages table sql_where limit offset = do
    rows ← run (D.query_rows (sql_select table sql_where limit offset))
    or_panic (filled (slots_of limit) rows)

  -- A message, or a nil pointer, is returned as it is.
  unfoldable pub get_message_by_user_and_id : Str → Str → ℤ → M W (Option Message)
  unfolding query_messages
  get_message_by_user_and_id current_user table message_id = do
    messages ← query_messages table (where_by_id current_user message_id) (pos 1) (pos 0)
    elim messages [ [] ↦ fail not_found | m ∷ _ ↦ pure m ]

  -- The goroutine of getUserMessages.
  unfoldable pub mark_read : Str → Str → List Message → M W (Unit {0})
  mark_read username table [] = pure tt
  mark_read username table (m ∷ l) = do
    if eq_ℤ m.row.status status_unread
        then (do modify_user_message D username table m.row.message_id (codes "read"); pure tt)
        else pure tt
    mark_read username table l

  unfoldable pub get_user_messages : Str → Str → Str → ℤ → ℤ → Str → ℤ → ℤ → M W (ℤ × List Message)
  get_user_messages username table message_type level status sender offset limit = do
    let sql_where = where_of_user username message_type level status sender
    count ← query_messages_count table sql_where
    if eq_ℤ count (pos 0) then pure (pos 0, []) else do
      let page = validate_offset_and_limit count offset limit
      slots ← query_messages table sql_where page.1 page.0
      messages ← or_panic (parse_all slots)
      attempt (mark_read username table messages)
      pure (count, messages)

  -- `none` is the nil map.
  unfoldable pub retrieve_user_message_stats : Str → Str → ℕ → M W (Option (List (Str × ℤ)))
  retrieve_user_message_stats table username category = elim (group_by_of category) [
    | none ↦ pure none
    | some group_by ↦ do
      rows ← run (D.query_counts (sql_stats group_by table username))
      pure (some (counts_into [] rows))
  ]
