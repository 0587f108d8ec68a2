-- ===== src/Messages/Notification.antt =====
-- messages/notification/notification.go: the messages of the users, in a table of the database. The
-- line breaks and tabs of the statements are written as single spaces.
pub mod Upgrade
pub mod Page
pub mod Query
pub mod Rows
pub mod Answers
pub mod Modify
use datafoundry_proxy.Base.{
  ℕ, zero, suc, ◌+◌, Bool, true, false, not, ◌&&◌, List, [], ◌∷◌, ◌++◌, Option, none, some, Str,
  codes, str_eq, ◌==◌, leb, length, take, if◌then◌else◌,
}
use datafoundry_proxy.Base.Int.{
  ℤ, pos, negsuc, leb_ℤ, ltb_ℤ, eq_ℤ, int64_add, int64_sub, format_int,
}
use datafoundry_proxy.Errors.{GoError, plain}
use datafoundry_proxy.Effect.{
  Result, ok, err, M, pure, fail, panic, call, run, attempt, ◌>>=◌, ◌>>◌,
}
use datafoundry_proxy.Json.{Json}
use datafoundry_proxy.Json.Codec.{Value, json, text}
use datafoundry_proxy.Database.{Database, Row, json_text}

-- Status_Unread, Status_Read and Status_Either
abbrev pub status_unread : ℤ
status_unread = pos 0

abbrev pub status_read : ℤ
status_read = pos 1

abbrev pub status_either : ℤ
status_either = pos 2

-- Level_Any, and the categories of statistics
abbrev pub level_any : ℤ
level_any = negsuc 0

abbrev pub stat_category_unknown : ℕ
stat_category_unknown = 0

abbrev pub stat_category_message_type : ℕ
stat_category_message_type = 1

abbrev pub stat_category_message_level : ℕ
stat_category_message_level = 2

-- The struct Message: a row, and `Json_data`, which the queries leave nil.
pub record Message : Type 0 where
  pub row : Row
  pub json_data : Option Json

abbrev pub message_table_name : Str
message_table_name = codes "DF_MESSAGE"

abbrev pub not_found : GoError
not_found = plain (codes "not found")

-- sql.ErrNoRows, where it is returned.
abbrev pub no_rows : GoError
no_rows = plain (codes "sql: no rows in result set")

-- The statement of createMessage, with its time.
abbrev pub sql_create : Str → Str → Str → Str → ℤ → Str → Str → Str
sql_create table message_type receiver sender level hints now =
    codes "insert into "
    ++ (table
        ++ (codes " ( TYPE, STATUS, LEVEL, TIME, RECEIVER, SENDER, HINTS, DATA ) values ( '"
            ++ (message_type
                ++ (codes "', "
                    ++ (format_int status_unread
                        ++ (codes ", "
                            ++ (format_int level
                                ++ (codes ", '"
                                    ++ (now
                                        ++ (codes "', '"
                                            ++ (receiver
                                                ++ (codes "', '"
                                                    ++ (sender
                                                        ++ (codes "', '"
                                                            ++ (hints
                                                            ++ codes "', ? )")))))))))))))))

abbrev pub sql_delete_message : Str → Str → ℤ → Str
sql_delete_message table receiver id =
    codes "delete from "
    ++ (table
        ++ (codes " where RECEIVER='"
            ++ (receiver ++ (codes "' and MESSAGE_ID=" ++ (format_int id ++ codes " ")))))

abbrev pub sql_status : Str → ℤ → Str
sql_status table id =
    codes "select RECEIVER, STATUS from "
    ++ (table ++ (codes " where MESSAGE_ID=" ++ format_int id))

abbrev pub sql_set_status : Str → ℤ → ℤ → Str
sql_set_status table status id =
    codes "update "
    ++ (table
        ++ (codes " set STATUS="
            ++ (format_int status ++ (codes " where MESSAGE_ID=" ++ format_int id))))

abbrev pub sql_set_data : Str → ℤ → Str
sql_set_data table id =
    codes "update " ++ (table ++ (codes " set DATA=? where MESSAGE_ID=" ++ format_int id))

-- The status that an action of modifyUserMessage asks for.
abbrev pub status_of_action : Str → ℤ
status_of_action action =
    if str_eq action (codes "read")
    then status_read
    else if str_eq action (codes "unread")
    then status_unread
    else status_either

-- `(handled, err)`, where a nil error is `none`.
abbrev pub Modified : Type 0
Modified = Bool × Option GoError

abbrev pub other_receiver : GoError
other_receiver = plain (codes "user can't modify message of other users")

module _ {W : Type 0} (D : Database W) where
  -- The error of LastInsertId is dropped.
  unfoldable pub create_message : Str → Str → Str → Str → ℤ → Str → Value → M W ℤ
  create_message table message_type receiver sender level hints json_data = do
    now ← call D.now
    result ← run (
        D.exec (sql_create table message_type receiver sender level hints now)
          (json_text json_data ∷ []))
    pure result.0

  -- The error of RowsAffected is dropped.
  unfoldable pub delete_user_message : Str → Str → ℤ → M W (Unit {0})
  delete_user_message current_user table message_id = do
    result ← run (D.exec (sql_delete_message table current_user message_id) [])
    if result.1 == 0 then fail (plain (codes "failed to delete")) else pure tt

  -- `tx.Rollback(); return ...`
  unfoldable pub undo : Modified → M W Modified
  undo reply = do attempt (run D.rollback); pure reply

  -- The update of the status, and Commit, whose error is dropped.
  unfoldable pub write_status : Str → ℤ → ℤ → M W Modified
  unfolding undo
  write_status table status message_id = do
    done ← attempt (run (D.tx_exec (sql_set_status table status message_id) []))
    elim done [ err e ↦ undo (true, some e) | ok _ ↦ do attempt (run D.commit); pure (true, none) ]

  -- From the query of the receiver and the status on.
  unfoldable pub with_message : Str → Str → ℤ → ℤ → Result (Option (Str × ℤ)) → M W Modified
  unfolding undo write_status
  with_message current_user table status message_id (err e) = undo (true, some e)
  with_message current_user table status message_id (ok none) = undo (true, some no_rows)
  with_message current_user table status message_id (ok (some (receiver, old_status))) =
      if not (str_eq receiver current_user)
      then undo (true, some other_receiver)
      else if eq_ℤ old_status status
      then undo (true, none)
      else write_status table status message_id

  unfoldable pub modify_user_message : Str → Str → ℤ → Str → M W Modified
  unfolding with_message
  modify_user_message current_user table message_id action =
      let status = status_of_action action in
      if eq_ℤ status status_either then pure (false, none) else do
        begun ← attempt (run D.begin)
        elim begun [
          | err e ↦ pure (true, some e)
          | ok _ ↦ do
            row ← attempt (run (D.tx_query_text_number (sql_status table message_id)))
            with_message current_user table status message_id row
        ]

  unfoldable pub modify_message_data_by_id : Str → ℤ → Value → M W (Unit {0})
  modify_message_data_by_id table message_id json_data = do
    run (D.exec (sql_set_data table message_id) (json_text json_data ∷ []))
    pure tt
