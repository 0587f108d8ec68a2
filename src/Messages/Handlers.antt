-- ===== src/Messages/Handlers.antt =====
-- messages/message.go: the message handlers, and the functions on messages that others call.
pub mod Listing
use datafoundry_proxy.Base.{
  ℕ, Bool, true, false, not, ◌&&◌, List, [], ◌∷◌, Option, none, some, Str, codes, str_eq, ◌==◌,
  if◌then◌else◌,
}
use datafoundry_proxy.Base.Int.{ℤ, pos, eq_ℤ}
use datafoundry_proxy.Errors.{GoError}
use datafoundry_proxy.Effect.{Result, ok, err, M, pure, attempt, ◌>>=◌}
use datafoundry_proxy.Json.Codec.{Value}
use datafoundry_proxy.Database.{Database}
use datafoundry_proxy.Messages.Errors.{
  Error, get_error, get_error2, new_invalid_parameter_error, error_code_invalid_parameters,
  error_code_modify_message, error_code_query_message, error_code_get_message_stats,
  error_code_url_not_supported,
}
use datafoundry_proxy.Messages.Params.{optional_offset_and_size}
use datafoundry_proxy.Messages.Params.Must.{
  Param, given, bad, Map, Words, must_int_param, must_string_param, must_string_param_in_map,
  must_current_user_name, string_param_type_url_word, string_param_type_unicode_url_word,
}
use datafoundry_proxy.Messages.Answer.{
  MessageRequest, Answer, no_data, query_list, stats, json_result, refuse, with_param, with_db,
  need_db,
}
use datafoundry_proxy.Messages.Notification.{
  Message, message_table_name, status_unread, status_read, status_either, level_any,
  stat_category_unknown, stat_category_message_type, stat_category_message_level, create_message,
  delete_user_message, modify_user_message, modify_message_data_by_id,
}
use datafoundry_proxy.Messages.Notification.Query.{
  get_message_by_user_and_id, get_user_messages, retrieve_user_message_stats,
}
use datafoundry_proxy.Messages.Notification.Upgrade.{Server, on_db}

-- `if r.Form.Get(name) != "" { ... }` on a parameter that may be missing.
abbrev pub if_given : {A : Type 0} → Str → A → Param A → Param A
if_given [] default_value p = given default_value
if_given (c ∷ s) default_value p = p

-- A status that is neither is Status_Either.
abbrev pub known_status : ℤ → ℤ
known_status status =
    if not (eq_ℤ status status_unread) && not (eq_ℤ status status_read)
    then status_either
    else status

-- The switch on the category.
abbrev pub stat_category_of : Str → ℕ
stat_category_of category =
    if str_eq category []
    then stat_category_message_type
    else if str_eq category (codes "type")
    then stat_category_message_type
    else if str_eq category (codes "level")
    then stat_category_message_level
    else stat_category_unknown

-- `if len(message_stats) == 0 { message_stats = nil }`
abbrev pub stats_or_nil : Option (List (Str × ℤ)) → Answer
stats_or_nil none = json_result 200 none no_data
stats_or_nil (some []) = json_result 200 none no_data
stats_or_nil (some (c ∷ l)) = json_result 200 none (stats (c ∷ l))

-- A custom handler: whether it has handled the request, and its error.
abbrev pub Custom : Type 0 → Type 0
Custom W = MessageRequest → Map → M W (Bool × Option Error)

unfoldable pub default_modify_message_custom_handler : {W : Type 0} → Custom W
default_modify_message_custom_handler r m = pure (false, none)

module _ {W : Type 0} (D : Database W) where
  unfoldable pub create_inbox_message : Str → Str → Str → Str → ℤ → Value → M (Server W) ℤ
  create_inbox_message message_type receiver sender hints level json_data = need_db (
      on_db
        (create_message D message_table_name message_type receiver sender level hints json_data))

  unfoldable pub message_by_user_and_id : Str → ℤ → M (Server W) (Option Message)
  message_by_user_and_id current_user id =
      need_db (on_db (get_message_by_user_and_id D current_user message_table_name id))

  unfoldable pub modify_data_by_id : ℤ → Value → M (Server W) (Unit {0})
  modify_data_by_id id json_data =
      need_db (on_db (modify_message_data_by_id D message_table_name id json_data))

-- A word of the query that may be blank.
abbrev pub optional_word : Words → MessageRequest → Str → ℕ → Param Str
optional_word V r name param_type =
    if_given (r.form name) [] (must_string_param V name (r.form name) param_type)

-- `error_text` is the method Error of the errors.
module _ {W : Type 0} (error_text : GoError → Str) where
  -- `if err != nil { JsonResult(w, status, GetError2(code, err.Error()), nil); return }`
  abbrev pub or_refuse :
      {A : Type 0} → ℕ → ℕ → (A → M (Server W) Answer) → Result A → M (Server W) Answer
  or_refuse status code next (ok a) = next a
  or_refuse status code next (err e) = refuse status (get_error2 code (error_text e))

module _ {W : Type 0} (D : Database W) (error_text : GoError → Str) where
  unfoldable pub delete_message : MessageRequest → M (Server W) Answer
  delete_message r = with_db (
      with_param (must_current_user_name r.user) 401 λ current_user.
        with_param (must_int_param (codes "id") r.id) 400 λ id. do
          done ← attempt (on_db (delete_user_message D current_user message_table_name id))
          or_refuse error_text 500 error_code_modify_message
              (λ _. pure (json_result 200 none no_data)) done)

module _ {W : Type 0} (D : Database W) (V : Words) (error_text : GoError → Str) where
  -- What follows ModifyUserMessage: an error, the custom handler, or success.
  abbrev pub after_modify :
      Custom (Server W) → MessageRequest → Map → Bool × Option GoError → M (Server W) Answer
  after_modify custom r m (true, some e) =
      refuse 400 (get_error2 error_code_modify_message (error_text e))
  after_modify custom r m (true, none) = pure (json_result 200 none no_data)
  after_modify custom r m (false, _) = do
    handled ← custom r m
    elim handled.1 [
      | some e ↦ pure (json_result 400 (some e) no_data)
      | none ↦
          if not handled.0
          then refuse 400 (get_error2 error_code_invalid_parameters (codes "not handled"))
          else pure (json_result 200 none no_data)
    ]

  unfoldable pub modify_message_with_custom_handler :
      Custom (Server W) → MessageRequest → M (Server W) Answer
  modify_message_with_custom_handler custom r = with_db (
      with_param (must_current_user_name r.user) 401 λ current_user.
        with_param (must_int_param (codes "id") r.id) 400 λ id.
          or_refuse error_text 400 error_code_invalid_parameters
            (λ m.
              with_param (must_string_param_in_map V m (codes "action") string_param_type_url_word)
                400
                λ action. do
                  reply ← on_db (modify_user_message D current_user message_table_name id action)
                  after_modify custom r m reply)
            r.body)

  unfoldable pub modify_message : MessageRequest → M (Server W) Answer
  unfolding modify_message_with_custom_handler default_modify_message_custom_handler
  modify_message = modify_message_with_custom_handler default_modify_message_custom_handler

  unfoldable pub get_my_messages : MessageRequest → M (Server W) Answer
  get_my_messages r = with_db (
      with_param (must_current_user_name r.user) 401 λ current_user.
        with_param
          (if_given (r.form (codes "level")) level_any
            (must_int_param (codes "level") (r.form (codes "level"))))
          400
          λ level.
            with_param
              (if_given (r.form (codes "status")) status_either
                (must_int_param (codes "status") (r.form (codes "status"))))
              400
              λ status.
                with_param (optional_word V r (codes "type") string_param_type_url_word) 400
                  λ message_type.
                    with_param
                      (optional_word V r (codes "sender") string_param_type_unicode_url_word) 400
                      λ sender.
                        let (offset, size) =
                          optional_offset_and_size (r.form (codes "page")) (r.form (codes "size"))
                            (pos 30) (pos 1) (pos 100) in
                        do
                          found ← attempt (
                              on_db (
                                get_user_messages D current_user message_table_name message_type
                                  level (known_status status) sender offset size))
                          or_refuse error_text 500 error_code_query_message
                              (λ p. pure (json_result 200 none (query_list p.0 p.1))) found)

  unfoldable pub get_notification_stats : MessageRequest → M (Server W) Answer
  get_notification_stats r = with_db (
      with_param (must_current_user_name r.user) 401 λ current_user.
        with_param (optional_word V r (codes "category") string_param_type_url_word) 400 λ category.
          if stat_category_of category == stat_category_unknown
          then pure (
              json_result 400 (some (new_invalid_parameter_error (codes "bad category param")))
                no_data)
          else do
            found ← attempt (
                on_db (
                  retrieve_user_message_stats D message_table_name current_user
                    (stat_category_of category)))
            or_refuse error_text 500 error_code_get_message_stats (λ m. pure (stats_or_nil m))
                found)

unfoldable pub clear_notification_stats : {W : Type 0} → MessageRequest → M (Server W) Answer
clear_notification_stats r = with_db (
    with_param (must_current_user_name r.user) 401
      λ _. refuse 501 (get_error error_code_url_not_supported))
