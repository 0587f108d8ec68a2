-- ===== src/Handlers/Inbox/Invitations.antt =====
-- The invitations in the inbox: how one is accepted, once.
use datafoundry_proxy.Base.{
  arith, ℕ, ◌≡◌, refl, ◌∙◌, true, false, List, [], ◌∷◌, none, some, Str, codes, str_eq, str_eq_refl,
}
use datafoundry_proxy.Base.Int.{ℤ, pos, eq_ℤ}
use datafoundry_proxy.Errors.{GoError}
use datafoundry_proxy.Effect.{ok, returns, ◌>>=◌}
use datafoundry_proxy.Effect.Total.{bind-eq}
use datafoundry_proxy.Json.Codec.{json, unmarshal}
use datafoundry_proxy.Database.{Database, Row, json_text}
use datafoundry_proxy.Messages.Errors.{
  Error, get_error, get_error2, errors_at, error_code_invalid_parameters,
}
use datafoundry_proxy.Messages.Params.Must.{
  given, Map, Words, must_int_param, must_string_param_in_map, must_current_user_name,
  string_param_type_url_word,
}
use datafoundry_proxy.Messages.Answer.{MessageRequest, json_result, no_data}
use datafoundry_proxy.Messages.Handlers.{
  modify_message_with_custom_handler, message_by_user_and_id, modify_data_by_id,
}
use datafoundry_proxy.Messages.Notification.{
  message_table_name, modify_user_message, modify_message_data_by_id, sql_set_data,
}
use datafoundry_proxy.Messages.Notification.Query.{
  where_by_id, sql_select, get_message_by_user_and_id,
}
use datafoundry_proxy.Messages.Notification.Rows.{message_of}
use datafoundry_proxy.Messages.Notification.Answers.{query_messages-eq}
use datafoundry_proxy.Messages.Notification.Upgrade.{Server, is_serving}
use datafoundry_proxy.Handlers.Inbox.{
  InviteMessage, encode_invite, decode_invite, empty_invite, contains, accept, invite_message_hints,
  accept_org_invitation, modify_message_custom,
}

abbrev pub already_accepted : Error
already_accepted = record {
  code = error_code_invalid_parameters;
  message = codes "invalid parameters (already accepted)";
}

-- The JSON of an invitation is read back.
decode_invite-encode_invite :
    (im : InviteMessage)
    → unmarshal decode_invite empty_invite (json (encode_invite im)) ≡ (im, true)
unfolding decode_invite encode_invite unmarshal
decode_invite-encode_invite im = refl

-- The action is none of those that set a status.
not_a_status :
    {W : Type 0} (D : Database W) (user table : Str) (id : ℤ) (w : W)
    → modify_user_message D user table id accept_org_invitation w ≡ (returns (false, none), w)
unfolding modify_user_message eq_ℤ str_eq
not_a_status D user table id w = refl

-- The lookup of the message, for its receiver alone.
get_message-eq :
    {W : Type 0} (D : Database W) (user : Str) (id : ℤ) (w : W) {row : Row} {rest : List Row}
    {w' : W}
    → D.query_rows (sql_select message_table_name (where_by_id user id) (pos 1) (pos 0)) w
      ≡ (ok (row ∷ rest), w')
    → get_message_by_user_and_id D user message_table_name id w
      ≡ (returns (some (message_of row)), w')
unfolding get_message_by_user_and_id ◌>>=◌
get_message-eq D user id w e =
    rw (query_messages-eq D message_table_name (where_by_id user id) 1 (pos 0) w (omega arith) e)
      refl

module _ {W : Type 0} (D : Database W) (V : Words) (error_text : GoError → Str) (r : MessageRequest)
    (s : Server W) (user : Str) (id : ℤ) (m : Map) (row : Row) (rest : List Row) (w1 : W)
    (im : InviteMessage) where
  -- The custom handler up to the message.
  custom-eq :
      is_serving s ≡ true
      → must_current_user_name r.user ≡ given user
      → must_int_param (codes "id") r.id ≡ given id
      → must_string_param_in_map V m (codes "action") string_param_type_url_word
        ≡ given accept_org_invitation
      → D.query_rows (sql_select message_table_name (where_by_id user id) (pos 1) (pos 0)) s.world
        ≡ (ok (row ∷ rest), w1)
      → modify_message_custom D V error_text r m s
        ≡ accept D error_text id (some (message_of row)) (record s { world = w1 })
  unfolding modify_message_custom message_by_user_and_id ◌>>=◌
  custom-eq serving who which action found =
      rw
        (
          action,
          str_eq_refl accept_org_invitation,
          who,
          which,
          serving,
          get_message-eq D user id s.world found,
        )
        refl

  accept-eq :
      {n : ℤ × ℕ} {w2 : W}
      → is_serving s ≡ true
      → contains row.hints invite_message_hints ≡ true
      → row.raw_data ≡ json (encode_invite im)
      → im.accepted ≡ false
      → D.exec
          (sql_set_data message_table_name id)
          (json_text (json (encode_invite (record im { accepted = true }))) ∷ [])
          w1
        ≡ (ok n, w2)
      → accept D error_text id (some (message_of row)) (record s { world = w1 })
        ≡ (returns (true, none), record s { world = w2 })
  unfolding accept modify_data_by_id modify_message_data_by_id is_serving ◌>>=◌
  accept-eq serving hints holds unaccepted written =
      rw (hints, holds, decode_invite-encode_invite im, unaccepted, serving, written) refl

  -- A caller who has an invitation among its messages, with the JSON of an invitation that is not yet
  -- accepted, and who sends the action to accept it, is answered 200, if the database answers the
  -- query and the update; the only statement that is executed writes the same invitation, marked as
  -- accepted, into the message's data.
  pub accept_invitation-accepts :
      {n : ℤ × ℕ} {w2 : W}
      → is_serving s ≡ true
      → must_current_user_name r.user ≡ given user
      → must_int_param (codes "id") r.id ≡ given id
      → r.body ≡ ok m
      → must_string_param_in_map V m (codes "action") string_param_type_url_word
        ≡ given accept_org_invitation
      → D.query_rows (sql_select message_table_name (where_by_id user id) (pos 1) (pos 0)) s.world
        ≡ (ok (row ∷ rest), w1)
      → contains row.hints invite_message_hints ≡ true
      → row.raw_data ≡ json (encode_invite im)
      → im.accepted ≡ false
      → D.exec
          (sql_set_data message_table_name id)
          (json_text (json (encode_invite (record im { accepted = true }))) ∷ [])
          w1
        ≡ (ok n, w2)
      → modify_message_with_custom_handler D V error_text (modify_message_custom D V error_text) r s
        ≡ (returns (json_result 200 none no_data), record s { world = w2 })
  unfolding modify_message_with_custom_handler ◌>>=◌
  accept_invitation-accepts serving who which body action found hints holds unaccepted written =
      let custom =
        custom-eq serving who which action found
        ∙ accept-eq serving hints holds unaccepted written in
      rw (serving, who, which)
        (simp (body, action, not_a_status D user message_table_name id s.world)
          (bind-eq (modify_message_custom D V error_text r m) _ custom))

  accept-again :
      contains row.hints invite_message_hints ≡ true
      → row.raw_data ≡ json (encode_invite im)
      → im.accepted ≡ true
      → accept D error_text id (some (message_of row)) (record s { world = w1 })
        ≡ (returns (true, some already_accepted), record s { world = w1 })
  unfolding accept get_error2 get_error errors_at
  accept-again hints holds accepted =
      rw (hints, holds, decode_invite-encode_invite im, accepted) refl

  -- The same with an invitation that is accepted already: the answer is 400 with the error for it, and
  -- nothing is executed after the query for the message.
  pub accept_invitation-once :
      is_serving s ≡ true
      → must_current_user_name r.user ≡ given user
      → must_int_param (codes "id") r.id ≡ given id
      → r.body ≡ ok m
      → must_string_param_in_map V m (codes "action") string_param_type_url_word
        ≡ given accept_org_invitation
      → D.query_rows (sql_select message_table_name (where_by_id user id) (pos 1) (pos 0)) s.world
        ≡ (ok (row ∷ rest), w1)
      → contains row.hints invite_message_hints ≡ true
      → row.raw_data ≡ json (encode_invite im)
      → im.accepted ≡ true
      → modify_message_with_custom_handler D V error_text (modify_message_custom D V error_text) r s
        ≡ (returns (json_result 400 (some already_accepted) no_data), record s { world = w1 })
  unfolding modify_message_with_custom_handler ◌>>=◌
  accept_invitation-once serving who which body action found hints holds accepted =
      let custom = custom-eq serving who which action found ∙ accept-again hints holds accepted in
      rw (serving, who, which)
        (simp (body, action, not_a_status D user message_table_name id s.world)
          (bind-eq (modify_message_custom D V error_text r m) _ custom))
