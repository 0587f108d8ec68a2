-- ===== src/Handlers/Inbox.antt =====
-- message.go: the handlers of the inbox, and the messages that the proxy itself writes.
pub mod Invitations
use datafoundry_proxy.Base.{
  ℕ, Bool, true, false, not, ◌||◌, List, [], ◌∷◌, ◌++◌, Option, none, some, Str, codes, str_eq,
  has_prefix, if◌then◌else◌,
}
use datafoundry_proxy.Base.Int.{ℤ, pos}
use datafoundry_proxy.Errors.{GoError, plain}
use datafoundry_proxy.Effect.{
  Result, ok, err, M, pure, fail, panic, exit, run, attempt, ◌>>=◌, ◌>>◌,
}
use datafoundry_proxy.Json.{
  Json, obj, field, end, str, bool, Decoder, decode_struct, decode_string, decode_bool, key_is,
}
use datafoundry_proxy.Json.Codec.{Value, json, text, unmarshal}
use datafoundry_proxy.Backend.{Backend}
use datafoundry_proxy.Database.{Database}
use datafoundry_proxy.Response.{Response}
use datafoundry_proxy.Auth.{Request, authed_identities}
use datafoundry_proxy.Handlers.{resp_error, resp_ok_nil}
use datafoundry_proxy.Messages.Errors.{
  Error, get_error2, error_code_invalid_parameters, error_code_get_message,
}
use datafoundry_proxy.Messages.Params.Must.{
  Param, given, bad, Map, Words, must_int_param, must_string_param_in_map, must_current_user_name,
  string_param_type_url_word,
}
use datafoundry_proxy.Messages.Answer.{MessageRequest, Answer}
use datafoundry_proxy.Messages.Notification.{Message, message_table_name}
use datafoundry_proxy.Messages.Notification.Upgrade.{Server, on_db}
use datafoundry_proxy.Messages.Handlers.{
  Custom, create_inbox_message, message_by_user_and_id, modify_data_by_id, delete_message,
  modify_message_with_custom_handler, get_my_messages, get_notification_stats,
}

-- The struct InviteMessage, and its JSON.
pub record InviteMessage : Type 0 where
  pub org_id : Str
  pub org_name : Str
  pub accepted : Bool

unfoldable pub encode_invite : InviteMessage → Json
encode_invite m = obj (
    field (codes "org_id") (str m.org_id)
      (field (codes "org_name") (str m.org_name) (field (codes "accepted") (bool m.accepted) end)))

set_invite : InviteMessage → Str → Json → InviteMessage × Bool
set_invite m k v =
    if key_is k "org_id"
    then (let (x, fine) = decode_string m.org_id v in (record m { org_id = x }, fine))
    else if key_is k "org_name"
    then (let (x, fine) = decode_string m.org_name v in (record m { org_name = x }, fine))
    else if key_is k "accepted"
    then (let (x, fine) = decode_bool m.accepted v in (record m { accepted = x }, fine))
    else (m, true)

unfoldable pub decode_invite : Decoder InviteMessage
unfolding set_invite decode_struct decode_string decode_bool key_is
decode_invite = decode_struct set_invite

abbrev pub empty_invite : InviteMessage
empty_invite = record { org_id = []; org_name = []; accepted = false }

-- MessageType_SiteNotify, MessageType_OrderEvent, Level_General, Level_Important,
-- InviteMessage_Hints and AcceptOrgInvitation
abbrev pub message_type_site_notify : Str
message_type_site_notify = codes "sitenotify"

abbrev pub message_type_order_event : Str
message_type_order_event = codes "orderevent"

abbrev pub level_general : ℤ
level_general = pos 0

abbrev pub level_important : ℤ
level_important = pos 50

abbrev pub invite_message_hints : Str
invite_message_hints = codes "invite,org"

abbrev pub accept_org_invitation : Str
accept_org_invitation = codes "accept_org_invitation"

-- `strings.Index(s, part) >= 0`
unfoldable pub contains : Str → Str → Bool
contains [] part = has_prefix part []
contains (c ∷ s) part = has_prefix part (c ∷ s) || contains s part

-- What a request to the inbox holds: for checkToken, for the package messages, the parameter "type"
-- of the form, and the body, which may be nil, as ReadAll gives it.
pub record InboxRequest : Type 0 where
  pub auth : Request
  pub message : MessageRequest
  pub form_type : Str
  pub raw_body : Option (Result Value)

-- The fields of MessageOrEmail that the handler looks at: Reason and Order.Account_id.
pub record OrderEvent : Type 0 where
  pub reason : Str
  pub account_id : Str

-- What a handler writes: an answer of the proxy, or one of the package messages.
pub data Reply : Type 0 where
  proxy : Response → Reply
  inbox : Answer → Reply

abbrev pub level_of_reason : Str → ℤ
level_of_reason reason =
    if str_eq reason (codes "order_renew_failed") || str_eq reason (codes "order_closed")
    then level_important
    else level_general

module _ {W : Type 0} where
  -- `e != nil` of a parameter, in the custom handler.
  abbrev pub with_given :
      {A : Type 0}
      → Bool
      → Param A
      → (A → M (Server W) (Bool × Option Error))
      → M (Server W) (Bool × Option Error)
  with_given handled (given a) next = next a
  with_given handled (bad e) next = pure (handled, some e)

  -- `return true, messages.GetError2(code, text)`
  abbrev pub refused_with : ℕ → Str → M (Server W) (Bool × Option Error)
  refused_with code reason = elim (get_error2 code reason) [
    | none ↦ panic
    | some e ↦ pure (true, e)
  ]

module _ {W : Type 0} (D : Database W) (error_text : GoError → Str) where
  -- From the message that was found on.
  unfoldable pub accept : ℤ → Option Message → M (Server W) (Bool × Option Error)
  unfolding contains decode_invite encode_invite
  accept id none = panic
  accept id (some msg) =
      if not (contains msg.row.hints invite_message_hints)
      then refused_with error_code_invalid_parameters (codes "not an org invitation message")
      else (let (im, fine) = unmarshal decode_invite empty_invite msg.row.raw_data in
          if not fine
          then refused_with error_code_invalid_parameters (codes "json: cannot unmarshal")
          else if im.accepted
          then refused_with error_code_invalid_parameters (codes "already accepted")
          else (do
            done ←
                attempt
                  (modify_data_by_id D id (json (encode_invite (record im { accepted = true }))))
            elim done [
              | err e ↦ refused_with error_code_invalid_parameters (error_text e)
              | ok _ ↦ pure (true, none)
            ]))

module _ {W : Type 0} (D : Database W) (V : Words) (error_text : GoError → Str) where
  unfoldable pub modify_message_custom : Custom (Server W)
  modify_message_custom r m =
      with_given false (must_string_param_in_map V m (codes "action") string_param_type_url_word)
        λ action.
          if not (str_eq action accept_org_invitation)
          then pure (false, none)
          else with_given true (must_current_user_name r.user) λ current_user.
            with_given true (must_int_param (codes "id") r.id) λ id. do
              found ← attempt (message_by_user_and_id D current_user id)
              elim found [
                | err e ↦ refused_with error_code_get_message (error_text e)
                | ok msg ↦ accept D error_text id msg
              ]

module _ {W : Type 0} (B : Backend W) where
  -- `if username, err = authedIdentities(r); err != nil { RespError(w, err, 401); return }`
  abbrev pub with_identity : InboxRequest → (Str → M (Server W) Reply) → M (Server W) Reply
  with_identity r next = do
    who ← attempt (on_db (authed_identities B r.auth))
    elim who [ err e ↦ pure (proxy (resp_error B e 401)) | ok username ↦ next username ]

  -- `r.Header.Set("User", username)` before a handler of the package messages.
  abbrev pub as_user : (MessageRequest → M (Server W) Answer) → InboxRequest → M (Server W) Reply
  as_user handler r =
      with_identity r
        λ username. do a ← handler (record r.message { user = username }); pure (inbox a)

module _ {W : Type 0} (B : Backend W) (D : Database W) (V : Words)
    (error_text : GoError → Str) where
  unfoldable pub get_messages : InboxRequest → M (Server W) Reply
  get_messages = as_user B (get_my_messages D V error_text)

  unfoldable pub get_message_stat : InboxRequest → M (Server W) Reply
  get_message_stat = as_user B (get_notification_stats D V error_text)

  unfoldable pub delete_inbox_message : InboxRequest → M (Server W) Reply
  delete_inbox_message = as_user B (delete_message D error_text)

  unfoldable pub modify_inbox_message : InboxRequest → M (Server W) Reply
  modify_inbox_message =
      as_user B
        (modify_message_with_custom_handler D V error_text (modify_message_custom D V error_text))

module _ {W : Type 0} (D : Database W) where
  unfoldable pub send_org_invite_message : Str → Str → Str → Str → M (Server W) (Unit {0})
  unfolding encode_invite
  send_org_invite_message receiver sender org_id org_name = do
    create_inbox_message D message_type_site_notify receiver sender invite_message_hints
        level_general
        (json (encode_invite (record { org_id = org_id; org_name = org_name; accepted = false })))
    pure tt

module _ {W : Type 0} (B : Backend W) (D : Database W) where
  abbrev pub bad_request : Str → M (Server W) Reply
  bad_request reason = pure (proxy (resp_error B (plain reason) 400))

  -- The body of the administrator's request. `read_order` is json.Unmarshal into MessageOrEmail, a
  -- struct with times and floats; where it fails, the answer is followed by glog.Fatal.
  unfoldable pub order_event : (Value → Result OrderEvent) → Str → Str → Value → M (Server W) Reply
  order_event read_order admin_user form_type body =
      if not (str_eq form_type message_type_order_event)
      then bad_request (codes "CreateMassageOrEmail  error")
      else elim (read_order body) [
        | err e ↦ exit (plain (codes "CreateMassageOrEmail Unmarshal error"))
        | ok event ↦ do
          done ← attempt (
              create_inbox_message D message_type_order_event event.account_id admin_user
                event.reason (level_of_reason event.reason) body)
          elim done [
            | err e ↦ bad_request (codes "CreateMassageOrEmail create message failed error")
            | ok _ ↦ pure (proxy (resp_ok_nil B))
          ]
      ]

  unfoldable pub create_massage_or_email :
      (Value → Result OrderEvent) → Str → InboxRequest → M (Server W) Reply
  unfolding order_event
  create_massage_or_email read_order admin_user r = with_identity B r λ username.
      if not (str_eq username admin_user)
      then pure (proxy (resp_error B (plain (codes "permission denied")) 403))
      else elim r.raw_body [
        | none ↦ exit (plain (codes "no message"))
        | some (err e) ↦ bad_request (codes "readall is error")
        | some (ok body) ↦ order_event read_order admin_user r.form_type body
      ]
