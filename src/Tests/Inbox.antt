-- ===== src/Tests/Inbox.antt =====
-- The inbox: its handlers, and the theorems about them applied.
use datafoundry_proxy.Base.{
  ℕ, ◌+◌, ◌≤◌, ◌≡◌, refl, List, [], ◌∷◌, none, some, Str, str_eq, has_prefix, codes, Bool, true,
  false, arith, if◌then◌else◌,
}
use datafoundry_proxy.Base.Int.{pos, negsuc, eq_ℤ}
use datafoundry_proxy.Errors.{GoError, plain, ldp_error_new, err_code_unauthorized}
use datafoundry_proxy.Effect.{Result, ok, err, Outcome, returns, ◌>>=◌}
use datafoundry_proxy.Json.{str}
use datafoundry_proxy.Json.Codec.{Value, json}
use datafoundry_proxy.Http.{http_get}
use datafoundry_proxy.Auth.{authed_identities, get_df_userame}
use datafoundry_proxy.Database.{Database, Row}
use datafoundry_proxy.Messages.Params.{parse_int}
use datafoundry_proxy.Messages.Params.Must.{
  Words, Map, given, must_current_user_name, must_int_param, must_string_param_in_map,
}
use datafoundry_proxy.Messages.Answer.{MessageRequest, json_result, no_data, query_list}
use datafoundry_proxy.Messages.Handlers.{get_my_messages, modify_message_with_custom_handler}
use datafoundry_proxy.Messages.Handlers.Listing.{where_of, get_my_messages-page}
use datafoundry_proxy.Messages.Notification.{message_table_name}
use datafoundry_proxy.Messages.Notification.Query.{sql_select, mark_read}
use datafoundry_proxy.Messages.Notification.Modify.{Mailbox}
use datafoundry_proxy.Messages.Notification.Rows.{messages_of}
use datafoundry_proxy.Messages.Notification.Upgrade.{Server, is_serving}
use datafoundry_proxy.Handlers.Inbox.{
  InboxRequest, OrderEvent, InviteMessage, encode_invite, contains, modify_message_custom,
}
use datafoundry_proxy.Handlers.Inbox.Invitations.{
  already_accepted, accept_invitation-accepts, accept_invitation-once,
}
use datafoundry_proxy.Tests.World.{World, small_backend}
use datafoundry_proxy.Tests.Samples.{world0, request, org_body}
use datafoundry_proxy.Tests.Database.{Memory, resting, mailbox, row_7, mail_with, mail_memory}

-- Words are accepted as they are, and errors have one text.
abbrev words : Words
words = record {
  url_word = λ s. some s;
  unicode_url_word = λ s. some s;
  email = λ s. some s;
  general_word = λ s. some s;
}

abbrev one_text : GoError → Str
one_text e = codes "error"

-- A database that cannot be reached.
abbrev no_database : Database World
no_database = record {
  begin = λ w. (err (plain []), w);
  commit = λ w. (err (plain []), w);
  rollback = λ w. (err (plain []), w);
  tx_query_number = λ sql args w. (err (plain []), w);
  tx_query_text_number = λ sql w. (err (plain []), w);
  tx_exec = λ sql args w. (err (plain []), w);
  exec = λ sql args w. (err (plain []), w);
  query_number = λ sql args w. (err (plain []), w);
  query_rows = λ sql w. (err (plain []), w);
  query_counts = λ sql w. (err (plain []), w);
  now = λ w. ([], w);
}

abbrev action_map : Map
action_map k =
    if str_eq k (codes "action") then some (str (codes "accept_org_invitation")) else none

abbrev from_alice : MessageRequest
from_alice = record { user = codes "alice"; id = codes "7"; form = λ k. []; body = ok action_map }

abbrev inbox_request : Str → InboxRequest
inbox_request caller = record {
  auth = request (codes "GET") caller [] (org_body []);
  message = from_alice;
  form_type = [];
  raw_body = none;
}

abbrev no_order : Value → Result OrderEvent
no_order v = err (plain [])

abbrev idle : Server World
idle = record { world = world0; db_phase = negsuc 0 }

unknown :
    authed_identities small_backend (inbox_request []).auth world0
    ≡ (Outcome.fails (ldp_error_new err_code_unauthorized), world0)
unfolding authed_identities
unknown = refl

abbrev world_asked : World
world_asked = record world0 { requests = 1 }

carol_known :
    authed_identities small_backend (inbox_request (codes "carol")).auth world0
    ≡ (returns (codes "carol"), world_asked)
unfolding authed_identities get_df_userame ◌>>=◌ http_get
carol_known = refl

idle_off : is_serving idle ≡ false
unfolding is_serving eq_ℤ
idle_off = refl

-- An invitation, and a server that is serving alice's message 7.
abbrev invitation : Bool → InviteMessage
invitation accepted = record { org_id = codes "o1"; org_name = codes "acme"; accepted = accepted }

abbrev invited : Bool → Row
invited accepted = record row_7 { raw_data = json (encode_invite (invitation accepted)) }

abbrev serving : Server (Memory Mailbox)
serving = record { world = resting mailbox; db_phase = pos 0 }

serving_on : is_serving serving ≡ true
unfolding is_serving eq_ℤ
serving_on = refl

alice_named : must_current_user_name from_alice.user ≡ given (codes "alice")
unfolding must_current_user_name
alice_named = refl

number_7 : must_int_param (codes "id") from_alice.id ≡ given (pos 7)
unfolding must_int_param parse_int
number_7 = refl

accepting :
    must_string_param_in_map words action_map (codes "action") 1
    ≡ given (codes "accept_org_invitation")
unfolding must_string_param_in_map str_eq
accepting = refl

hints_of_invitation : contains row_7.hints (codes "invite,org") ≡ true
unfolding contains has_prefix str_eq
hints_of_invitation = refl

accept_invitation-accepts_example :
    modify_message_with_custom_handler
      (mail_with (invited false))
      words
      one_text
      (modify_message_custom (mail_with (invited false)) words one_text)
      from_alice
      serving
    ≡ (returns (json_result 200 none no_data), serving)
accept_invitation-accepts_example =
    accept_invitation-accepts (mail_with (invited false)) words one_text from_alice serving
      (codes "alice") (pos 7) action_map (invited false) [] (resting mailbox) (invitation false)
      serving_on alice_named number_7 refl accepting refl hints_of_invitation refl refl refl

accept_invitation-once_example :
    modify_message_with_custom_handler
      (mail_with (invited true))
      words
      one_text
      (modify_message_custom (mail_with (invited true)) words one_text)
      from_alice
      serving
    ≡ (returns (json_result 400 (some already_accepted) no_data), serving)
accept_invitation-once_example =
    accept_invitation-once (mail_with (invited true)) words one_text from_alice serving
      (codes "alice") (pos 7) action_map (invited true) [] (resting mailbox) (invitation true)
      serving_on alice_named number_7 refl accepting refl hints_of_invitation refl refl

get_my_messages-page_example :
    (o : ℕ) × (l : ℕ) × (rows : List Row) × (w2 : Memory Mailbox) × (1 ≤ l)
    × (l ≤ 100)
    × (o + l ≤ 3)
    × (mail_memory.query_rows
          (sql_select message_table_name (where_of (codes "alice")) (pos l) (pos o))
          (resting mailbox)
        ≡ (ok rows, w2))
    × (get_my_messages mail_memory words one_text from_alice serving ≡ (
      returns (json_result 200 none (query_list (pos 3) (messages_of rows))),
      record serving {
        world = (mark_read mail_memory (codes "alice") message_table_name (messages_of rows) w2).1;
      },
    ))
get_my_messages-page_example =
    get_my_messages-page mail_memory words one_text from_alice serving serving_on alice_named refl
      refl refl refl (omega arith) refl (λ o l one inside. (row_7 ∷ [], resting mailbox, refl))
