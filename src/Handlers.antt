-- ===== src/Handlers.antt =====
-- The HTTP handlers: what each does in the store and what it answers. The answers are built here;
-- the handlers stand in the modules below.
pub mod Keeps
pub mod Organization
pub mod Account
pub mod Inbox
pub mod Refusals
pub mod Unlisted
use datafoundry_proxy.Base.{ℕ, Bool, true, false, [], ◌∷◌, none, some, if◌then◌else◌}
use datafoundry_proxy.Errors.{GoError}
use datafoundry_proxy.Types.{UserInfo}
use datafoundry_proxy.Effect.{Result, ok, err, M, pure, attempt, ◌>>=◌}
use datafoundry_proxy.Backend.{Backend}
use datafoundry_proxy.Response.{Response, Content, api, gen_resp_json}
use datafoundry_proxy.Store.{user_get}
use datafoundry_proxy.Auth.{Request, authed_identities}

module _ {W : Type 0} (B : Backend W) where
  -- RespError
  unfoldable pub resp_error : GoError → ℕ → Response
  resp_error e http_code = record {
    http_code = http_code;
    content = api (gen_resp_json B.ldap_message http_code (some e));
  }

  -- RespOK with data, and with nil.
  unfoldable pub resp_ok : Content → Response
  resp_ok data' = record { http_code = 200; content = data' }

  unfoldable pub resp_ok_nil : Response
  unfolding resp_ok
  resp_ok_nil = resp_ok (api (gen_resp_json B.ldap_message 200 none))

  -- `if v, err = m; err != nil { RespError(w, err, code); return }`, and what follows.
  abbrev pub respond : {A : Type 0} → ℕ → (A → M W Response) → Result A → M W Response
  respond code next (ok a) = next a
  respond code next (err e) = pure (resp_error e code)

  abbrev pub or_respond : {A : Type 0} → M W A → ℕ → (A → M W Response) → M W Response
  or_respond m code next = do r ← attempt m; respond code next r

  -- A test of the handler's own.
  abbrev pub unless : Bool → GoError → ℕ → M W Response → M W Response
  unless true e code next = next
  unless false e code next = pure (resp_error e code)

  -- The end of most handlers: the error with status 400, or the data.
  abbrev pub answer : {A : Type 0} → M W A → (A → Content) → M W Response
  answer m content = or_respond m 400 (λ a. pure (resp_ok (content a)))

  abbrev pub answer_nil : M W (Unit {0}) → M W Response
  answer_nil m = or_respond m 400 (λ _. pure resp_ok_nil)

  -- How the handlers begin: the caller's name from its token, and its profile.
  abbrev pub with_user : Request → (UserInfo → M W Response) → M W Response
  with_user r next =
      or_respond (authed_identities B r) 401 (λ username. or_respond (user_get B username) 400 next)
