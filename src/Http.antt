-- ===== src/Http.antt =====
-- http_util.go: the requests that the program makes itself.
pub mod Keeps
use datafoundry_proxy.Base.{
  ℕ, Bool, true, false, ◌&&◌, ◌||◌, Str, codes, ◌++◌, ltb, ◌==◌, decimal, if◌then◌else◌,
}
use datafoundry_proxy.Errors.{GoError, plain, ldp_error_new, err_code_not_found}
use datafoundry_proxy.Effect.{Result, ok, err, M, fail, lift, run, attempt, ◌>>=◌}
use datafoundry_proxy.Json.Codec.{Value}
use datafoundry_proxy.Backend.{Backend, Body, no_body, HttpRequest, HttpResponse}

abbrev pub status_ok : ℕ
status_ok = 200

abbrev pub status_created : ℕ
status_created = 201

-- `resp.StatusCode < 200 || resp.StatusCode > 300`
abbrev bad_status : ℕ → Bool
bad_status code = ltb code 200 || ltb 300 code

abbrev status_error : Str → Str → ℕ → GoError
status_error prefix url code = plain (prefix ++ (url ++ (codes ", " ++ decimal code)))

-- The error of http.NewRequest, with its text shortened.
abbrev url_error : Str → GoError
url_error url = plain (codes "[http] err " ++ url)

module _ {W : Type 0} (B : Backend W) where
  pub get_response : Str → HttpResponse → M W Value
  get_response url resp =
      if resp.status_code == 404
      then fail (ldp_error_new err_code_not_found)
      else if resp.status_code == status_ok
      then lift resp.body
      else if bad_status resp.status_code
      then fail (status_error (codes "[http get] status err ") url resp.status_code)
      else lift resp.body

  -- `httpGet` with a credential, as every call of the modelled code has one.
  unfoldable pub http_get : Str → Str → M W Value
  unfolding get_response
  http_get url token =
      if B.url_is_valid url
      then (do
        resp ← run (
            B.http_do
              (record { method = codes "GET"; url = url; authorization = token; body = no_body }))
        get_response url resp)
      else fail (url_error url)

  pub action_failed : Str → GoError → GoError
  action_failed url e = plain (codes "[http] err " ++ url)

  pub action_response : Str → HttpResponse → Result Value → M W Value
  action_response url resp (err e) = fail (plain (codes "[http] read err " ++ url))
  action_response url resp (ok b) =
      if bad_status resp.status_code
      then fail (status_error (codes "[http] status err ") url resp.status_code)
      else lift (ok b)

  pub action_result : Str → Result HttpResponse → M W Value
  action_result url (err e) = fail (action_failed url e)
  action_result url (ok resp) = action_response url resp resp.body

  -- `httpAction` with a credential.
  unfoldable pub http_action : Str → Str → Body → Str → M W Value
  unfolding action_result action_response action_failed
  http_action method url body token =
      if B.url_is_valid url
      then (do
        r ← attempt (
            run (
              B.http_do
                (record { method = method; url = url; authorization = token; body = body })))
        action_result url r)
      else fail (url_error url)

  unfoldable pub http_delete : Str → Str → M W Value
  http_delete url token = http_action (codes "DELETE") url no_body token
