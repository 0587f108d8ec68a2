-- ===== src/Login/Handlers.antt =====
-- login.go and signin.go: the handlers, the requests to the authorization servers of two regions, and
-- the project that a user gets; user.go InitUserProject.
use datafoundry_proxy.Base.{
  ℕ, Bool, true, false, List, [], ◌∷◌, ◌++◌, Option, none, some, Str, codes, str_eq, ◌==◌,
  if◌then◌else◌,
}
use datafoundry_proxy.Errors.{
  plain, ldp_error_new, err_code_unknown_error, err_code_unauthorized, err_code_method_not_allowed,
}
use datafoundry_proxy.Types.{UserInfo}
use datafoundry_proxy.Effect.{
  Result, ok, err, Outcome, returns, fails, panics, fatal, M, pure, fail, panic, lift, run, attempt,
  ◌>>=◌,
}
use datafoundry_proxy.Json.{Json}
use datafoundry_proxy.Json.Codec.{json, unmarshal, checked, read_user}
use datafoundry_proxy.Backend.{Backend, Body, no_body, project_request, HttpResponse}
use datafoundry_proxy.Store.{get_profile, user_update}
use datafoundry_proxy.Auth.{Request, get_df_userame}
use datafoundry_proxy.Response.{Response}
use datafoundry_proxy.Handlers.{resp_error}
use datafoundry_proxy.Openshift.{https_addr_maker}
use datafoundry_proxy.Login.{
  TextMap, split_byte, proc, encode_map, RegionToken, decode_region_token, empty_token,
  basic_credentials, bearer_of,
}

-- What a redirect holds: its status, and the fragment of its Location, where it has one.
pub record Redirect : Type 0 where
  pub status_code : ℕ
  pub fragment : Result Str

-- http.Transport.RoundTrip with HEAD, base64.StdEncoding.DecodeString as far as it comes, and the
-- host that url.Parse finds; and the addresses of the program.
pub record Oauth (W : Type 0) : Type 0 where
  pub round_trip : Str → Str → W → Result Redirect × W
  pub base64_decode : Str → Str
  pub url_host : Str → Option Str
  pub region_jd : Str
  pub region_aws : Str
  pub oauthurl : Str
  pub gitlaburl : Str

-- A panic in a goroutine of the program's own ends the process.
abbrev pub unrecovered : {A : Type 0} → Outcome A → Outcome A
unrecovered panics = fatal (plain (codes "panic"))
unrecovered (returns a) = returns a
unrecovered (fails e) = fails e
unrecovered (fatal e) = fatal e

module _ {W A : Type 0} where
  abbrev pub in_goroutine : M W A → M W A
  in_goroutine m w = let (r, w') = m w in (unrecovered r, w')

-- What the handlers write.
pub data LoginReply : Type 0 where
  proxy : Response → LoginReply
  token : Json → LoginReply
  only_status : ℕ → LoginReply
  tokens : List RegionToken → LoginReply
  options : LoginReply

abbrev user_or_blank : Option (Str × Str) → Str
user_or_blank none = []
user_or_blank (some (user, password)) = user

abbrev host_or_blank : Option Str → Str
host_or_blank none = []
host_or_blank (some h) = https_addr_maker h

module _ {W : Type 0} (B : Backend W) where
  -- `http.NewRequest` with its error dropped, and `client.Do`, whose reply is looked at by `next`.
  abbrev pub do_or_panic :
      Str → Str → Body → (Result HttpResponse → M W (Unit {0})) → M W (Unit {0})
  do_or_panic url authorization body next =
      if B.url_is_valid url
      then (do
        r ← attempt (
            run (
              B.http_do (record {
                method = codes "POST";
                url = url;
                authorization = authorization;
                body = body;
              })))
        next r)
      else panic

  abbrev pub logged : Result HttpResponse → M W (Unit {0})
  logged r = pure tt

  -- InitUserProject; its error is assigned to a variable of an inner block, and it returns nil.
  abbrev pub after_init : UserInfo → Result HttpResponse → M W (Unit {0})
  after_init user (err e) = pure tt
  after_init user (ok resp) =
      if resp.status_code == 200
      then (do
        done ←
            attempt
              (user_update B (record user { status = record user.status { initialized = true } }))
        pure tt)
      else pure tt

  unfoldable pub init_user_project : UserInfo → Str → M W (Unit {0})
  init_user_project user token' =
      do_or_panic (B.df_host ++ codes "/oapi/v1/projectrequests") token'
        (project_request user.username user.username) (after_init user)

  -- What follows in checkIfInitProject, which logs every error.
  abbrev pub with_profile : Str → Result UserInfo → M W (Unit {0})
  with_profile token' (err e) = pure tt
  with_profile token' (ok user) =
      if user.status.initialized then pure tt else init_user_project user token'

  unfoldable pub profile_of_token : Str → M W UserInfo
  profile_of_token token' = do
    username ← get_df_userame B token'
    profile ← get_profile B username
    lift (read_user profile)

  unfoldable pub check_if_init_project : TextMap → M W (Unit {0})
  check_if_init_project auth = do
    r ← attempt (profile_of_token (bearer_of auth))
    with_profile (bearer_of auth) r

module _ {W : Type 0} (B : Backend W) (A : Oauth W) where
  unfoldable pub logingitlab : Str → TextMap → M W (Unit {0})
  logingitlab basic auth = elim (basic_credentials A.base64_decode basic) [
    | none ↦ pure tt
    | some (user, password) ↦
        do_or_panic B
          (A.oauthurl
            ++ (codes "?host="
                ++ (A.gitlaburl
                    ++ (codes "&username=" ++ (user ++ (codes "&password=" ++ password))))))
          (bearer_of auth) no_body (logged B)
  ]

  -- From the parts of the fragment on. `extra` starts two goroutines, which are run here to their
  -- ends, one after the other.
  abbrev pub with_fragment : Str → Bool → ℕ → Option TextMap → M W (Option Json × ℕ)
  with_fragment auth extra status none = panic
  with_fragment auth false status (some n) = pure (some (encode_map n), status)
  with_fragment auth true status (some n) = do
    _ ← in_goroutine (logingitlab auth n)
    _ ← in_goroutine (check_if_init_project B n)
    pure (some (encode_map n), status)

  abbrev pub with_location : Str → Bool → ℕ → Result Str → M W (Option Json × ℕ)
  with_location auth extra status (err e) = pure (none, status)
  with_location auth extra status (ok fragment) =
      with_fragment auth extra status (proc (split_byte b'&' fragment))

  abbrev pub with_redirect : Str → Bool → Result Redirect → M W (Option Json × ℕ)
  with_redirect auth extra (err e) = pure (none, 500)
  with_redirect auth extra (ok resp) = with_location auth extra resp.status_code resp.fragment

  -- token_proxy: the token, which is blank (`none`) where there is none, and the status.
  unfoldable pub token_proxy : Str → Str → Bool → M W (Option Json × ℕ)
  token_proxy auth apiserver extra =
      if B.url_is_valid apiserver
      then (do r ← attempt (run (A.round_trip apiserver auth)); with_redirect auth extra r)
      else panic

  abbrev pub unauthorized : M W LoginReply
  unauthorized = pure (proxy (resp_error B (ldp_error_new err_code_unauthorized) 401))

  -- The switch on the method, in both handlers.
  abbrev pub on_get : Request → (Str → M W LoginReply) → M W LoginReply
  on_get r next =
      if str_eq r.method (codes "GET")
      then elim r.authorization [ [] ↦ unauthorized | c ∷ s ↦ next (c ∷ s) ]
      else if str_eq r.method (codes "OPTIONS")
      then pure options
      else pure (proxy (resp_error B (ldp_error_new err_code_method_not_allowed) 405))

  abbrev pub login_reply : Option Json × ℕ → LoginReply
  login_reply (some j, status) = token j
  login_reply (none, status) = only_status status

  unfoldable pub login : Request → M W LoginReply
  login r = on_get r (λ auth. do got ← token_proxy auth A.region_jd true; pure (login_reply got))

  -- TryCreatProject: what is missing stays blank. The Kind and APIVersion of the request, which are
  -- constants, are left out of the body here as in the other project requests.
  unfoldable pub try_creat_project : Str → Str → Str → M W (Unit {0})
  try_creat_project basic bearer_token apiserver =
      let username = user_or_blank (basic_credentials A.base64_decode basic) in
      let api_host = host_or_blank (A.url_host apiserver) in
      do_or_panic B (api_host ++ codes "/oapi/v1/projectrequests") (codes "Bearer " ++ bearer_token)
        (project_request username username) (logged B)

  abbrev pub with_token : Str → Str → Result RegionToken → M W RegionToken
  with_token auth apiserver (err e) = fail e
  with_token auth apiserver (ok region) = do
    _ ← try_creat_project auth region.access_token apiserver
    pure region

  abbrev pub with_answer : Str → Str → Option Json × ℕ → M W RegionToken
  with_answer auth apiserver (none, status) = fail (ldp_error_new err_code_unknown_error)
  with_answer auth apiserver (some j, status) =
      with_token auth apiserver (checked (unmarshal decode_region_token empty_token (json j)))

  unfoldable pub get_token : Str → Str → Bool → M W RegionToken
  get_token auth apiserver extra = do
    got ← token_proxy auth apiserver extra
    with_answer auth apiserver got

  -- What one of the goroutines of SignIn appends.
  abbrev pub named : Str → Result RegionToken → List RegionToken
  named region' (err e) = []
  named region' (ok t) = record t { region = region' } ∷ []

  unfoldable pub region_tokens : Str → Str → Bool → Str → M W (List RegionToken)
  region_tokens auth apiserver extra region' = do
    r ← attempt (in_goroutine (get_token auth apiserver extra))
    pure (named region' r)

  -- The two goroutines, one after the other in either order.
  unfoldable pub both_tokens : Bool → Str → M W (List RegionToken)
  both_tokens true auth = do
    jd ← region_tokens auth A.region_jd true (codes "cn-north-1")
    aws ← region_tokens auth A.region_aws false (codes "cn-north-2")
    pure (jd ++ aws)
  both_tokens false auth = do
    aws ← region_tokens auth A.region_aws false (codes "cn-north-2")
    jd ← region_tokens auth A.region_jd true (codes "cn-north-1")
    pure (aws ++ jd)

  abbrev pub sign_in_reply : List RegionToken → M W LoginReply
  sign_in_reply [] = unauthorized
  sign_in_reply (t ∷ l) = pure (tokens (t ∷ l))

  unfoldable pub sign_in : Bool → Request → M W LoginReply
  sign_in jd_first r = on_get r (λ auth. do found ← both_tokens jd_first auth; sign_in_reply found)
