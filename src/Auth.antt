-- ===== src/Auth.antt =====
-- auth.go and profile.go: who the caller is (checkToken, authDF, getDFUserame, authedIdentities),
-- and the request as the handlers see it (common.go parseRequestBody).
use datafoundry_proxy.Base.{Bool, true, false, [], ◌∷◌, ◌++◌, Str, codes}
use datafoundry_proxy.Errors.{ldp_error_new, err_code_unauthorized}
use datafoundry_proxy.Effect.{Result, ok, err, M, fail, lift, ◌>>=◌}
use datafoundry_proxy.Json.{Json, Decoder}
use datafoundry_proxy.Json.Codec.{checked}
use datafoundry_proxy.Backend.{Backend}
use datafoundry_proxy.Http.{http_get}

-- A request: its method, the Authorization header, the body as JSON, or the error of reading or
-- parsing it, and the parameters of the path, "" where the route has none of that name.
pub record Request : Type 0 where
  pub method : Str
  pub authorization : Str
  pub body : Result Json
  pub org : Str
  pub action : Str
  pub token : Str

-- parseRequestBody into a new variable: the code looks at the error alone if there is one.
unfoldable pub parse_request_body : {A : Type 0} → Decoder A → A → Request → Result A
parse_request_body decode zero_value r = elim r.body [
  | ok j ↦ checked (decode zero_value j)
  | err e ↦ err e
]

-- checkToken: the header's text, and whether there is one.
unfoldable pub check_token : Request → Str × Bool
check_token r = elim r.authorization [ [] ↦ ([], false) | c ∷ s ↦ (c ∷ s, true) ]

module _ {W : Type 0} (B : Backend W) where
  -- getDFUserame: the name of authDF's user, from DF_API_Auth
  unfoldable pub get_df_userame : Str → M W Str
  get_df_userame token = do
    b ← http_get B (B.df_host ++ codes "/oapi/v1/users/~") token
    lift (B.user_name b)

  abbrev pub identified : Str × Bool → M W Str
  identified (token, false) = fail (ldp_error_new err_code_unauthorized)
  identified (token, true) = get_df_userame token

  unfoldable pub authed_identities : Request → M W Str
  unfolding check_token
  authed_identities r = identified (check_token r)
