-- ===== src/Openshift.antt =====
-- openshift/openshift.go: the client for the REST interface of OpenShift and Kubernetes.
pub mod Keeps
use datafoundry_proxy.Base.{
  ℕ, Bool, true, false, ◌&&◌, ◌||◌, not, List, [], ◌∷◌, ◌++◌, Option, none, some, Str, codes,
  str_eq, has_prefix, ltb, leb, ◌==◌, if◌then◌else◌,
}
use datafoundry_proxy.Errors.{GoError, plain}
use datafoundry_proxy.Effect.{Result, ok, err, M, pure, fail, run, attempt, ◌>>=◌}
use datafoundry_proxy.Json.Codec.{Value}
use datafoundry_proxy.Backend.{HttpResponse}

all_slashes : Str → Bool
all_slashes [] = true
all_slashes (c ∷ s) = c == b'/' && all_slashes s

-- strings.HasSuffix(s, "/")
ends_with_slash : Str → Bool
ends_with_slash [] = false
ends_with_slash (c ∷ []) = c == b'/'
ends_with_slash (c ∷ d ∷ s) = ends_with_slash (d ∷ s)

-- strings.TrimRight(s, "/")
trim_right_slash : Str → Str
trim_right_slash [] = []
trim_right_slash (c ∷ s) =
    let rest = trim_right_slash s in if all_slashes (c ∷ s) then [] else c ∷ rest

abbrev pub https_scheme : Str
https_scheme = codes "https://"

-- httpsAddrMaker, of which common.go has a copy.
unfoldable pub https_addr_maker : Str → Str
unfolding ends_with_slash trim_right_slash all_slashes
https_addr_maker addr =
    let trimmed = if ends_with_slash addr then trim_right_slash addr else addr in
    if not (has_prefix https_scheme trimmed) then https_scheme ++ trimmed else trimmed

-- OpenshiftClient. The token of the admin's client is written by a goroutine of its own, so that
-- it is what the field holds at the time of a request.
pub record OpenshiftClient (W : Type 0) : Type 0 where
  pub host : Str
  pub oapi_url : Str
  pub kapi_url : Str
  pub bearer_token : W → Str

-- newOpenshiftClient, without the goroutine.
unfoldable pub admin_openshift_client : {W : Type 0} → Str → (W → Str) → OpenshiftClient W
unfolding https_addr_maker
admin_openshift_client host token = record {
  host = https_addr_maker host;
  oapi_url = https_addr_maker host ++ codes "/oapi/v1";
  kapi_url = https_addr_maker host ++ codes "/api/v1";
  bearer_token = token;
}

-- NewOpenshiftClient; `the_oc` is the variable theOC.
unfoldable pub new_openshift_client : {W : Type 0} → OpenshiftClient W → Str → OpenshiftClient W
new_openshift_client the_oc token = record the_oc { bearer_token = λ w. token }

-- What the client calls: http.Client.Do, http.NewRequest's test of the URL, the text of a body,
-- json.Unmarshal into a Status (its Code and Message), and the JSON of `kapi.DeleteOptions{}`.
pub record RestRequest : Type 0 where
  pub method : Str
  pub url : Str
  pub authorization : Str
  pub body : Option Value

pub record Transport (W : Type 0) : Type 0 where
  pub http_do : RestRequest → W → Result HttpResponse × W
  pub url_is_valid : Str → Bool
  pub text_of : Value → Str
  pub read_status : Value → ℕ × Str
  pub delete_options : Result Value

pub record OpenshiftRest (W : Type 0) : Type 0 where
  pub oc : OpenshiftClient W
  pub err : Option GoError
  pub status : ℕ × Str

-- NewOpenshiftREST; nil is the admin's client.
unfoldable pub new_openshift_rest :
    {W : Type 0} → OpenshiftClient W → Option (OpenshiftClient W) → OpenshiftRest W
new_openshift_rest the_oc none = record { oc = the_oc; err = none; status = (0, []) }
new_openshift_rest the_oc (some client) = record { oc = client; err = none; status = (0, []) }

module _ {W : Type 0} (T : Transport W) where
  abbrev pub with_token : Str → Str → Str → Option Value → M W HttpResponse
  with_token [] method url body = fail (plain (codes "token is blank"))
  with_token (c ∷ s) method url body =
      if T.url_is_valid url
      then run
          (T.http_do (record { method = method; url = url; authorization = c ∷ s; body = body }))
      else fail (plain (codes "parse " ++ url))

  -- The timeout is a property of http.Client.
  unfoldable pub request : OpenshiftClient W → Str → Str → Option Value → M W HttpResponse
  request oc method url body w = with_token (oc.bearer_token w) method url body w

-- What a call leaves in the struct, and what it has written to `into`, if anything.
abbrev pub Reply : Type 0 → Type 0 → Type 0
Reply W A = OpenshiftRest W × Option A

abbrev pub failed : {W A : Type 0} → OpenshiftRest W → GoError → Reply W A
failed osr e = (record osr { err = some e }, none)

module _ {W A : Type 0} (T : Transport W) where
  -- `if into != nil { osr.Err = json.Unmarshal(data, into) }`
  abbrev pub unmarshalled : OpenshiftRest W → Result A → Reply W A
  unmarshalled osr (ok a) = (record osr { err = none }, some a)
  unmarshalled osr (err e) = failed osr e

  abbrev pub into_variable : OpenshiftRest W → Option (Value → Result A) → Value → Reply W A
  into_variable osr none data' = (record osr { err = none }, none)
  into_variable osr (some read) data' = unmarshalled osr (read data')

  -- `res.StatusCode < 200 || res.StatusCode >= 400`
  abbrev pub read_reply : OpenshiftRest W → Option (Value → Result A) → ℕ → Result Value → Reply W A
  read_reply osr into code (err e) = failed osr e
  read_reply osr into code (ok data') =
      if ltb code 200 || leb 400 code
      then failed (record osr { status = T.read_status data' }) (plain (T.text_of data'))
      else into_variable osr into data'

  abbrev pub reply_of :
      OpenshiftRest W → Option (Value → Result A) → Result HttpResponse → Reply W A
  reply_of osr into (err e) = failed osr e
  reply_of osr into (ok res) = read_reply osr into res.status_code res.body

  -- From `res, err := osr.oc.request(...)` on.
  unfoldable pub do_send :
      OpenshiftRest W → Str → Str → Option Value → Option (Value → Result A) → M W (Reply W A)
  unfolding request
  do_send osr method url body into = do
    r ← attempt (request T osr.oc method url body)
    pure (reply_of osr into r)

  -- `body_params` is nil, or what json.Marshal makes of it.
  unfoldable pub do_request :
      OpenshiftRest W
      → Str
      → Str
      → Option (Result Value)
      → Option (Value → Result A)
      → M W (Reply W A)
  unfolding do_send
  do_request osr method url body_params into = elim osr.err [
    | some e ↦ pure (osr, none)
    | none ↦ elim body_params [
      | none ↦ do_send osr method url none into
      | some (err e) ↦ pure (failed osr e)
      | some (ok b) ↦ do_send osr method url (some b) into
    ]
  ]

  unfoldable pub o_get : OpenshiftRest W → Str → Option (Value → Result A) → M W (Reply W A)
  o_get osr uri into = do_request osr (codes "GET") (osr.oc.oapi_url ++ uri) none into

  unfoldable pub o_delete : OpenshiftRest W → Str → Option (Value → Result A) → M W (Reply W A)
  o_delete osr uri into =
      do_request osr (codes "DELETE") (osr.oc.oapi_url ++ uri) (some T.delete_options) into

  unfoldable pub o_post :
      OpenshiftRest W → Str → Option (Result Value) → Option (Value → Result A) → M W (Reply W A)
  o_post osr uri body into = do_request osr (codes "POST") (osr.oc.oapi_url ++ uri) body into

  unfoldable pub o_put :
      OpenshiftRest W → Str → Option (Result Value) → Option (Value → Result A) → M W (Reply W A)
  o_put osr uri body into = do_request osr (codes "PUT") (osr.oc.oapi_url ++ uri) body into

  unfoldable pub k_get : OpenshiftRest W → Str → Option (Value → Result A) → M W (Reply W A)
  k_get osr uri into = do_request osr (codes "GET") (osr.oc.kapi_url ++ uri) none into

  unfoldable pub k_delete : OpenshiftRest W → Str → Option (Value → Result A) → M W (Reply W A)
  k_delete osr uri into =
      do_request osr (codes "DELETE") (osr.oc.kapi_url ++ uri) (some T.delete_options) into

  unfoldable pub k_post :
      OpenshiftRest W → Str → Option (Result Value) → Option (Value → Result A) → M W (Reply W A)
  k_post osr uri body into = do_request osr (codes "POST") (osr.oc.kapi_url ++ uri) body into

  unfoldable pub k_put :
      OpenshiftRest W → Str → Option (Result Value) → Option (Value → Result A) → M W (Reply W A)
  k_put osr uri body into = do_request osr (codes "PUT") (osr.oc.kapi_url ++ uri) body into
