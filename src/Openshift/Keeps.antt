-- ===== src/Openshift/Keeps.antt =====
-- The client for OpenShift: a request always returns, its error in the struct, and keeps what every
-- single request to the server keeps.
use datafoundry_proxy.Base.{
  Bool, true, false, [], ◌∷◌, ◌++◌, Option, none, some, Str, codes, refl, if◌then◌else◌,
}
use datafoundry_proxy.Errors.{GoError}
use datafoundry_proxy.Effect.{Result, ok, err, pure, fail, run, attempt}
use datafoundry_proxy.Effect.Total.{Total, Total-pure, Total-attempt, Total-bind}
use datafoundry_proxy.Json.Codec.{Value}
use datafoundry_proxy.Backend.{HttpResponse}
use datafoundry_proxy.Openshift.{
  OpenshiftClient, OpenshiftRest, RestRequest, Transport, Reply, with_token, request, failed,
  reply_of, do_send, do_request, k_get, k_delete, k_post, k_put,
}

module _ {W : Type 0} (T : Transport W) {P : W → Type 0}
    (keep : (q : RestRequest) (w : W) → P w → P (T.http_do q w).1) where
  with_token-keeps :
      (token method url : Str) (body : Option Value)
      → Total P (attempt (with_token T token method url body)) (λ _ w. P w)
  with_token-keeps [] method url body = record { at = λ w p. (err _, w, refl, p) }
  with_token-keeps (c ∷ s) method url body = sent (T.url_is_valid url) _
    where
      q : RestRequest
      q = record { method = method; url = url; authorization = c ∷ s; body = body }

      sent :
          (b : Bool) (e : GoError)
          → Total {A = Result HttpResponse} P
              (attempt (if b then run (T.http_do q) else fail e))
              (λ _ w. P w)
      sent true e = Total-attempt (λ _ w. P w) (T.http_do q) (keep q)
      sent false e = record { at = λ w p. (err _, w, refl, p) }

  request-keeps :
      (oc : OpenshiftClient W) (method url : Str) (body : Option Value)
      → Total P (attempt (request T oc method url body)) (λ _ w. P w)
  unfolding request
  request-keeps oc method url body = record {
    at = λ w p. (with_token-keeps (oc.bearer_token w) method url body).at w p;
  }

module _ {W A : Type 0} (T : Transport W) {P : W → Type 0}
    (keep : (q : RestRequest) (w : W) → P w → P (T.http_do q w).1) where
  do_send-keeps :
      (osr : OpenshiftRest W) (method url : Str) (body : Option Value)
      (into : Option (Value → Result A))
      → Total P (do_send T osr method url body into) (λ _ w. P w)
  unfolding do_send
  do_send-keeps osr method url body into =
      Total-bind (λ _ w. P w) (attempt (request T osr.oc method url body))
        (λ r. pure (reply_of T osr into r)) (request-keeps T keep osr.oc method url body)
        (λ r. Total-pure (reply_of T osr into r) (λ w p. p))

  pub do_request-keeps :
      (osr : OpenshiftRest W) (method url : Str) (body : Option (Result Value))
      (into : Option (Value → Result A))
      → Total P (do_request T osr method url body into) (λ _ w. P w)
  unfolding do_request
  do_request-keeps osr method url body into = split osr.err body
    where
      split :
          (e : Option GoError) (b : Option (Result Value))
          → Total {A = Reply W A} P
              (elim e [
                | some e ↦ pure (osr, none)
                | none ↦ elim b [
                  | none ↦ do_send T osr method url none into
                  | some (err e) ↦ pure (failed osr e)
                  | some (ok v) ↦ do_send T osr method url (some v) into
                ]
              ])
              (λ _ w. P w)
      split (some e) b = Total-pure (osr, none) (λ w p. p)
      split none none = do_send-keeps osr method url none into
      split none (some (err e)) = Total-pure (failed osr e) (λ w p. p)
      split none (some (ok v)) = do_send-keeps osr method url (some v) into

  pub k_get-keeps :
      (osr : OpenshiftRest W) (uri : Str) (into : Option (Value → Result A))
      → Total P (k_get T osr uri into) (λ _ w. P w)
  unfolding k_get
  k_get-keeps osr uri into = do_request-keeps osr (codes "GET") (osr.oc.kapi_url ++ uri) none into

  pub k_delete-keeps :
      (osr : OpenshiftRest W) (uri : Str) (into : Option (Value → Result A))
      → Total P (k_delete T osr uri into) (λ _ w. P w)
  unfolding k_delete
  k_delete-keeps osr uri into =
      do_request-keeps osr (codes "DELETE") (osr.oc.kapi_url ++ uri) (some T.delete_options) into

  pub k_post-keeps :
      (osr : OpenshiftRest W) (uri : Str) (body : Option (Result Value))
      (into : Option (Value → Result A))
      → Total P (k_post T osr uri body into) (λ _ w. P w)
  unfolding k_post
  k_post-keeps osr uri body into =
      do_request-keeps osr (codes "POST") (osr.oc.kapi_url ++ uri) body into

  pub k_put-keeps :
      (osr : OpenshiftRest W) (uri : Str) (body : Option (Result Value))
      (into : Option (Value → Result A))
      → Total P (k_put T osr uri body into) (λ _ w. P w)
  unfolding k_put
  k_put-keeps osr uri body into =
      do_request-keeps osr (codes "PUT") (osr.oc.kapi_url ++ uri) body into
