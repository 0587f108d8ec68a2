-- ===== src/Handlers/Keeps.antt =====
-- The shapes of the handlers keep a property of the stored organizations when their parts do.
use datafoundry_proxy.Base.{ℕ, Bool, true, false, Option, Str}
use datafoundry_proxy.Errors.{GoError}
use datafoundry_proxy.Types.{UserInfo, Orgnazition}
use datafoundry_proxy.Effect.{Result, ok, err, M}
use datafoundry_proxy.Effect.Ensures.{
  Ensures, Any, Succeeds, Ensures-attempt, Ensures-bind, Any-pure, keeps_rules,
}
use datafoundry_proxy.Json.Codec.{Value}
use datafoundry_proxy.Backend.{Backend}
use datafoundry_proxy.Backend.Laws.{Laws}
use datafoundry_proxy.Http.Keeps.{Keeps, Keeps-http_get}
use datafoundry_proxy.Store.Keeps.{OrgsAre, OrgsAre-IsOfStore, Ensures-user_get}
use datafoundry_proxy.Response.{Response, Content}
use datafoundry_proxy.Auth.{Request, check_token, get_df_userame, identified, authed_identities}
use datafoundry_proxy.Handlers.{respond, or_respond, unless, answer, answer_nil, with_user}

module _ {W : Type 0} (B : Backend W) (stored : W → Str → Option Value) (L : Laws B stored)
    (P : Orgnazition → Type 0) where
  -- The rest of a handler may use what holds of the value.
  pub Keeps-or_respond :
      {A : Type 0} (Q : A → Type 0) (m : M W A) (code : ℕ) (next : A → M W Response)
      → Ensures (OrgsAre stored P) m Q
      → ((a : A) → Q a → Keeps B stored L P (next a))
      → Keeps B stored L P (or_respond B m code next)
  Keeps-or_respond {A} Q m code next h k =
      Ensures-bind (Succeeds Q) _ _ (Ensures-attempt m h) responded
    where
      responded : (r : Result A) → Succeeds Q r → Keeps B stored L P (respond B code next r)
      responded (ok a) q = k a q
      responded (err e) q = Any-pure _

  pub Keeps-unless :
      (b : Bool) (e : GoError) (code : ℕ) (next : M W Response)
      → Keeps B stored L P next
      → Keeps B stored L P (unless B b e code next)
  Keeps-unless true e code next h = h
  Keeps-unless false e code next h = Any-pure _

  pub Keeps-answer :
      {A : Type 0} (m : M W A) (content : A → Content)
      → Keeps B stored L P m
      → Keeps B stored L P (answer B m content)
  Keeps-answer m content h = Keeps-or_respond Any m 400 _ h (λ a _. Any-pure _)

  pub Keeps-answer_nil :
      (m : M W (Unit {0})) → Keeps B stored L P m → Keeps B stored L P (answer_nil B m)
  Keeps-answer_nil m h = Keeps-or_respond Any m 400 _ h (λ a _. Any-pure _)

  Keeps-get_df_userame : (token : Str) → Keeps B stored L P (get_df_userame B token)
  unfolding get_df_userame
  Keeps-get_df_userame token =
      search
        (keeps_rules, Keeps-http_get B stored L (OrgsAre stored P) (OrgsAre-IsOfStore stored P))

  Keeps-identified : (c : Str × Bool) → Keeps B stored L P (identified B c)
  Keeps-identified (token, true) = Keeps-get_df_userame token
  Keeps-identified (token, false) = search keeps_rules

  pub Keeps-authed_identities : (r : Request) → Keeps B stored L P (authed_identities B r)
  unfolding authed_identities
  Keeps-authed_identities r = Keeps-identified (check_token r)

  pub Keeps-with_user :
      (r : Request) (next : UserInfo → M W Response)
      → ((u : UserInfo) → Keeps B stored L P (next u))
      → Keeps B stored L P (with_user B r next)
  Keeps-with_user r next h = Keeps-or_respond Any _ 401 _ (Keeps-authed_identities r) (λ username _.
      Keeps-or_respond Any _ 400 _ (Ensures-user_get B stored L P username) (λ u _. h u))
