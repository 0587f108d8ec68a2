-- ===== src/Routes.antt =====
-- main.go: the routes, the handlers behind them, and the server, which answers one request after
-- another.
pub mod Keeps
pub mod Members
pub mod Failures
use datafoundry_proxy.Base.{Bool, true, false, List, [], ◌∷◌}
use datafoundry_proxy.Errors.{ldp_error_new, err_code_not_found}
use datafoundry_proxy.Effect.{Outcome, returns, fails, panics, fatal, M, pure}
use datafoundry_proxy.Backend.{Backend}
use datafoundry_proxy.Response.{Response}
use datafoundry_proxy.Auth.{Request}
use datafoundry_proxy.Handlers.{resp_error}
use datafoundry_proxy.Handlers.Organization.{
  delete_organization, list_organizations, create_organization, get_organization,
  manage_organization,
}
use datafoundry_proxy.Handlers.Account.{
  one_answer, sign_up, profile, verify_account, send_verify_mail_handler, password_modify,
}

-- The routes of `main` whose handlers are modelled, and a path that is none of the router's.
pub data Route : Type 0 where
  post_signup : Route
  get_profile_route : Route
  put_password_modify : Route
  post_send_verify_email : Route
  get_verify_account : Route
  get_orgs : Route
  post_orgs : Route
  get_org : Route
  delete_org_route : Route
  put_org_action : Route
  not_found : Route

module _ {W : Type 0} (B : Backend W) where
  unfoldable pub dispatch : Route → Request → M W (List Response)
  dispatch post_signup r = one_answer B (sign_up B r)
  dispatch get_profile_route r = profile B r
  dispatch put_password_modify r = one_answer B (password_modify B r)
  dispatch post_send_verify_email r = one_answer B (send_verify_mail_handler B r)
  dispatch get_verify_account r = one_answer B (verify_account B r)
  dispatch get_orgs r = one_answer B (list_organizations B r)
  dispatch post_orgs r = one_answer B (create_organization B r)
  dispatch get_org r = one_answer B (get_organization B r)
  dispatch delete_org_route r = one_answer B (delete_organization B r)
  dispatch put_org_action r = one_answer B (manage_organization B r)
  dispatch not_found r = pure (resp_error B (ldp_error_new err_code_not_found) 404 ∷ [])

  -- The answers of the requests, and the world that they leave. A panic ends its request alone
  -- (net/http recovers it); glog.Fatal ends the process, and no request after it is answered.
  abbrev pub answered :
      Outcome (List Response) → List (List Response) × W → W → List (List Response) × W
  answered (returns answers) (rest, w'') w' = (answers ∷ rest, w'')
  answered (fails e) rest w' = rest
  answered panics rest w' = rest
  answered (fatal e) rest w' = ([], w')

  unfoldable pub serve : List (Route × Request) → W → List (List Response) × W
  serve [] w = ([], w)
  serve ((route, r) ∷ l) w =
      let (o, w') = dispatch route r w in let rest = serve l w' in answered o rest w'
