-- ===== src/Handlers/Refusals.antt =====
-- Requests without a token are refused before anything is done.
use datafoundry_proxy.Base.{◌≡◌, refl, [], ◌∷◌}
use datafoundry_proxy.Errors.{ldp_error_new, err_code_unauthorized}
use datafoundry_proxy.Types.{UserInfo}
use datafoundry_proxy.Effect.{returns, M, ◌>>=◌}
use datafoundry_proxy.Backend.{Backend}
use datafoundry_proxy.Response.{Response}
use datafoundry_proxy.Auth.{Request, authed_identities}
use datafoundry_proxy.Handlers.{resp_error, with_user}
use datafoundry_proxy.Handlers.Organization.{
  delete_organization, list_organizations, create_organization, get_organization,
  manage_organization,
}
use datafoundry_proxy.Handlers.Account.{profile, send_verify_mail_handler, password_modify}
use datafoundry_proxy.Routes.{
  Route, post_signup, get_profile_route, put_password_modify, post_send_verify_email,
  get_verify_account, get_orgs, post_orgs, get_org, delete_org_route, put_org_action, not_found,
  dispatch,
}

-- The routes that ask for a caller.
abbrev pub NeedsCaller : Route → Type 0
NeedsCaller post_signup = ⊥
NeedsCaller get_verify_account = ⊥
NeedsCaller not_found = ⊥
NeedsCaller _ = Unit

module _ {W : Type 0} (B : Backend W) where
  no_caller :
      (r : Request) (next : UserInfo → M W Response) (w : W)
      → r.authorization ≡ []
      → with_user B r next w ≡ (returns (resp_error B (ldp_error_new err_code_unauthorized) 401), w)
  unfolding authed_identities ◌>>=◌
  no_caller r next w h = rw h refl

  -- Without an Authorization header every route that asks for a caller answers 401, with one answer,
  -- and does nothing: no service is called.
  pub dispatch-unauthorized :
      (route : Route) (r : Request) (w : W)
      → NeedsCaller route
      → r.authorization ≡ []
      → dispatch B route r w
        ≡ (returns (resp_error B (ldp_error_new err_code_unauthorized) 401 ∷ []), w)
  unfolding dispatch ◌>>=◌ authed_identities profile send_verify_mail_handler password_modify
      delete_organization list_organizations create_organization get_organization
      manage_organization
  dispatch-unauthorized post_signup r w n h = absurd n
  dispatch-unauthorized get_profile_route r w n h = rw h refl
  dispatch-unauthorized put_password_modify r w n h = rw h refl
  dispatch-unauthorized post_send_verify_email r w n h = rw h refl
  dispatch-unauthorized get_verify_account r w n h = absurd n
  dispatch-unauthorized get_orgs r w n h = rw h refl
  dispatch-unauthorized post_orgs r w n h = rw h refl
  dispatch-unauthorized get_org r w n h = rw h refl
  dispatch-unauthorized delete_org_route r w n h = rw h refl
  dispatch-unauthorized put_org_action r w n h = rw h refl
  dispatch-unauthorized not_found r w n h = absurd n
