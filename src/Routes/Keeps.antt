-- ===== src/Routes/Keeps.antt =====
-- The server keeps a property of the stored organizations that every change of a member list keeps.
use datafoundry_proxy.Base.{◌≡◌, true, List, [], ◌∷◌, Option, Str, codes, str_eq}
use datafoundry_proxy.Types.{Orgnazition}
use datafoundry_proxy.Effect.{Outcome, returns, fails, panics, fatal, M}
use datafoundry_proxy.Effect.Ensures.{Any-bind, Any-pure}
use datafoundry_proxy.Json.Codec.{Value}
use datafoundry_proxy.Backend.{Backend}
use datafoundry_proxy.Backend.Laws.{Laws}
use datafoundry_proxy.Http.Keeps.{Keeps}
use datafoundry_proxy.Store.Keeps.{OrgsAre}
use datafoundry_proxy.Response.{Response}
use datafoundry_proxy.Auth.{Request}
use datafoundry_proxy.Handlers.Organization.Keeps.{
  IsClosed, RemovalKeeps, CreationHas, Keeps-delete_organization, Keeps-list_organizations,
  Keeps-create_organization, Keeps-get_organization, Keeps-manage_organization,
}
use datafoundry_proxy.Handlers.Account.{one_answer}
use datafoundry_proxy.Handlers.Account.Keeps.{
  Keeps-sign_up, Keeps-profile, Keeps-verify_account, Keeps-send_verify_mail_handler,
  Keeps-password_modify,
}
use datafoundry_proxy.Routes.{
  Route, post_signup, get_profile_route, put_password_modify, post_send_verify_email,
  get_verify_account, get_orgs, post_orgs, get_org, delete_org_route, put_org_action, not_found,
  dispatch, answered, serve,
}

-- What is asked of a request: a new organization has `P`, and a removal keeps it.
abbrev pub Allows : (Orgnazition → Type 0) → Route × Request → Type 0
Allows P (post_orgs, r) = CreationHas P r
Allows P (put_org_action, r) = str_eq r.action (codes "remove") ≡ true → RemovalKeeps P
Allows P _ = Unit

abbrev pub AllAllow : (Orgnazition → Type 0) → List (Route × Request) → Type 0
AllAllow P [] = Unit
AllAllow P (r ∷ l) = Allows P r × AllAllow P l

module _ {W : Type 0} (B : Backend W) (stored : W → Str → Option Value) (L : Laws B stored)
    (P : Orgnazition → Type 0) (closed : IsClosed P) where
  Keeps-one_answer : (m : M W Response) → Keeps B stored L P m → Keeps B stored L P (one_answer B m)
  Keeps-one_answer m h = Any-bind _ _ h (λ _. Any-pure _)

  Keeps-dispatch :
      (route : Route) (r : Request) → Allows P (route, r) → Keeps B stored L P (dispatch B route r)
  unfolding dispatch
  Keeps-dispatch post_signup r a = Keeps-one_answer _ (Keeps-sign_up B stored L P r)
  Keeps-dispatch get_profile_route r a = Keeps-profile B stored L P r
  Keeps-dispatch put_password_modify r a = Keeps-one_answer _ (Keeps-password_modify B stored L P r)
  Keeps-dispatch post_send_verify_email r a =
      Keeps-one_answer _ (Keeps-send_verify_mail_handler B stored L P r)
  Keeps-dispatch get_verify_account r a = Keeps-one_answer _ (Keeps-verify_account B stored L P r)
  Keeps-dispatch get_orgs r a = Keeps-one_answer _ (Keeps-list_organizations B stored L P closed r)
  Keeps-dispatch post_orgs r a =
      Keeps-one_answer _ (Keeps-create_organization B stored L P closed r a)
  Keeps-dispatch get_org r a = Keeps-one_answer _ (Keeps-get_organization B stored L P closed r)
  Keeps-dispatch delete_org_route r a =
      Keeps-one_answer _ (Keeps-delete_organization B stored L P closed r)
  Keeps-dispatch put_org_action r a =
      Keeps-one_answer _ (Keeps-manage_organization B stored L P closed r a)
  Keeps-dispatch not_found r a = Any-pure _

  pub serve-OrgsAre :
      (requests : List (Route × Request)) (w : W)
      → AllAllow P requests
      → OrgsAre stored P w
      → OrgsAre stored P (serve B requests w).1
  unfolding serve
  serve-OrgsAre [] w a h = h
  serve-OrgsAre ((route, r) ∷ l) w a h =
      let (o, w') = dispatch B route r w in
      let here : OrgsAre stored P w' = ((Keeps-dispatch route r a.0).at w h).0 in
      kept o (serve B l w') w' here (serve-OrgsAre l w' a.1 here)
    where
      kept :
          (o : Outcome (List Response)) (rest : List (List Response) × W) (w' : W)
          → OrgsAre stored P w'
          → OrgsAre stored P rest.1
          → OrgsAre stored P (answered B o rest w').1
      kept (returns answers) (rest, w'') w' h k = k
      kept (fails e) rest w' h k = k
      kept panics rest w' h k = k
      kept (fatal e) rest w' h k = h
