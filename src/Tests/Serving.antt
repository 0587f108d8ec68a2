-- ===== src/Tests/Serving.antt =====
-- Requests served in the sample world.
use datafoundry_proxy.Base.{◌≡◌, refl, ap, sym, true, false, List, [], ◌∷◌, codes, str_eq, arith}
use datafoundry_proxy.Errors.{ldp_error_new, err_code_unauthorized}
use datafoundry_proxy.Types.{Orgnazition, empty_org}
use datafoundry_proxy.Effect.{Result, ok, err, returns}
use datafoundry_proxy.Json.Codec.{decode_org}
use datafoundry_proxy.Store.Keeps.{OrgsAre}
use datafoundry_proxy.Auth.{Request, parse_request_body}
use datafoundry_proxy.Org.{name_exists}
use datafoundry_proxy.Org.Members.{HasUniqueNames}
use datafoundry_proxy.Handlers.{resp_error}
use datafoundry_proxy.Handlers.Refusals.{dispatch-unauthorized}
use datafoundry_proxy.Routes.{Route, put_org_action, post_orgs, delete_org_route, dispatch, serve}
use datafoundry_proxy.Routes.Members.{
  BringsNoMembers, RemovesNobody, Every, IsGoverned, serve-HasUniqueNames, serve-IsGoverned,
}
use datafoundry_proxy.Tests.World.{World, small_backend, world_stored, small_laws}
use datafoundry_proxy.Tests.Samples.{acme, world0, world0-OrgsAre, request, member_body, org_body}

abbrev invite_carol : Route × Request
invite_carol = (
  put_org_action,
  request (codes "PUT") (codes "alice") (codes "invite") (member_body (codes "carol") true),
)

abbrev carol_accepts : Route × Request
carol_accepts =
    (put_org_action, request (codes "PUT") (codes "carol") (codes "accept") (member_body [] false))

abbrev alice_leaves : Route × Request
alice_leaves =
    (put_org_action, request (codes "PUT") (codes "alice") (codes "leave") (member_body [] false))

abbrev remove_bob : Route × Request
remove_bob = (
  put_org_action,
  request (codes "PUT") (codes "alice") (codes "remove") (member_body (codes "bob") false),
)

abbrev bob_creates : Route × Request
bob_creates = (post_orgs, request (codes "POST") (codes "bob") [] (org_body (codes "bobs")))

abbrev requests_kept : List (Route × Request)
requests_kept = invite_carol ∷ carol_accepts ∷ alice_leaves ∷ bob_creates ∷ []

abbrev requests_all : List (Route × Request)
requests_all = remove_bob ∷ requests_kept

org_or : Result Orgnazition → Orgnazition
org_or (ok o) = o
org_or (err e) = empty_org

bob_creates-BringsNoMembers : BringsNoMembers bob_creates
unfolding parse_request_body decode_org org_or
bob_creates-BringsNoMembers body parsed = ap (λ r. (org_or r).member_list) (sym parsed)

kept-BringNoMembers : Every BringsNoMembers requests_kept
kept-BringNoMembers = (tt, (tt, (tt, (bob_creates-BringsNoMembers, tt))))

kept-RemoveNobody : Every RemovesNobody requests_kept
unfolding str_eq
kept-RemoveNobody = (refl, (refl, (refl, (tt, tt))))

acme-IsGoverned : IsGoverned acme
unfolding name_exists str_eq
acme-IsGoverned = ((refl, (refl, tt)), omega arith)

serve-HasUniqueNames_example :
    OrgsAre world_stored HasUniqueNames (serve small_backend requests_all world0).1
serve-HasUniqueNames_example =
    serve-HasUniqueNames small_backend world_stored small_laws requests_all world0
      (tt, kept-BringNoMembers) (world0-OrgsAre HasUniqueNames acme-IsGoverned.0)

serve-IsGoverned_example :
    OrgsAre world_stored IsGoverned (serve small_backend requests_kept world0).1
serve-IsGoverned_example =
    serve-IsGoverned small_backend world_stored small_laws requests_kept world0 kept-BringNoMembers
      kept-RemoveNobody (world0-OrgsAre IsGoverned acme-IsGoverned)

abbrev anonymous : Request
anonymous = request (codes "DELETE") [] [] (org_body [])

dispatch-unauthorized_example :
    dispatch small_backend delete_org_route anonymous world0
    ≡ (returns (resp_error small_backend (ldp_error_new err_code_unauthorized) 401 ∷ []), world0)
dispatch-unauthorized_example =
    dispatch-unauthorized small_backend delete_org_route anonymous world0 tt refl

abbrev from_carol : Request
from_carol = request (codes "PUT") (codes "carol") (codes "leave") (org_body [])
