-- ===== src/Handlers/Unlisted.antt =====
-- Requests on an organization that is not in the caller's list: the tests of CheckIfOrgExistByID in the
-- handlers of organization.go.
use datafoundry_proxy.Base.{◌≡◌, ◌≢◌, ◌⊎◌, Option, Str, All}
use datafoundry_proxy.Types.{UserInfo}
use datafoundry_proxy.Effect.{Outcome, M}
use datafoundry_proxy.Effect.Ensures.{Ensures, Returns}
use datafoundry_proxy.Json.Codec.{Value}
use datafoundry_proxy.Backend.{Backend}
use datafoundry_proxy.Backend.Laws.{Laws}
use datafoundry_proxy.Store.Success.{IsSame}
use datafoundry_proxy.Response.{Response}

-- No organization of the list has this id.
abbrev pub IsUnlisted : Str → UserInfo → Type 0
IsUnlisted id u = All (λ org. org.org_id ≢ id) u.org_list

-- The organization is not found, or the caller's name or profile has not been got.
abbrev pub IsRefusal : Response → Type 0
IsRefusal r = (r.http_code ≡ 404) ⊎ ((r.http_code ≡ 401) ⊎ (r.http_code ≡ 400))

module _ {W : Type 0} (B : Backend W) (stored : W → Str → Option Value) (L : Laws B stored)
    (w : W) where
  -- The action leaves the store as it is in `w`, and its answer is a refusal.
  abbrev Refuses : M W Response → Type 0
  Refuses m = Ensures (IsSame stored w) m IsRefusal

  -- The store is the same, and the answer, if there is one, is a refusal.
  abbrev pub IsRefused : Outcome Response × W → Type 0
  IsRefused p = IsSame stored w p.1 × Returns IsRefusal p.0
