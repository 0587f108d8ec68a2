-- ===== src/Tests/Texts.antt =====
-- Names, mail addresses, JSON, lists of organizations and roles.
use datafoundry_proxy.Base.{
  All, ◌≡◌, refl, ◌↔◌, ◌≤◌, true, false, [], ◌∷◌, codes, str_eq, none, byte_length,
}
use datafoundry_proxy.Types.{OrgMember}
use datafoundry_proxy.Org.{name_exists}
use datafoundry_proxy.Org.Members.{HasUniqueNames}
use datafoundry_proxy.User.{org_id_in}
use datafoundry_proxy.User.Lists.{UniqueIds}
use datafoundry_proxy.Validation.{validate_user_name, validate_email}
use datafoundry_proxy.Validation.Labels.{HasLabelShape, validate_user_name_iff}
use datafoundry_proxy.Statistics.RoundTrip.{Lacks, AreWords}
use datafoundry_proxy.Tests.Samples.{acme, alice, joined_as}

validate_user_name_iff_example : (validate_user_name (codes "bob-2") ≡ none) ↔ (
    (2 ≤ byte_length (codes "bob-2"))
    × ((byte_length (codes "bob-2") ≤ 63) × HasLabelShape (codes "bob-2")))
validate_user_name_iff_example = validate_user_name_iff (codes "bob-2")

address_valid : validate_email (codes "x@ex.com") ≡ true
unfolding validate_email
address_valid = refl

alice-UniqueIds : UniqueIds alice.org_list
unfolding org_id_in
alice-UniqueIds = (refl, tt)

acme-HasUniqueNames : HasUniqueNames acme
unfolding name_exists str_eq
acme-HasUniqueNames = (refl, (refl, tt))

abbrev bob_member : OrgMember
bob_member = joined_as (codes "bob") false

words_plain : All (Lacks b'$') (codes "repo" ∷ codes "item" ∷ [])
words_plain = ((refl, (refl, (refl, (refl, tt)))), ((refl, (refl, (refl, (refl, tt)))), tt))

words_no_slash : All (Lacks b'/') (codes "repo" ∷ codes "item" ∷ [])
words_no_slash = ((refl, (refl, (refl, (refl, tt)))), ((refl, (refl, (refl, (refl, tt)))), tt))

words_fit : AreWords (codes "repo" ∷ codes "item" ∷ [])
words_fit = (words_no_slash, λ h. cc)
