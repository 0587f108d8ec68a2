-- ===== src/Tests/Guards.antt =====
-- Who cannot change the sample organization.
use datafoundry_proxy.Base.{◌≡◌, ◌≢◌, refl, inl, inr, true, false, codes, str_eq, str_eq_iff, subst}
use datafoundry_proxy.Types.{OrgMember, Orgnazition}
use datafoundry_proxy.Json.Codec.{json, encode_org}
use datafoundry_proxy.Json.Codec.RoundTrip.{read_org-encode_org}
use datafoundry_proxy.Paths.{etcd_org_path}
use datafoundry_proxy.Store.Success.{HasOrg, HasOrg-same}
use datafoundry_proxy.User.Organizations.{
  org_leave, org_invite, org_remove_member, org_privilege, delete_org,
}
use datafoundry_proxy.User.Organizations.Guards.{
  NoAdmin, OneAdmin, Refused, non_admin-Refused, last_admin-Refused,
}
use datafoundry_proxy.Tests.World.{small_backend, world_stored, small_laws}
use datafoundry_proxy.Tests.Samples.{acme_id, acme, alice, bob, joined_as, world0}

abbrev bob_as_admin : OrgMember
bob_as_admin = joined_as (codes "bob") true

abbrev alice_as_member : OrgMember
alice_as_member = joined_as (codes "alice") false

acme_there : HasOrg world_stored world0 acme_id acme
unfolding etcd_org_path str_eq
acme_there = (json (encode_org acme), refl, read_org-encode_org acme)

only_acme :
    (P : Orgnazition → Type 0)
    → P acme
    → (o : Orgnazition) → HasOrg world_stored world0 acme_id o
    → P o
only_acme P p o has = subst P (HasOrg-same world_stored world0 acme_id acme o acme_there has) p

alice_not_bob : codes "alice" ≢ codes "bob"
unfolding str_eq
alice_not_bob same =
    let clash : false ≡ true = (str_eq_iff (codes "alice") (codes "bob")).1 same in cc

bob_plain : NoAdmin (codes "bob") acme
bob_plain = (inl alice_not_bob, (inr refl, tt))

alice_alone : OneAdmin (codes "alice") acme
unfolding str_eq
alice_alone = (none_listed, refl)
  where
    none_listed : NoAdmin (codes "alice") acme → ⊥
    none_listed (inl other, rest) = other refl
    none_listed (inr plain, rest) = cc

non_admin-Refused_example :
    Refused small_backend world_stored small_laws acme_id world0
      (org_invite small_backend bob bob_as_admin acme_id world0)
    × Refused small_backend world_stored small_laws acme_id world0
        (org_remove_member small_backend bob bob_as_admin acme_id world0)
    × Refused small_backend world_stored small_laws acme_id world0
        (org_privilege small_backend bob bob_as_admin acme_id world0)
    × Refused small_backend world_stored small_laws acme_id world0
        (delete_org small_backend bob acme_id world0)
non_admin-Refused_example =
    non_admin-Refused small_backend world_stored small_laws acme_id world0 bob bob_as_admin
      (only_acme (NoAdmin (codes "bob")) bob_plain)

last_admin-Refused_example :
    Refused small_backend world_stored small_laws acme_id world0
      (org_leave small_backend alice acme_id world0)
    × Refused small_backend world_stored small_laws acme_id world0
        (org_privilege small_backend alice alice_as_member acme_id world0)
last_admin-Refused_example =
    last_admin-Refused small_backend world_stored small_laws acme_id world0 alice alice
      alice_as_member refl (only_acme (OneAdmin (codes "alice")) alice_alone)
