-- ===== src/User/Account/Keeps.antt =====
-- What concerns accounts leaves the stored organizations alone.
use datafoundry_proxy.Base.{Option, Str}
use datafoundry_proxy.Types.{UserInfo, Orgnazition}
use datafoundry_proxy.Effect.{Result, ok, err}
use datafoundry_proxy.Effect.Ensures.{Any-bind, keeps_rules}
use datafoundry_proxy.Json.Codec.{Value}
use datafoundry_proxy.Backend.{Backend}
use datafoundry_proxy.Backend.Laws.{Laws}
use datafoundry_proxy.Http.Keeps.{Keeps}
use datafoundry_proxy.Store.Keeps.{
  Ensures-get_value, Ensures-set_profile, Ensures-set_verify, Ensures-delete, Ensures-now,
  Ensures-ldap_dial, Ensures-ldap_bind, Ensures-ldap_add, Ensures-send_mail, Ensures-rand_read,
}
use datafoundry_proxy.User.Account.{
  add_to_ldap, add_to_etcd, after_ldap, create, gen_random_token, add_to_verify, send_verify_mail,
  active_account,
}

module _ {W : Type 0} (B : Backend W) (stored : W → Str → Option Value) (L : Laws B stored)
    (P : Orgnazition → Type 0) where
  Keeps-add_to_ldap : (usr : UserInfo) → Keeps B stored L P (add_to_ldap B usr)
  unfolding add_to_ldap
  Keeps-add_to_ldap usr =
      Any-bind _ _ (Ensures-ldap_dial B stored L P)
        (λ _. search (keeps_rules, Ensures-ldap_bind B stored L P, Ensures-ldap_add B stored L P))

  Keeps-add_to_etcd : (usr : UserInfo) → Keeps B stored L P (add_to_etcd B usr)
  unfolding add_to_etcd
  Keeps-add_to_etcd usr =
      Any-bind _ _ (Ensures-now B stored L P)
        (λ time. search (keeps_rules, Ensures-set_profile B stored L P))

  Keeps-after_ldap :
      (usr : UserInfo) (r : Result (Unit {0})) → Keeps B stored L P (after_ldap B usr r)
  unfolding after_ldap
  Keeps-after_ldap usr (ok u) = Keeps-add_to_etcd usr
  Keeps-after_ldap usr (err e) = search (keeps_rules, Keeps-add_to_etcd)

  pub Keeps-create : (usr : UserInfo) → Keeps B stored L P (create B usr)
  unfolding create
  Keeps-create usr = search (keeps_rules, Keeps-add_to_ldap, Keeps-after_ldap)

  Keeps-gen_random_token : Keeps B stored L P (gen_random_token B)
  unfolding gen_random_token
  Keeps-gen_random_token = search (keeps_rules, Ensures-rand_read B stored L P)

  Keeps-add_to_verify : (user : UserInfo) → Keeps B stored L P (add_to_verify B user)
  unfolding add_to_verify
  Keeps-add_to_verify user =
      search (keeps_rules, Keeps-gen_random_token, Ensures-set_verify B stored L P)

  pub Keeps-send_verify_mail : (usr : UserInfo) → Keeps B stored L P (send_verify_mail B usr)
  unfolding send_verify_mail
  Keeps-send_verify_mail usr =
      search (keeps_rules, Keeps-add_to_verify, Ensures-send_mail B stored L P)

  pub Keeps-active_account : (user token : Str) → Keeps B stored L P (active_account B user token)
  unfolding active_account
  Keeps-active_account user token = search (
    keeps_rules,
    Ensures-get_value B stored L P,
    Ensures-set_profile B stored L P,
    Ensures-delete B stored L P,
  )
