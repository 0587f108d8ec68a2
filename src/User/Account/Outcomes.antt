-- ===== src/User/Account/Outcomes.antt =====
-- How signing up ends.
use datafoundry_proxy.Base.{
  ◌≤◌, ◌≡◌, ◌↔◌, Bool, true, false, Option, none, some, Str, ap, ◌∙◌, [], byte_length, arith,
  if◌then◌else◌, Option-cases, inl, inr,
}
use datafoundry_proxy.Errors.{check_if_exist_ldap}
use datafoundry_proxy.Types.{UserInfo}
use datafoundry_proxy.Effect.{Result, ok, err, call, exit, attempt}
use datafoundry_proxy.Effect.Ensures.{Keeping, Any-bind, Any-attempt}
use datafoundry_proxy.Effect.Success.{Gives, after, pure-Gives}
use datafoundry_proxy.Paths.{etcd_profile_path}
use datafoundry_proxy.Store.{set_value}
use datafoundry_proxy.Store.Success.{
  IsSame, IsWritten, quiet_run, quiet_call, IsWritten-IsSame, set_value-Gives,
}
use datafoundry_proxy.Store.Success.Steps.{after_keeping}
use datafoundry_proxy.Json.Codec.{Value, json, encode_user}
use datafoundry_proxy.Backend.{Backend}
use datafoundry_proxy.Backend.Laws.{Laws}
use datafoundry_proxy.Validation.{validate_user_name, validate_email}
use datafoundry_proxy.User.Account.{
  validate, add_to_ldap, add_to_etcd, after_ldap, fresh_profile, create,
}

-- `Validate` accepts exactly the users whose name is a valid user name, whose mail address matches
-- and whose password has 8 to 12 bytes.
pub validate_iff :
    (usr : UserInfo)
    → (validate usr ≡ none) ↔ (
        (validate_user_name usr.username ≡ none)
        × (validate_email usr.email ≡ true)
        × ((8 ≤ byte_length usr.password) × (byte_length usr.password ≤ 12)))
unfolding validate
validate_iff usr = elim (Option-cases (validate_user_name usr.username)) [
  | inl valid ↦ ground arith
  | inr (reason, refused) ↦ ground arith
]

module _ {W : Type 0} (B : Backend W) (stored : W → Str → Option Value) (L : Laws B stored) where
  add_to_ldap-IsSame : (usr : UserInfo) (w : W) → Keeping (IsSame stored w) (add_to_ldap B usr)
  unfolding add_to_ldap
  add_to_ldap-IsSame usr w = Any-bind _ _ (quiet_run stored w B.ldap_dial L.ldap_dial_keeps) (λ _.
      Any-bind _ _ (quiet_run stored w (B.ldap_bind _ _) (L.ldap_bind_keeps _ _))
        (λ _. quiet_run stored w (B.ldap_add _ _ _ _) (L.ldap_add_keeps _ _ _ _)))

  -- What is stored of a new user: the profile that is returned, under the user's name, and nothing
  -- else has changed; without a password, not active, with the name, mail address and organizations
  -- of the request.
  abbrev pub IsCreatedFrom : UserInfo → W → UserInfo → W → Type 0
  IsCreatedFrom usr w u w' =
      IsWritten stored w (etcd_profile_path usr.username) (json (encode_user u)) w'
      × (u.username ≡ usr.username)
      × (u.password ≡ [])
      × (u.status.active ≡ false)
      × ((u.email ≡ usr.email) × (u.org_list ≡ usr.org_list))

  add_to_etcd-Gives :
      (usr : UserInfo) (w : W) {u : UserInfo} {w' : W}
      → Gives (add_to_etcd B usr) w u w'
      → IsCreatedFrom usr w u w'
  unfolding add_to_etcd fresh_profile
  add_to_etcd-Gives usr w {u} {w'} e =
      after_keeping B stored L (call B.now) _ (quiet_call stored w B.now L.now_keeps) e
        (λ time w1 same e. after (set_value B _ _) _ e (λ t w2 done e.
          let (u_is, end) = pure-Gives (fresh_profile time usr) e in
          let (there, others) =
            IsWritten-IsSame stored same (set_value-Gives B stored L _ _ done) in
          (
            (rw (u_is, end) there, λ j apart. ap (λ x. stored x j) end ∙ others j apart),
            ap (λ x. x.username) u_is,
            ap (λ x. x.password) u_is,
            ap (λ x. x.status.active) u_is,
            (ap (λ x. x.email) u_is, ap (λ x. x.org_list) u_is),
          )))

  after_ldap-Gives :
      (usr : UserInfo) (r : Result (Unit {0})) (w : W) {u : UserInfo} {w' : W}
      → Gives (after_ldap B usr r) w u w'
      → IsCreatedFrom usr w u w'
  unfolding after_ldap
  after_ldap-Gives usr (ok t) w e = add_to_etcd-Gives usr w e
  after_ldap-Gives usr (err x) w {u} {w'} e = by_error (check_if_exist_ldap (some x)) e
    where
      usr' : UserInfo
      usr' = record usr { status = record (usr.status) { from_ldap = true } }

      by_error :
          (b : Bool)
          → Gives (if b then add_to_etcd B usr' else exit x) w u w'
          → IsCreatedFrom usr w u w'
      by_error true k = add_to_etcd-Gives usr' w k
      by_error false k = cc

  -- If `Create` returns, the profile that it returns is stored under the user's name, and nothing else
  -- of the store has changed. That profile has no password, is not active, and keeps the name, the
  -- mail address and the list of organizations that it was given.
  pub create-Gives :
      (usr : UserInfo) (w : W) {u : UserInfo} {w' : W}
      → Gives (create B usr) w u w'
      → IsCreatedFrom usr w u w'
  unfolding create
  create-Gives usr w e =
      after_keeping B stored L (attempt (add_to_ldap B usr)) _
        (Any-attempt _ (add_to_ldap-IsSame usr w)) e
        (λ r w1 same e.
          let (written, name, password, active, kept) = after_ldap-Gives usr r w1 e in
          (IsWritten-IsSame stored same written, name, password, active, kept))
