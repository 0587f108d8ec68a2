-- ===== src/User/Account/Activate.antt =====
-- What activeAccount did to the store if it returned.
use datafoundry_proxy.Base.{◌≡◌, ◌≢◌, sym, ap, ◌∙◌, true, Option, none, Str}
use datafoundry_proxy.Types.{UserInfo}
use datafoundry_proxy.Effect.Success.{Gives, after, lift-Gives}
use datafoundry_proxy.Effect.{lift}
use datafoundry_proxy.Json.Codec.{Value, read_user}
use datafoundry_proxy.Paths.{etcd_profile_path, etcd_verify_path, profile_path-ne-verify_path}
use datafoundry_proxy.Backend.{Backend}
use datafoundry_proxy.Backend.Laws.{Laws}
use datafoundry_proxy.Store.Success.{HasUser, IsStoredUser, IsWritten-IsSame, delete-Gives}
use datafoundry_proxy.Store.Success.Steps.{after_get_value, after_set_value}
use datafoundry_proxy.User.Account.{active_account}

-- The profile with the account active, and nothing else changed.
abbrev pub activated : UserInfo → UserInfo
activated u = record u { status = record (u.status) { active = true } }

-- If the activation of an account by a token returns, the user's profile is stored as it was but
-- active, the token is used up, so that no second activation can read it, and nothing else of the
-- store has changed.
pub active_account-Gives :
    {W : Type 0} (B : Backend W) (stored : W → Str → Option Value) (L : Laws B stored)
    (user token : Str) (w : W) {w' : W}
    → Gives (active_account B user token) w tt w'
    → (u : UserInfo) × HasUser stored w user u
      × IsStoredUser stored w' (activated u)
      × (stored w' (etcd_verify_path token) ≡ none)
      × ((k : Str)
          → etcd_profile_path u.username ≢ k
          → etcd_verify_path token ≢ k
          → stored w' k ≡ stored w k)
unfolding active_account
active_account-Gives B stored L user token w e =
    after_get_value B stored L (etcd_profile_path user) _ e (λ v w1 there same e.
      after (lift (read_user v)) _ e (λ u w2 lifted e.
        let (parsed, same2) = lift-Gives (read_user v) lifted in
        after_set_value B stored L _ _ _ e (λ w3 written e.
          let written' =
            IsWritten-IsSame stored (λ k. ap (λ z. stored z k) same2 ∙ same k) written in
          let (gone, others) = delete-Gives B stored L (etcd_verify_path token) e in
          (
            u,
            (v, there, parsed),
            others _ (λ q. profile_path-ne-verify_path u.username token (sym q)) ∙ written'.0,
            gone,
            λ k other_profile other_token. others k other_token ∙ written'.1 k other_profile,
          ))))
