-- ===== src/Store/Success.antt =====
-- What the store's operations did if they returned.
pub mod Steps
use datafoundry_proxy.Base.{◌≡◌, ◌≢◌, refl, sym, ap, ◌∙◌, subst, [], ◌∷◌, Option, none, some, Str}
use datafoundry_proxy.Types.{UserInfo, Orgnazition}
use datafoundry_proxy.Effect.{Result, ok, run, call, M, Outcome, ◌>>=◌}
use datafoundry_proxy.Effect.Success.{Gives, bind-Gives, run-Gives, lift-Gives, pure-Gives, after}
use datafoundry_proxy.Json.Codec.{Value, json, read_user, read_org, encode_user, encode_org}
use datafoundry_proxy.Paths.{etcd_profile_path, etcd_org_path, profile_path-ne-org_path}
use datafoundry_proxy.Backend.{Backend}
use datafoundry_proxy.Backend.Laws.{Laws}
use datafoundry_proxy.Store.Keeps.{IsOfStore}
use datafoundry_proxy.Effect.Ensures.{Any, Ensures, Returns, Keeping, Ensures-run, Ensures-call}
use datafoundry_proxy.Store.{
  get_value, delete, set_value, user_get, user_update, org_get, org_create, org_update,
}

module _ {W : Type 0} (stored : W → Str → Option Value) where
  -- The organization that is stored under this id.
  abbrev pub HasOrg : W → Str → Orgnazition → Type 0
  HasOrg w id o = (v : Value) × (stored w (etcd_org_path id) ≡ some v) × (read_org v ≡ ok o)

  -- The profile that is stored under this name.
  abbrev pub HasUser : W → Str → UserInfo → Type 0
  HasUser w name u =
      (v : Value) × (stored w (etcd_profile_path name) ≡ some v) × (read_user v ≡ ok u)

  abbrev pub IsSame : W → W → Type 0
  IsSame w w' = (k : Str) → stored w' k ≡ stored w k

  -- Nothing but this key has changed, and it holds the value.
  abbrev pub IsWritten : W → Str → Value → W → Type 0
  IsWritten w k v w' = (stored w' k ≡ some v) × ((j : Str) → k ≢ j → stored w' j ≡ stored w j)

  -- The organization or the profile is stored as the program writes it.
  abbrev pub IsStoredOrg : W → Orgnazition → Type 0
  IsStoredOrg w o = stored w (etcd_org_path o.id) ≡ some (json (encode_org o))

  abbrev pub IsStoredUser : W → UserInfo → Type 0
  IsStoredUser w u = stored w (etcd_profile_path u.username) ≡ some (json (encode_user u))

  -- From `w` to `w'` nothing but these two have changed.
  abbrev pub ChangesOnly : W → Str → Str → W → Type 0
  ChangesOnly w id name w' =
      (k : Str) → etcd_org_path id ≢ k → etcd_profile_path name ≢ k → stored w' k ≡ stored w k

  pub HasOrg-same : (w : W) (id : Str) (o p : Orgnazition) → HasOrg w id o → HasOrg w id p → o ≡ p
  HasOrg-same w id o p (v, there, parsed) (v', there', parsed') = cc

  pub IsSame-IsOfStore : (w0 : W) → IsOfStore stored (IsSame w0)
  IsSame-IsOfStore w0 w w' same h k = same k ∙ h k

  -- An action that touches nothing of the store, however it ends.
  pub Keeping-Gives :
      {A : Type 0} (m : M W A) {a : A} {w w' : W}
      → Keeping (IsSame w) m
      → Gives m w a w'
      → IsSame w w'
  Keeping-Gives m {a} {w} {w'} h e k =
      ap (λ (r : Outcome _ × W). stored r.1 k) (sym e) ∙ (h.at w (λ j. refl)).0 k

  -- The same for an action that ensures something of its value.
  pub Ensures-Gives :
      {A : Type 0} (Q : A → Type 0) (m : M W A) {a : A} {w w' : W}
      → Ensures (IsSame w) m Q
      → Gives m w a w'
      → Q a × IsSame w w'
  Ensures-Gives Q m {a} {w} {w'} h e =
      let (same, q) = h.at w (λ k. refl) in
      (
        subst (λ (r : Outcome _ × W). Returns Q r.0) e q,
        λ k. ap (λ (r : Outcome _ × W). stored r.1 k) (sym e) ∙ same k,
      )

  -- A call of another service, and one that cannot fail.
  pub quiet_run :
      {A : Type 0} (w0 : W) (f : W → Result A × W)
      → ((k : Str) (w : W) → stored (f w).1 k ≡ stored w k)
      → Keeping (IsSame w0) (run f)
  quiet_run w0 f h = Ensures-run Any f (λ w same k. h k w ∙ same k) (λ w a same e. tt)

  pub quiet_call :
      {A : Type 0} (w0 : W) (f : W → A × W)
      → ((k : Str) (w : W) → stored (f w).1 k ≡ stored w k)
      → Keeping (IsSame w0) (call f)
  quiet_call w0 f h = Ensures-call f (λ w same k. h k w ∙ same k)

  pub IsWritten-IsSame :
      {w1 w2 w3 : W} {k : Str} {v : Value}
      → IsSame w1 w2
      → IsWritten w2 k v w3
      → IsWritten w1 k v w3
  IsWritten-IsSame same (there, others) = (there, λ j apart. others j apart ∙ same j)

  pub IsSame-IsWritten :
      {w1 w2 w3 : W} {k : Str} {v : Value}
      → IsWritten w1 k v w2
      → IsSame w2 w3
      → IsWritten w1 k v w3
  IsSame-IsWritten {k = k} (there, others) same =
      (same k ∙ there, λ j apart. same j ∙ others j apart)

  -- An organization written, and then a profile.
  pub org_then_user :
      (o : Orgnazition) (u : UserInfo) {w1 w2 w3 : W}
      → IsWritten w1 (etcd_org_path o.id) (json (encode_org o)) w2
      → IsWritten w2 (etcd_profile_path u.username) (json (encode_user u)) w3
      → IsStoredOrg w3 o × IsStoredUser w3 u × ChangesOnly w1 o.id u.username w3
  org_then_user o u (org_there, org_others) (there, others) = (
    others (etcd_org_path o.id) (profile_path-ne-org_path u.username o.id) ∙ org_there,
    there,
    λ k other_org other_user. others k other_user ∙ org_others k other_org,
  )

module _ {W : Type 0} (B : Backend W) (stored : W → Str → Option Value) (L : Laws B stored) where
  pub get_value-Gives :
      (k : Str) {v : Value} {w w' : W}
      → Gives (get_value B k) w v w'
      → (stored w k ≡ some v) × IsSame stored w w'
  unfolding get_value
  get_value-Gives k {v} {w} {w'} e =
      let (there, end) = run-Gives (B.etcd_get k) e in
      (L.get_ok k v w there, λ j. ap (λ x. stored x j) (sym end) ∙ L.get_keeps k j w)

  pub set_value-Gives :
      (k : Str) (v : Value) {w w' : W} → Gives (set_value B k v) w tt w' → IsWritten stored w k v w'
  unfolding set_value
  set_value-Gives k v {w} {w'} e =
      let (done, end) = run-Gives (B.etcd_set k v none) e in
      (
        ap (λ x. stored x k) (sym end) ∙ L.set_ok k v none w done,
        λ j apart. ap (λ x. stored x j) (sym end) ∙ L.set_other k j v none w apart,
      )

  pub org_get-Gives :
      (id : Str) {o : Orgnazition} {w w' : W}
      → Gives (org_get B id) w o w'
      → HasOrg stored w id o × IsSame stored w w'
  unfolding org_get
  org_get-Gives id e =
      let (v, w1, got, rest) = bind-Gives _ _ e in
      let (there, same) = get_value-Gives (etcd_org_path id) got in
      let (parsed, end) = lift-Gives (read_org v) rest in
      ((v, there, parsed), λ k. ap (λ x. stored x k) end ∙ same k)

  pub user_get-Gives :
      (name : Str) {u : UserInfo} {w w' : W}
      → Gives (user_get B name) w u w'
      → HasUser stored w name u × IsSame stored w w'
  unfolding user_get
  user_get-Gives [] e = cc
  user_get-Gives (c ∷ name) e =
      let (v, w1, got, rest) = bind-Gives _ _ e in
      let (there, same) = get_value-Gives (etcd_profile_path (c ∷ name)) got in
      let (parsed, end) = lift-Gives (read_user v) rest in
      ((v, there, parsed), λ k. ap (λ x. stored x k) end ∙ same k)

  pub org_update-Gives :
      (o : Orgnazition) {o' : Orgnazition} {w w' : W}
      → Gives (org_update B o) w o' w'
      → (o' ≡ o) × IsWritten stored w (etcd_org_path o.id) (json (encode_org o)) w'
  unfolding org_update org_create
  org_update-Gives o e =
      let (u, w1, done, rest) = bind-Gives _ _ e in
      let (same, end) = pure-Gives o rest in
      let (there, others) = set_value-Gives (etcd_org_path o.id) (json (encode_org o)) done in
      (
        same,
        (
          ap (λ x. stored x (etcd_org_path o.id)) end ∙ there,
          λ j apart. ap (λ x. stored x j) end ∙ others j apart,
        ),
      )

  pub user_update-Gives :
      (u : UserInfo) {w w' : W}
      → Gives (user_update B u) w tt w'
      → IsWritten stored w (etcd_profile_path u.username) (json (encode_user u)) w'
  unfolding user_update
  user_update-Gives u e = set_value-Gives (etcd_profile_path u.username) (json (encode_user u)) e

  pub delete-Gives :
      (k : Str) {w w' : W}
      → Gives (delete B k) w tt w'
      → (stored w' k ≡ none) × ((j : Str) → k ≢ j → stored w' j ≡ stored w j)
  unfolding delete
  delete-Gives k {w} {w'} e =
      let (done, end) = run-Gives (B.etcd_delete k) e in
      (
        ap (λ x. stored x k) (sym end) ∙ L.delete_ok k w done,
        λ j apart. ap (λ x. stored x j) (sym end) ∙ L.delete_other k j w apart,
      )
