-- ===== src/Store/Success/Steps.antt =====
-- A call that goes on after an operation of the store: what the operation did, handed on.
use datafoundry_proxy.Base.{◌≡◌, subst, Option, some, Str}
use datafoundry_proxy.Types.{UserInfo, Orgnazition}
use datafoundry_proxy.Effect.{M, ◌>>=◌}
use datafoundry_proxy.Effect.Success.{Gives, after}
use datafoundry_proxy.Json.Codec.{Value, json, encode_user, encode_org}
use datafoundry_proxy.Paths.{etcd_profile_path, etcd_org_path}
use datafoundry_proxy.Backend.{Backend}
use datafoundry_proxy.Backend.Laws.{Laws}
use datafoundry_proxy.Effect.Ensures.{Ensures, Keeping}
use datafoundry_proxy.Store.{
  get_value, set_value, user_get, user_update, org_get, org_create, org_update,
}
use datafoundry_proxy.Store.Success.{
  HasOrg, HasUser, IsSame, IsWritten, Keeping-Gives, Ensures-Gives, get_value-Gives,
  set_value-Gives, org_get-Gives, user_get-Gives, org_update-Gives, user_update-Gives,
}

module _ {W : Type 0} (B : Backend W) (stored : W → Str → Option Value) (L : Laws B stored)
    {A : Type 0} {C : Type 0} where
  pub after_org_get :
      (id : Str) (f : Orgnazition → M W A) {w : W} {a : A} {w'' : W}
      → Gives (org_get B id >>= f) w a w''
      → ((o : Orgnazition) (w' : W)
          → HasOrg stored w id o
          → IsSame stored w w'
          → Gives (f o) w' a w''
          → C)
      → C
  after_org_get id f e next = after (org_get B id) f e (λ o w' got rest.
      let (here, same) = org_get-Gives B stored L id got in next o w' here same rest)

  pub after_user_get :
      (name : Str) (f : UserInfo → M W A) {w : W} {a : A} {w'' : W}
      → Gives (user_get B name >>= f) w a w''
      → ((u : UserInfo) (w' : W)
          → HasUser stored w name u
          → IsSame stored w w'
          → Gives (f u) w' a w''
          → C)
      → C
  after_user_get name f e next = after (user_get B name) f e (λ u w' got rest.
      let (here, same) = user_get-Gives B stored L name got in next u w' here same rest)

  pub after_org_update :
      (o : Orgnazition) (f : Orgnazition → M W A) {w : W} {a : A} {w'' : W}
      → Gives (org_update B o >>= f) w a w''
      → ((w' : W)
          → IsWritten stored w (etcd_org_path o.id) (json (encode_org o)) w'
          → Gives (f o) w' a w''
          → C)
      → C
  after_org_update o f {w} {a} {w''} e next = after (org_update B o) f e (λ o' w' done rest.
      let (same, written) = org_update-Gives B stored L o done in
      next w' written (subst (λ x. Gives (f x) w' a w'') same rest))

  pub after_org_create :
      (o : Orgnazition) (f : Orgnazition → M W A) {w : W} {a : A} {w'' : W}
      → Gives (org_create B o >>= f) w a w''
      → ((w' : W)
          → IsWritten stored w (etcd_org_path o.id) (json (encode_org o)) w'
          → Gives (f o) w' a w''
          → C)
      → C
  unfolding org_update
  after_org_create o f e next = after_org_update o f e next

  pub after_user_update :
      (u : UserInfo) (m : M W A) {w : W} {a : A} {w'' : W}
      → Gives (user_update B u >>= λ _. m) w a w''
      → ((w' : W)
          → IsWritten stored w (etcd_profile_path u.username) (json (encode_user u)) w'
          → Gives m w' a w''
          → C)
      → C
  after_user_update u m e next =
      after (user_update B u) (λ _. m) e
        (λ t w' done rest. next w' (user_update-Gives B stored L u done) rest)

  -- An action that leaves the store alone.
  pub after_keeping :
      {D : Type 0} (m : M W D) (f : D → M W A) {w : W} {a : A} {w'' : W}
      → Keeping (IsSame stored w) m
      → Gives (m >>= f) w a w''
      → ((d : D) (w' : W) → IsSame stored w w' → Gives (f d) w' a w'' → C)
      → C
  after_keeping m f keep e next =
      after m f e (λ d w' done rest. next d w' (Keeping-Gives stored m keep done) rest)

  pub after_ensuring :
      {D : Type 0} (Q : D → Type 0) (m : M W D) (f : D → M W A) {w : W} {a : A} {w'' : W}
      → Ensures (IsSame stored w) m Q
      → Gives (m >>= f) w a w''
      → ((d : D) (w' : W) → Q d → IsSame stored w w' → Gives (f d) w' a w'' → C)
      → C
  after_ensuring Q m f h e next =
      after m f e
        (λ d w' done rest. let (q, same) = Ensures-Gives stored Q m h done in next d w' q same rest)

  pub after_get_value :
      (k : Str) (f : Value → M W A) {w : W} {a : A} {w'' : W}
      → Gives (get_value B k >>= f) w a w''
      → ((v : Value) (w' : W) → stored w k ≡ some v → IsSame stored w w' → Gives (f v) w' a w'' → C)
      → C
  after_get_value k f e next = after (get_value B k) f e (λ v w' got rest.
      let (there, same) = get_value-Gives B stored L k got in next v w' there same rest)

  pub after_set_value :
      (k : Str) (v : Value) (m : M W A) {w : W} {a : A} {w'' : W}
      → Gives (set_value B k v >>= λ _. m) w a w''
      → ((w' : W) → IsWritten stored w k v w' → Gives m w' a w'' → C)
      → C
  after_set_value k v m e next =
      after (set_value B k v) (λ _. m) e
        (λ t w' done rest. next w' (set_value-Gives B stored L k v done) rest)
