-- ===== src/Volume/Handlers.antt =====
-- volume.go: CreateVolume and DeleteVolume, with what they do behind the answer.
use datafoundry_proxy.Base.{
  ℕ, suc, ◌%◌, Bool, false, not, ◌||◌, List, [], ◌∷◌, ◌++◌, Option, none, some, Str, codes, decimal,
  ◌==◌, if◌then◌else◌,
}
use datafoundry_proxy.Base.Int.{ℤ, pos, negsuc, leb_ℤ, int64_mul}
use datafoundry_proxy.Errors.{GoError, plain}
use datafoundry_proxy.Effect.{Result, ok, err, M, pure, panic, run, attempt, ◌>>=◌}
use datafoundry_proxy.Json.{Json}
use datafoundry_proxy.Json.Codec.{Value}
use datafoundry_proxy.Backend.{Backend}
use datafoundry_proxy.Response.{Response}
use datafoundry_proxy.Auth.{Request, authed_identities}
use datafoundry_proxy.Handlers.{resp_error, resp_ok_nil}
use datafoundry_proxy.Validation.{Reason, name_is_dns_label}
use datafoundry_proxy.Messages.Errors.{Error}
use datafoundry_proxy.Messages.Params.Must.{
  Param, given, bad, Map, Words, must_int_param_in_map, must_string_param, must_string_param_in_map,
  string_param_type_url_word,
}
use datafoundry_proxy.Openshift.{
  OpenshiftClient, OpenshiftRest, Transport, Reply, new_openshift_client, new_openshift_rest, k_get,
  k_delete, k_post, k_put,
}
use datafoundry_proxy.Volume.{pvc_name2pv_name, volume_id2volume_name, volume_name2volume_id}

abbrev pub min_volumn_size : ℤ
min_volumn_size = pos 10

abbrev pub max_volumn_size : ℤ
max_volumn_size = pos 200

abbrev pub gi : ℤ
gi = pos 1073741824

-- The objects of the Kubernetes API, as far as the program sets or reads them. A map is a list of
-- its keys with their values, and `none` where it is nil.
pub record GlusterfsVolumeSource : Type 0 where
  pub endpoints_name : Str
  pub path : Str

pub record PersistentVolume : Type 0 where
  pub kind : Str
  pub api_version : Str
  pub name : Str
  pub annotations : Option (List (Str × Str))
  pub storage : ℤ
  pub glusterfs : Option GlusterfsVolumeSource
  pub access_modes : List Str
  pub reclaim_policy : Str

pub record PersistentVolumeClaim : Type 0 where
  pub kind : Str
  pub api_version : Str
  pub name : Str
  pub annotations : Option (List (Str × Str))
  pub access_modes : List Str
  pub storage : ℤ

abbrev pub empty_volume : PersistentVolume
empty_volume = record {
  kind = [];
  api_version = [];
  name = [];
  annotations = none;
  storage = pos 0;
  glusterfs = none;
  access_modes = [];
  reclaim_policy = [];
}

abbrev pub empty_claim : PersistentVolumeClaim
empty_claim = record {
  kind = [];
  api_version = [];
  name = [];
  annotations = none;
  access_modes = [];
  storage = pos 0;
}

-- The fields of api.VolumeCreateRequest that are set.
pub record VolumeCreateRequest : Type 0 where
  pub size : ℤ
  pub clusters : List Str
  pub durability_type : Str
  pub replica : ℕ
  pub disperse_data : ℕ
  pub redundancy : ℕ

-- The client of Heketi, which gives the id of a new volume; and encoding/json on the objects.
pub record Storage (W : Type 0) : Type 0 where
  pub cluster_list : W → Result (List Str) × W
  pub volume_create : VolumeCreateRequest → W → Result Str × W
  pub volume_delete : Str → W → Result (Unit {0}) × W
  pub gluster_endpoints_name : Str
  pub marshal_volume : PersistentVolume → Result Value
  pub marshal_claim : PersistentVolumeClaim → Result Value
  pub unmarshal_volume : Value → Result PersistentVolume
  pub unmarshal_claim : Value → Result PersistentVolumeClaim

-- A request: what checkToken reads of it, the parameters of the path, and the body.
pub record VolumeRequest : Type 0 where
  pub auth : Request
  pub params : Str → Str
  pub body : Result Map

-- What a handler writes: an answer of the proxy, the new claim, or nothing at all.
pub data VolumeReply : Type 0 where
  proxy : Response → VolumeReply
  created : PersistentVolumeClaim → VolumeReply
  nothing : VolumeReply

-- `size % 10 != 0`, where the sign does not matter.
abbrev pub has_rest : ℤ → Bool
has_rest (pos n) = not (n % 10 == 0)
has_rest (negsuc n) = not (suc n % 10 == 0)

unfoldable pub size_is_invalid : ℤ → Bool
size_is_invalid size =
    not (leb_ℤ min_volumn_size size) || (not (leb_ℤ size max_volumn_size) || has_rest size)

abbrev pub invalid_volumn_size : GoError
invalid_volumn_size =
    plain (codes "volumn size must be integer multiple of 10G and in range [10, 200].")

-- The method Error of an error of the package messages.
abbrev pub param_error : Error → GoError
param_error e = plain (decimal e.code ++ (codes ": " ++ e.message))

-- What json.Unmarshal has left in a variable.
abbrev pub or_zero : {A : Type 0} → A → Option A → A
or_zero zero_value none = zero_value
or_zero zero_value (some a) = a

abbrev requester : Str → Str → Str
requester username namespace = username ++ (codes "@" ++ namespace)

abbrev pub gluster_annotations : Str → Str → Str → List (Str × Str)
gluster_annotations id username namespace =
    (codes "datafoundry.io/gluster-volume", id)
    ∷ (codes "datafoundry.io/requester", requester username namespace)
    ∷ []

abbrev pub claim_uri : Str → Str → Str
claim_uri namespace pvcname =
    codes "/namespaces/" ++ (namespace ++ (codes "/persistentvolumeclaims/" ++ pvcname))

-- inputPV
unfoldable pub input_pv : Str → Str → Str → Str → ℤ → Str → PersistentVolume
input_pv endpoints username namespace pvcname storage' id = record {
  kind = codes "PersistentVolume";
  api_version = codes "v1";
  name = pvc_name2pv_name namespace pvcname;
  annotations = some (gluster_annotations id username namespace);
  storage = storage';
  glusterfs = some (record { endpoints_name = endpoints; path = volume_id2volume_name id });
  access_modes = codes "ReadWriteMany" ∷ [];
  reclaim_policy = codes "Recycle";
}

-- inputPVC
unfoldable pub input_pvc : Str → ℤ → PersistentVolumeClaim
input_pvc pvcname storage' = record {
  kind = codes "PersistentVolumeClaim";
  api_version = codes "v1";
  name = pvcname;
  annotations = none;
  access_modes = codes "ReadWriteMany" ∷ [];
  storage = storage';
}

-- The request to Heketi.
unfoldable pub create_request : ℤ → List Str → VolumeCreateRequest
create_request size clusters = record {
  size = size;
  clusters = clusters;
  durability_type = codes "replicate";
  replica = 3;
  disperse_data = 4;
  redundancy = 2;
}

-- `if currentPVC.Annotations == nil { ... }`
abbrev pub annotated : Str → Str → Str → PersistentVolumeClaim → PersistentVolumeClaim
annotated id username namespace c = elim c.annotations [
  | none ↦ record c { annotations = some (gluster_annotations id username namespace) }
  | some l ↦ c
]

module _ {W : Type 0} (T : Transport W) (S : Storage W) (the_oc : OpenshiftClient W) where
  abbrev user_rest : VolumeRequest → OpenshiftRest W
  user_rest r = new_openshift_rest the_oc (some (new_openshift_client the_oc r.auth.authorization))

  -- The goroutine of CreateVolume. The first deferred function deletes the volume where the pv has
  -- not been posted; the second one, which would delete the pv, is set up when `succeeded` is about to
  -- become true, so that it does nothing.
  unfoldable pub clean_up : Str → M W (Unit {0})
  clean_up id = do done ← attempt (run (S.volume_delete id)); pure tt

  abbrev pub put_claim :
      Str → Str → Str → Str → Reply W PersistentVolumeClaim → Option GoError → M W (Unit {0})
  put_claim username namespace pvcname id got (some e) = pure tt
  put_claim username namespace pvcname id got none = do
    put ←
        k_put {A = Unit {0}} T got.0 (claim_uri namespace pvcname)
          (some (S.marshal_claim (annotated id username namespace (or_zero empty_claim got.1))))
          none
    pure tt

  unfoldable pub update_claim : VolumeRequest → Str → Str → Str → Str → M W (Unit {0})
  unfolding new_openshift_rest new_openshift_client
  update_claim r username namespace pvcname id = do
    got ← k_get T (user_rest r) (claim_uri namespace pvcname) (some S.unmarshal_claim)
    put_claim username namespace pvcname id got got.0.err

  unfoldable pub post_volume : PersistentVolume → M W (OpenshiftRest W × Option PersistentVolume)
  unfolding new_openshift_rest
  post_volume pv =
      k_post T (new_openshift_rest the_oc none) (codes "/persistentvolumes")
        (some (S.marshal_volume pv)) (some S.unmarshal_volume)

  abbrev pub after_post : VolumeRequest → Str → Str → Str → Str → Option GoError → M W (Unit {0})
  after_post r username namespace pvcname id (some e) = clean_up id
  after_post r username namespace pvcname id none = update_claim r username namespace pvcname id

  abbrev pub after_create : VolumeRequest → Str → Str → Str → ℤ → Result Str → M W (Unit {0})
  after_create r username namespace pvcname storage' (err e) = pure tt
  after_create r username namespace pvcname storage' (ok id) = do
    posted ← post_volume (input_pv S.gluster_endpoints_name username namespace pvcname storage' id)
    after_post r username namespace pvcname id posted.0.err

  unfoldable pub provision : VolumeRequest → Str → Str → Str → ℤ → List Str → M W (Unit {0})
  provision r username namespace pvcname size clusters = do
    made ← attempt (run (S.volume_create (create_request size clusters)))
    after_create r username namespace pvcname (int64_mul size gi) made

  -- The goroutine of DeleteVolume.
  unfoldable pub release_glusterfs : Option GlusterfsVolumeSource → M W (Unit {0})
  release_glusterfs none = pure tt
  release_glusterfs (some source) = do
    done ← attempt (run (S.volume_delete (volume_name2volume_id source.path)))
    pure tt

  unfoldable pub release_volume : PersistentVolume → M W (Unit {0})
  unfolding new_openshift_rest
  release_volume pv = do
    deleted ←
        k_delete {A = Unit {0}} T (new_openshift_rest the_oc none)
          (codes "/persistentvolumes/" ++ pv.name) none
    elim deleted.0.err [ some e ↦ pure tt | none ↦ release_glusterfs pv.glusterfs ]

  unfoldable pub release : Str → M W (Unit {0})
  unfolding new_openshift_rest
  release pv_name = do
    got ←
        k_get T (new_openshift_rest the_oc none) (codes "/persistentvolumes/" ++ pv_name)
          (some S.unmarshal_volume)
    elim got.0.err [ some e ↦ pure tt | none ↦ release_volume (or_zero empty_volume got.1) ]

module _ {W : Type 0} (B : Backend W) where
  abbrev stop : GoError → ℕ → M W VolumeReply
  stop e code = pure (proxy (resp_error B e code))

  abbrev pub stop_or : {A : Type 0} → ℕ → (A → M W VolumeReply) → Result A → M W VolumeReply
  stop_or code next (ok a) = next a
  stop_or code next (err e) = stop e code

  abbrev pub with_param : {A : Type 0} → Param A → (A → M W VolumeReply) → M W VolumeReply
  with_param (given a) next = next a
  with_param (bad e) next = stop (param_error e) 400

  -- `valid, msg := NameIsDNSLabel(pvcname, false)`
  abbrev pub with_label : Option (Option Reason) → M W VolumeReply → M W VolumeReply
  with_label none next = panic
  with_label (some (some reason)) next = stop (plain (codes "must be a DNS label")) 400
  with_label (some none) next = next

-- A goroutine's work is run behind the answer, which does not depend on it. `int64_of` is the
-- conversion of a number of the body, a float64, to int64; `none` for what is no number.
module _ {W : Type 0} (B : Backend W) (T : Transport W) (S : Storage W) (V : Words)
    (int64_of : Json → Option ℤ) (the_oc : OpenshiftClient W) where
  -- The rest of CreateVolume, behind its checks.
  unfoldable pub post_claim : VolumeRequest → Str → Str → ℤ → M W VolumeReply
  unfolding new_openshift_rest new_openshift_client input_pvc
  post_claim r namespace pvcname size = do
    posted ←
        k_post T (user_rest T S the_oc r)
          (codes "/namespaces/" ++ (namespace ++ codes "/persistentvolumeclaims"))
          (some (S.marshal_claim (input_pvc pvcname (int64_mul size gi)))) (some S.unmarshal_claim)
    elim posted.0.err [
      | some e ↦ pure nothing
      | none ↦ pure (created (or_zero empty_claim posted.1))
    ]

  unfoldable pub start_volume : VolumeRequest → Str → Str → Str → ℤ → List Str → M W VolumeReply
  start_volume r username namespace pvcname size clusters = do
    reply ← post_claim r namespace pvcname size
    done ← provision T S the_oc r username namespace pvcname size clusters
    pure reply

  unfoldable pub create_checked : VolumeRequest → Str → Str → Str → ℤ → M W VolumeReply
  create_checked r username namespace pvcname size = do
    tried ← attempt (run S.cluster_list)
    listed ← attempt (run S.cluster_list)
    stop_or B 500 (start_volume r username namespace pvcname size) listed

  unfoldable pub create_sized : VolumeRequest → Str → Str → Map → ℤ → M W VolumeReply
  create_sized r username namespace m size =
      if size_is_invalid size
      then stop B invalid_volumn_size 400
      else with_param B (must_string_param_in_map V m (codes "name") string_param_type_url_word)
          (λ pvcname.
            with_label B (name_is_dns_label pvcname false)
              (create_checked r username namespace pvcname size))

  unfoldable pub create_volume : VolumeRequest → M W VolumeReply
  create_volume r = do
    known ← attempt (authed_identities B r.auth)
    stop_or B 401
        (λ username.
          with_param B
            (must_string_param V (codes "namespace") (r.params (codes "namespace"))
              string_param_type_url_word)
            (λ namespace.
              stop_or B 400
                (λ m.
                  with_param B (must_int_param_in_map int64_of m (codes "size"))
                    (create_sized r username namespace m))
                r.body))
        known

  unfoldable pub delete_claim : VolumeRequest → Str → Str → M W VolumeReply
  unfolding new_openshift_rest new_openshift_client
  delete_claim r namespace pvcname = do
    deleted ← k_delete {A = Unit {0}} T (user_rest T S the_oc r) (claim_uri namespace pvcname) none
    elim deleted.0.err [
      | some e ↦ stop B e 400
      | none ↦ (do
        done ← release T S the_oc (pvc_name2pv_name namespace pvcname)
        pure (proxy (resp_ok_nil B)))
    ]

  unfoldable pub delete_volume : VolumeRequest → M W VolumeReply
  delete_volume r = do
    known ← attempt (authed_identities B r.auth)
    stop_or B 401
        (λ username.
          with_param B
            (must_string_param V (codes "namespace") (r.params (codes "namespace"))
              string_param_type_url_word)
            (λ namespace.
              with_param B
                (must_string_param V (codes "name") (r.params (codes "name"))
                  string_param_type_url_word)
                (λ pvcname.
                  with_label B (name_is_dns_label pvcname false)
                    (delete_claim r namespace pvcname))))
        known
