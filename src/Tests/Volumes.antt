-- ===== src/Tests/Volumes.antt =====
-- Volumes: a Heketi server that is a list of ids, and the theorems on volumes applied.
use datafoundry_proxy.Base.{
  ℕ, ◌*◌, ◌≤◌, ◌≡◌, refl, ap, List, [], ◌∷◌, Option, none, some, Str, str_eq, str_eq_iff, codes,
  Bool, true, false, arith, if◌then◌else◌,
}
use datafoundry_proxy.Base.Int.{ℤ, pos, int64_mul}
use datafoundry_proxy.Errors.{GoError, plain}
use datafoundry_proxy.Effect.{Result, ok, err, returns, ◌>>=◌}
use datafoundry_proxy.Json.{Json, num}
use datafoundry_proxy.Json.Codec.{text}
use datafoundry_proxy.Http.{http_get}
use datafoundry_proxy.Auth.{authed_identities, get_df_userame}
use datafoundry_proxy.Handlers.{resp_error}
use datafoundry_proxy.Messages.Params.Must.{
  Words, Map, given, must_string_param, must_int_param_in_map,
}
use datafoundry_proxy.Openshift.{
  OpenshiftClient, OpenshiftRest, Transport, new_openshift_rest, request, do_send, do_request,
  k_get, k_delete,
}
use datafoundry_proxy.Volume.{volume_id2volume_name}
use datafoundry_proxy.Volume.Handlers.{
  create_request, Storage, VolumeRequest, PersistentVolume, GlusterfsVolumeSource, empty_claim,
  empty_volume, gi, input_pv, proxy, invalid_volumn_size, provision, release, create_volume,
}
use datafoundry_proxy.Volume.Provision.{StorageLaws, Provisioned, provision-Provisioned}
use datafoundry_proxy.Volume.Release.{release-deletes}
use datafoundry_proxy.Volume.Sizes.{create_volume-size}
use datafoundry_proxy.Tests.World.{World, small_backend}
use datafoundry_proxy.Tests.Samples.{world0, request as request_of, org_body}

-- The ids of the volumes.
abbrev Cellar : Type 0
Cellar = List Str

abbrev holds : Cellar → Str → Bool
holds [] k = false
holds (a ∷ l) k = if str_eq k a then true else holds l k

abbrev without : Str → Cellar → Cellar
without id [] = []
without id (a ∷ l) = if str_eq id a then without id l else a ∷ without id l

abbrev first_id : Str
first_id = codes "68aa"

-- It makes one volume.
abbrev made_when : Bool → Cellar → Result Str × Cellar
made_when true w = (err (plain (codes "no space")), w)
made_when false w = (ok first_id, first_id ∷ w)

abbrev gluster_source : GlusterfsVolumeSource
gluster_source = record { endpoints_name = codes "glusterfs"; path = codes "vol_68aa" }

abbrev stored_pv : PersistentVolume
stored_pv = record empty_volume { name = codes "ns-data"; glusterfs = some gluster_source }

abbrev cellar_storage : Storage Cellar
cellar_storage = record {
  cluster_list = λ w. (ok (codes "c1" ∷ []), w);
  volume_create = λ q w. made_when (holds w first_id) w;
  volume_delete = λ id w. (ok tt, without id w);
  gluster_endpoints_name = codes "glusterfs";
  marshal_volume = λ pv. ok (text pv.name);
  marshal_claim = λ c. ok (text c.name);
  unmarshal_volume = λ v. ok stored_pv;
  unmarshal_claim = λ v. ok empty_claim;
}

abbrev agreeing : {W : Type 0} → Transport W
agreeing = record {
  http_do = λ q w. (ok (record { status_code = 200; body = ok (text []) }), w);
  url_is_valid = λ url. true;
  text_of = λ v. [];
  read_status = λ v. (0, []);
  delete_options = ok (text []);
}

abbrev admin : {W : Type 0} → OpenshiftClient W
admin = record {
  host = codes "https://df";
  oapi_url = codes "https://df/oapi/v1";
  kapi_url = codes "https://df/api/v1";
  bearer_token = λ w. codes "Bearer admin";
}

holds-without :
    (id k : Str) (w : Cellar) → holds (without id w) k ≡ (if str_eq k id then false else holds w k)
holds-without id k [] = ground arith
holds-without id k (a ∷ l) =
    ground (arith, holds-without id k l, str_eq_iff id a, str_eq_iff k a, str_eq_iff k id)

made-fresh :
    (w : Cellar) (id : Str) (b : Bool)
    → holds w first_id ≡ b
    → (made_when b w).0 ≡ ok id
    → holds w id ≡ false
made-fresh w id true h e = cc
made-fresh w id false h e = cc

made-holds :
    (w : Cellar) (id k : Str) (b : Bool)
    → (made_when b w).0 ≡ ok id
    → holds (made_when b w).1 k ≡ (if str_eq k id then true else holds w k)
made-holds w id k true e = cc
made-holds w id k false e =
    ap {A = Result Str}
      (λ r. if str_eq k (elim r [ ok i ↦ i | err _ ↦ first_id ]) then true else holds w k) e

made-same :
    (w : Cellar) (x : GoError) (k : Str) (b : Bool)
    → (made_when b w).0 ≡ err x
    → holds w k ≡ true
    → holds (made_when b w).1 k ≡ true
made-same w x k true e h = h
made-same w x k false e h = cc

cellar_laws : StorageLaws agreeing cellar_storage holds
cellar_laws = record {
  http_keeps = λ q w k. refl;
  create_fresh = λ q w id e. made-fresh w id (holds w first_id) refl e;
  create_ok = λ q w id k e. made-holds w id k (holds w first_id) e;
  create_err = λ q w x k e h. made-same w x k (holds w first_id) e h;
  delete_ok = λ id k w e. holds-without id k w;
  delete_err = λ id k w x e other. cc;
}

abbrev asked : VolumeRequest
asked = record {
  auth = request_of (codes "POST") (codes "carol") [] (org_body []);
  params = λ k. codes "ns";
  body = ok (λ k. if str_eq k (codes "size") then some (num (pos 15)) else none);
}

provision-Provisioned_example :
    (w' : Cellar) × (provision agreeing cellar_storage admin asked
        (codes "carol")
        (codes "ns")
        (codes "data")
        (pos 20)
        (codes "c1" ∷ [])
        []
      ≡ (returns tt, w'))
    × Provisioned agreeing cellar_storage holds admin
        (create_request (pos 20) (codes "c1" ∷ []))
        (input_pv
          (codes "glusterfs")
          (codes "carol")
          (codes "ns")
          (codes "data")
          (int64_mul (pos 20) gi))
        []
        w'
provision-Provisioned_example =
    provision-Provisioned agreeing cellar_storage holds admin cellar_laws asked (codes "carol")
      (codes "ns") (codes "data") (pos 20) (codes "c1" ∷ []) []

abbrev admin_rest : OpenshiftRest Cellar
admin_rest = record { oc = admin; err = none; status = (0, []) }

got_pv :
    k_get agreeing
      (new_openshift_rest admin none)
      (codes "/persistentvolumes/ns-data")
      (some cellar_storage.unmarshal_volume)
      (first_id ∷ [])
    ≡ (returns (admin_rest, some stored_pv), first_id ∷ [])
unfolding k_get do_request do_send request new_openshift_rest ◌>>=◌
got_pv = refl

dropped_pv :
    k_delete {A = Unit {0}} agreeing
      (new_openshift_rest admin none)
      (codes "/persistentvolumes/ns-data")
      none
      (first_id ∷ [])
    ≡ (returns (admin_rest, none), first_id ∷ [])
unfolding k_delete do_request do_send request new_openshift_rest ◌>>=◌
dropped_pv = refl

path_of_first : gluster_source.path ≡ volume_id2volume_name first_id
unfolding volume_id2volume_name
path_of_first = refl

deleted_first :
    ◌≡◌ {A = Result (Unit {0}) × Cellar}
      (cellar_storage.volume_delete first_id (first_id ∷ []))
      (ok tt, [])
unfolding str_eq
deleted_first = refl

release-deletes_example :
    (release agreeing cellar_storage admin (codes "ns-data") (first_id ∷ []) ≡ (returns tt, []))
    × ((k : Str) → holds [] k ≡ (if str_eq k first_id then false else holds (first_id ∷ []) k))
release-deletes_example =
    release-deletes agreeing cellar_storage admin holds cellar_laws (codes "ns-data") first_id
      stored_pv gluster_source admin_rest admin_rest none (first_id ∷ []) (first_id ∷ [])
      (first_id ∷ []) [] got_pv refl refl path_of_first dropped_pv refl deleted_first

-- No Heketi server.
abbrev no_heketi : Storage World
no_heketi = record {
  cluster_list = λ w. (err (plain []), w);
  volume_create = λ q w. (err (plain []), w);
  volume_delete = λ id w. (err (plain []), w);
  gluster_endpoints_name = [];
  marshal_volume = λ pv. err (plain []);
  marshal_claim = λ c. err (plain []);
  unmarshal_volume = λ v. err (plain []);
  unmarshal_claim = λ v. err (plain []);
}

abbrev any_word : Words
any_word = record {
  url_word = λ s. some s;
  unicode_url_word = λ s. some s;
  email = λ s. some s;
  general_word = λ s. some s;
}

abbrev integer : Json → Option ℤ
integer (num i) = some i
integer _ = none

abbrev world_asked : World
world_asked = record world0 { requests = 1 }

carol_known :
    authed_identities small_backend asked.auth world0 ≡ (returns (codes "carol"), world_asked)
unfolding authed_identities get_df_userame ◌>>=◌ http_get
carol_known = refl

namespace_given :
    must_string_param any_word (codes "namespace") (asked.params (codes "namespace")) 1
    ≡ given (codes "ns")
unfolding must_string_param
namespace_given = refl

abbrev size_15 : Map
size_15 k = if str_eq k (codes "size") then some (num (pos 15)) else none

size_given : must_int_param_in_map integer size_15 (codes "size") ≡ given (pos 15)
unfolding must_int_param_in_map str_eq
size_given = refl

not_ten : ¬ ((t : ℕ) × (1 ≤ t) × (t ≤ 20) × (pos 15 ≡ pos (10 * t)))
not_ten (t, lo, hi, e) = no (natural e)
  where
    natural : pos 15 ≡ pos (10 * t) → 15 ≡ 10 * t
    natural e = cc

    no : 15 ≡ 10 * t → ⊥
    no e = omega arith

create_volume-size_example :
    create_volume small_backend agreeing no_heketi any_word integer admin asked world0
    ≡ (returns (proxy (resp_error small_backend invalid_volumn_size 400)), world_asked)
create_volume-size_example =
    create_volume-size small_backend agreeing no_heketi any_word integer admin asked (codes "carol")
      (codes "ns") size_15 (pos 15) world0 world_asked carol_known namespace_given refl size_given
      not_ten
