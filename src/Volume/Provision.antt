-- ===== src/Volume/Provision.antt =====
-- volume.go: what the goroutine of CreateVolume leaves behind in Heketi.
use datafoundry_proxy.Base.{
  ◌≡◌, refl, sym, ◌∙◌, subst, Bool, true, false, List, Option, none, some, Str, str_eq, str_eq_iff,
  ap, if◌then◌else◌, arith,
}
use datafoundry_proxy.Base.Int.{ℤ, int64_mul}
use datafoundry_proxy.Errors.{GoError}
use datafoundry_proxy.Effect.{Result, ok, err, returns, run, attempt}
use datafoundry_proxy.Effect.Total.{Total, From, Total-pure, Total-attempt, Total-bind, Total-From}
use datafoundry_proxy.Openshift.{
  OpenshiftClient, OpenshiftRest, RestRequest, Transport, Reply, k_get, k_put,
}
use datafoundry_proxy.Openshift.Keeps.{k_get-keeps, k_put-keeps, k_post-keeps}
use datafoundry_proxy.Volume.Handlers.{
  Storage, VolumeRequest, PersistentVolume, VolumeCreateRequest, claim_uri, input_pv,
  create_request, gi, clean_up, update_claim, post_volume, after_post, after_create, provision,
  put_claim,
}

-- What is relied on, where `has w id` says whether Heketi has a volume of that id: a volume that is
-- reported has a new id, and is added; a deletion that is reported has been done; and requests to
-- OpenShift do not reach Heketi. The client of Heketi posts a request and then polls for its end, so
-- that with an error what was asked for may or may not have been done: a call that reports an error of
-- creating may have added volumes, and deletes none; one that reports an error of deleting leaves all
-- other volumes.
pub record StorageLaws {W : Type 0} (T : Transport W) (S : Storage W) (has : W → Str → Bool)
    : Type 0 where
  pub http_keeps : (q : RestRequest) (w : W) (k : Str) → has (T.http_do q w).1 k ≡ has w k
  pub create_fresh :
      (q : VolumeCreateRequest) (w : W) (id : Str)
      → (S.volume_create q w).0 ≡ ok id
      → has w id ≡ false
  pub create_ok :
      (q : VolumeCreateRequest) (w : W) (id k : Str)
      → (S.volume_create q w).0 ≡ ok id
      → has (S.volume_create q w).1 k ≡ (if str_eq k id then true else has w k)
  pub create_err :
      (q : VolumeCreateRequest) (w : W) (e : GoError) (k : Str)
      → (S.volume_create q w).0 ≡ err e
      → has w k ≡ true
      → has (S.volume_create q w).1 k ≡ true
  pub delete_ok :
      (id k : Str) (w : W)
      → (S.volume_delete id w).0 ≡ ok tt
      → has (S.volume_delete id w).1 k ≡ (if str_eq k id then false else has w k)
  pub delete_err :
      (id k : Str) (w : W) (e : GoError)
      → (S.volume_delete id w).0 ≡ err e
      → str_eq k id ≡ false
      → has (S.volume_delete id w).1 k ≡ has w k

module _ {W : Type 0} (has : W → Str → Bool) where
  -- Heketi has the volumes that it had, and those and a new one.
  abbrev pub Same : W → W → Type 0
  Same w w' = (k : Str) → has w' k ≡ has w k

  abbrev pub Added : Str → W → W → Type 0
  Added id w w' =
      (has w id ≡ false) × ((k : Str) → has w' k ≡ (if str_eq k id then true else has w k))

  -- Heketi has all volumes that it had.
  abbrev pub Extends : W → W → Type 0
  Extends w w' = (k : Str) → has w k ≡ true → has w' k ≡ true

-- How the goroutine may end.
module _ {W : Type 0} (T : Transport W) (S : Storage W) (has : W → Str → Bool)
    (the_oc : OpenshiftClient W) where
  -- The request for a volume was answered with an error, and nothing else was done; or the pv of the
  -- new volume was not accepted, and the volume has been deleted again; or it was accepted; or it was
  -- not, and the deletion of the volume was answered with an error.
  pub data Provisioned (req : VolumeCreateRequest) (pv_of : Str → PersistentVolume) (w w' : W)
      : Type 0 where
    unreported :
        (e : GoError)
        → Extends has w w'
        → S.volume_create req w ≡ (err e, w')
        → Provisioned req pv_of w w'
    cleaned_up :
        (id : Str) (osr : OpenshiftRest W) (v : Option PersistentVolume) (w1 : W) (e : GoError)
        → Same has w w'
        → osr.err ≡ some e
        → From (post_volume T S the_oc (pv_of id)) (osr, v) w1
        → Provisioned req pv_of w w'
    recorded :
        (id : Str) (osr : OpenshiftRest W) (v : Option PersistentVolume) (w1 : W)
        → Added has id w w'
        → osr.err ≡ none
        → From (post_volume T S the_oc (pv_of id)) (osr, v) w1
        → Provisioned req pv_of w w'
    left_over :
        (id : Str) (e : GoError) (w1 : W)
        → has w id ≡ false
        → ((k : Str) → str_eq k id ≡ false → has w' k ≡ has w k)
        → S.volume_delete id w1 ≡ (err e, w')
        → Provisioned req pv_of w w'

  module _ (L : StorageLaws T S has) where
    http_Added :
        (id : Str) (w : W) (q : RestRequest) (v : W)
        → Added has id w v
        → Added has id w (T.http_do q v).1
    http_Added id w q v (fresh, h) = (fresh, λ k. L.http_keeps q v k ∙ h k)

    put_claim-keeps :
        (username namespace pvcname id : Str) (w : W) (got : Reply W _) (e : Option GoError)
        → Total
            (Added has id w)
            (put_claim T S the_oc username namespace pvcname id got e)
            (λ _ w'. Added has id w w')
    put_claim-keeps username namespace pvcname id w got (some e) = Total-pure tt (λ w p. p)
    put_claim-keeps username namespace pvcname id w got none =
        Total-bind (λ _ w'. Added has id w w') (k_put T got.0 _ _ none) _
          (k_put-keeps T (http_Added id w) _ _ _ _) (λ a. Total-pure tt (λ w p. p))

    update_claim-keeps :
        (r : VolumeRequest) (username namespace pvcname id : Str) (w : W)
        → Total
            (Added has id w)
            (update_claim T S the_oc r username namespace pvcname id)
            (λ _ w'. Added has id w w')
    unfolding update_claim
    update_claim-keeps r username namespace pvcname id w =
        Total-bind (λ _ w'. Added has id w w')
          (k_get T _ (claim_uri namespace pvcname) (some S.unmarshal_claim)) _
          (k_get-keeps T (http_Added id w) _ _ _)
          (λ got. put_claim-keeps username namespace pvcname id w got got.0.err)

    -- A volume that has been added and deleted.
    deleted-Same :
        (id : Str) (w v : W) (k : Str)
        → Added has id w v
        → (S.volume_delete id v).0 ≡ ok tt
        → has (S.volume_delete id v).1 k ≡ has w k
    deleted-Same id w v k (fresh, h) e =
        L.delete_ok id k v e ∙ ground (arith, h k, fresh, str_eq_iff k id)

    clean_up-Provisioned :
        (req : VolumeCreateRequest) (pv_of : Str → PersistentVolume) (id : Str) (w w1 : W)
        (osr : OpenshiftRest W) (v : Option PersistentVolume)
        → From (post_volume T S the_oc (pv_of id)) (osr, v) w1
        → (x : GoError) → osr.err ≡ some x
        → Total (Added has id w) (clean_up T S the_oc id) (λ _ w'. Provisioned req pv_of w w')
    unfolding clean_up
    clean_up-Provisioned req pv_of id w w1 osr v from x refused =
        Total-bind (λ _ w'. Provisioned req pv_of w w') (attempt (run (S.volume_delete id))) _
          (Total-attempt (λ _ w'. Provisioned req pv_of w w') (S.volume_delete id)
            (λ u added. settled u added (S.volume_delete id u) refl))
          (λ done. Total-pure tt (λ w p. p))
      where
        settled :
            (u : W)
            → Added has id w u
            → (r : Result (Unit {0}) × W) → S.volume_delete id u ≡ r
            → Provisioned req pv_of w r.1
        settled u added (ok t, w') e =
            cleaned_up id osr v w1 x
              (λ k. rw (sym (ap (λ r. r.1) e)) (deleted-Same id w u k added (ap (λ r. r.0) e)))
              refused from
        settled u added (err y, w') e =
            left_over id y u added.0
              (λ k other.
                rw (sym (ap (λ r. r.1) e))
                  (L.delete_err id k u y (ap (λ r. r.0) e) other ∙ added_other k other (added.1 k)))
              e
          where
            added_other :
                (k : Str)
                → str_eq k id ≡ false
                → has u k ≡ (if str_eq k id then true else has w k)
                → has u k ≡ has w k
            added_other k other h = rw other at h

    post_volume-keeps :
        (pv : PersistentVolume) (id : Str) (w : W)
        → Total (Added has id w) (post_volume T S the_oc pv) (λ _ w'. Added has id w w')
    unfolding post_volume
    post_volume-keeps pv id w = k_post-keeps T (http_Added id w) _ _ _ _

    after_post-Provisioned :
        (r : VolumeRequest) (username namespace pvcname id : Str) (req : VolumeCreateRequest)
        (pv_of : Str → PersistentVolume) (w w1 : W) (osr : OpenshiftRest W)
        (v : Option PersistentVolume)
        → From (post_volume T S the_oc (pv_of id)) (osr, v) w1
        → (e : Option GoError) → osr.err ≡ e
        → Total
            (Added has id w)
            (after_post T S the_oc r username namespace pvcname id e)
            (λ _ w'. Provisioned req pv_of w w')
    after_post-Provisioned r username namespace pvcname id req pv_of w w1 osr v from (some x) e =
        clean_up-Provisioned req pv_of id w w1 osr v from x e
    after_post-Provisioned r username namespace pvcname id req pv_of w w1 osr v from none e =
        record {
          at = λ w2 added.
              let (a, w3, run, kept) =
                (update_claim-keeps r username namespace pvcname id w).at w2 added in
              (a, w3, run, recorded id osr v w1 kept e from);
        }

    CreatedAs : VolumeCreateRequest → Result Str → W → W → Type 0
    CreatedAs req (ok id) w w1 = Added has id w w1
    CreatedAs req (err e) w w1 = Extends has w w1 × (S.volume_create req w ≡ (err e, w1))

    after_create-Provisioned :
        (r : VolumeRequest) (username namespace pvcname : Str) (storage : ℤ)
        (req : VolumeCreateRequest) (w : W) (made : Result Str)
        → Total
            (CreatedAs req made w)
            (after_create T S the_oc r username namespace pvcname storage made)
            (λ _ w'.
              Provisioned req
                (input_pv S.gluster_endpoints_name username namespace pvcname storage)
                w
                w')
    unfolding CreatedAs
    after_create-Provisioned r username namespace pvcname storage req w (err e) =
        Total-pure tt (λ w1 (more, e'). unreported e more e')
    after_create-Provisioned r username namespace pvcname storage req w (ok id) =
        let pv_of = input_pv S.gluster_endpoints_name username namespace pvcname storage in
        Total-bind
          (λ posted w1. Added has id w w1 × From (post_volume T S the_oc (pv_of id)) posted w1)
          (post_volume T S the_oc (pv_of id)) _ (Total-From _ (post_volume-keeps (pv_of id) id w))
          (λ posted. record {
            at = λ w1 (added, from).
                (after_post-Provisioned r username namespace pvcname id req pv_of w w1 posted.0
                    posted.1 from posted.0.err refl).at
                  w1 added;
          })

    -- The goroutine of CreateVolume always ends, from any state and whatever the servers reply, in one of
    -- four ways. Heketi answered the request for a volume with an error, which was the last call; it
    -- still has all volumes that it had. Or it made a volume with a new id, and then the OpenShift server
    -- accepted the persistent volume that names it, and Heketi has just the volumes that it had and the
    -- new one; or the server did not accept it, and Heketi has just the volumes that it had; or the last
    -- call was to delete the new volume, which Heketi answered with an error, and all other volumes are as
    -- they were.
    pub provision-Provisioned :
        (r : VolumeRequest) (username namespace pvcname : Str) (size : ℤ) (clusters : List Str)
        (w : W)
        → (w' : W) × (provision T S the_oc r username namespace pvcname size clusters w
            ≡ (returns tt, w'))
          × Provisioned
              (create_request size clusters)
              (input_pv S.gluster_endpoints_name username namespace pvcname (int64_mul size gi))
              w
              w'
    unfolding provision CreatedAs
    provision-Provisioned r username namespace pvcname size clusters w =
        let (a, w', e, q) =
          (Total-bind {P = λ v. v ≡ w}
              (λ made w1. CreatedAs (create_request size clusters) made w w1)
              (attempt (run (S.volume_create (create_request size clusters)))) _
              (Total-attempt _ (S.volume_create (create_request size clusters))
                (λ v at_w. made v at_w (S.volume_create (create_request size clusters) v) refl))
              (λ made.
                after_create-Provisioned r username namespace pvcname (int64_mul size gi)
                  (create_request size clusters) w made)).at
            w refl in
        (w', e, q)
      where
        made :
            (v : W)
            → v ≡ w
            → (reply : Result Str × W) → S.volume_create (create_request size clusters) v ≡ reply
            → CreatedAs (create_request size clusters) reply.0 w reply.1
        made v at_w (ok id, w1) e = (
          subst (λ x. has x id ≡ false) at_w (L.create_fresh _ v id (ap (λ x. x.0) e)),
          λ k.
              subst (λ x. has w1 k ≡ (if str_eq k id then true else has x k)) at_w
                (rw (sym (ap (λ x. x.1) e)) (L.create_ok _ v id k (ap (λ x. x.0) e))),
        )
        made v at_w (err x, w1) e = (
          λ k there. rw (sym (ap (λ x. x.1) e)) (
              L.create_err _ v x k (ap (λ x. x.0) e)
                (subst (λ x. has x k ≡ true) (sym at_w) there)),
          subst (λ u. S.volume_create (create_request size clusters) u ≡ (err x, w1)) at_w e,
        )
