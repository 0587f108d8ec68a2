-- ===== src/Volume/Release.antt =====
-- volume.go: what the goroutine of DeleteVolume deletes.
use datafoundry_proxy.Base.{
  ◌≡◌, refl, sym, ◌∙◌, ap, Bool, false, ◌++◌, Option, none, some, Str, codes, str_eq, if◌then◌else◌,
}
use datafoundry_proxy.Effect.{ok, returns, run, ◌>>=◌}
use datafoundry_proxy.Effect.Total.{bind-eq}
use datafoundry_proxy.Openshift.{
  OpenshiftClient, OpenshiftRest, Transport, new_openshift_rest, k_get, k_delete,
}
use datafoundry_proxy.Openshift.Keeps.{k_get-keeps, k_delete-keeps}
use datafoundry_proxy.Volume.{volume_id2volume_name}
use datafoundry_proxy.Volume.Names.{volume_id2volume_name_iff}
use datafoundry_proxy.Volume.Handlers.{
  Storage, PersistentVolume, GlusterfsVolumeSource, release_glusterfs, release_volume, release,
}
use datafoundry_proxy.Volume.Provision.{StorageLaws, Same}

module _ {W : Type 0} (T : Transport W) (S : Storage W) (the_oc : OpenshiftClient W) where
  -- The volume's id is read back from the path of the persistent volume.
  release_glusterfs-deletes :
      (source : GlusterfsVolumeSource) (id : Str) (w w' : W)
      → source.path ≡ volume_id2volume_name id
      → S.volume_delete id w ≡ (ok tt, w')
      → release_glusterfs T S the_oc (some source) w ≡ (returns tt, w')
  unfolding release_glusterfs ◌>>=◌
  release_glusterfs-deletes source id w w' path deleted =
      rw (((volume_id2volume_name_iff id source.path).0 (sym path)).1, deleted) refl

  release_volume-eq :
      (pv : PersistentVolume) (o : OpenshiftRest W) (v : Option (Unit {0})) (w w' : W)
      → k_delete {A = Unit {0}} T
          (new_openshift_rest the_oc none)
          (codes "/persistentvolumes/" ++ pv.name)
          none
          w
        ≡ (returns (o, v), w')
      → o.err ≡ none
      → release_volume T S the_oc pv w ≡ release_glusterfs T S the_oc pv.glusterfs w'
  unfolding release_volume
  release_volume-eq pv o v w w' run fine = bind-eq _ _ run ∙ rw fine refl

  release-eq :
      (pv_name : Str) (o : OpenshiftRest W) (pv : PersistentVolume) (w w' : W)
      → k_get T
          (new_openshift_rest the_oc none)
          (codes "/persistentvolumes/" ++ pv_name)
          (some S.unmarshal_volume)
          w
        ≡ (returns (o, some pv), w')
      → o.err ≡ none
      → release T S the_oc pv_name w ≡ release_volume T S the_oc pv w'
  unfolding release
  release-eq pv_name o pv w w' run fine = bind-eq _ _ run ∙ rw fine refl

  -- Where the OpenShift server has the persistent volume of the name, with the path that CreateVolume
  -- writes for the volume `id`, and deletes it, and Heketi deletes the volume `id`, the goroutine of
  -- DeleteVolume ends with these three calls: then Heketi has the volumes that it had, less that one.
  pub release-deletes :
      (has : W → Str → Bool)
      → StorageLaws T S has
      → (pv_name id : Str) (pv : PersistentVolume) (source : GlusterfsVolumeSource)
        (o o' : OpenshiftRest W) (v : Option (Unit {0})) (w w1 w2 w3 : W)
      → k_get T
          (new_openshift_rest the_oc none)
          (codes "/persistentvolumes/" ++ pv_name)
          (some S.unmarshal_volume)
          w
        ≡ (returns (o, some pv), w1)
      → o.err ≡ none
      → pv.glusterfs ≡ some source
      → source.path ≡ volume_id2volume_name id
      → k_delete {A = Unit {0}} T
          (new_openshift_rest the_oc none)
          (codes "/persistentvolumes/" ++ pv.name)
          none
          w1
        ≡ (returns (o', v), w2)
      → o'.err ≡ none
      → S.volume_delete id w2 ≡ (ok tt, w3)
      → (release T S the_oc pv_name w ≡ (returns tt, w3))
        × ((k : Str) → has w3 k ≡ (if str_eq k id then false else has w k))
  release-deletes has L pv_name id pv source o o' v w w1 w2 w3 got fine gluster path dropped fine'
        deleted =
      (
        release-eq pv_name o pv w w1 got fine
            ∙ (release_volume-eq pv o' v w1 w2 dropped fine'
                ∙ (ap (λ g. release_glusterfs T S the_oc g w2) gluster
                    ∙ release_glusterfs-deletes source id w2 w3 path deleted)),
        λ k.
            rw
              (
                sym (ap (λ r. r.1) deleted),
                L.delete_ok id k w2 (ap (λ r. r.0) deleted),
                kept2 k ∙ kept1 k,
              )
              refl,
      )
    where
      kept : (x y : W) → Same has w x → Same has x y → Same has w y
      kept x y f g k = g k ∙ f k

      kept1 : Same has w w1
      kept1 k =
          let (a, w', e, same) =
            (k_get-keeps T {P = λ x. has x k ≡ has w k} (λ q x h. L.http_keeps q x k ∙ h) _ _ _).at
              w refl in
          ap (λ r. has r.1 k) (sym got ∙ e) ∙ same

      kept2 : Same has w1 w2
      kept2 k =
          let (a, w', e, same) =
            (k_delete-keeps T {P = λ x. has x k ≡ has w1 k} (λ q x h. L.http_keeps q x k ∙ h) _ _
                _).at
              w1 refl in
          ap (λ r. has r.1 k) (sym dropped ∙ e) ∙ same
