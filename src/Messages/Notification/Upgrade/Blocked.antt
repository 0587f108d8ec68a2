-- ===== src/Messages/Notification/Upgrade/Blocked.antt =====
-- An upgrade that fails leaves its phase in the database, and no later one gets past it.
use datafoundry_proxy.Base.{◌≡◌, refl, sym, ap, ◌∙◌, true, false, some, Str, str_eq_refl}
use datafoundry_proxy.Base.Int.{ℤ, pos, leb_ℤ, eq_ℤ, eq_ℤ_iff}
use datafoundry_proxy.Errors.{GoError}
use datafoundry_proxy.Effect.{err, returns, fails, ◌>>=◌}
use datafoundry_proxy.Database.{Database}
use datafoundry_proxy.Statistics.Table.{old_not_match, set_stat_if}
use datafoundry_proxy.Statistics.Table.Laws.{Stats, put, Laws}
use datafoundry_proxy.Database.Transactions.{View}
use datafoundry_proxy.Statistics.Table.Transactions.{reply_to}
use datafoundry_proxy.Statistics.Table.Healthy.{
  value_of, table_after, update_or_set_stat-Gives, retrieve_stat-Gives,
}
use datafoundry_proxy.Messages.Notification.Upgrade.{
  Upgrader, Server, db_phase_serving, db_phase_upgrading, old_stat_not_match, run_upgrader,
  upgrade_database, at_least_version_1,
}
use datafoundry_proxy.Messages.Notification.Upgrade.Steps.{
  version_key, phase_key, version_phase, AtRest, positive_version, set_stat_if-Gives,
}

module _ {W : Type 0} (D : Database W) (V : View W Stats) (L : Laws ⊥ D V) (db_name : Str) where
  -- The phase of an upgrade at work, or of one that failed, is not taken.
  phase_taken :
      (w : W) (t : Stats)
      → t (phase_key db_name) ≡ some db_phase_upgrading
      → V.committed w ≡ t
      → (w' : W) × (set_stat_if D (phase_key db_name) db_phase_upgrading db_phase_serving w
          ≡ (returns (old_not_match db_phase_upgrading), w'))
        × (V.committed w' ≡ t)
  unfolding set_stat_if eq_ℤ
  phase_taken w t taken e =
      let reply = ap (reply_to db_phase_upgrading db_phase_serving false) taken in
      let (w', ran, after) =
        update_or_set_stat-Gives D V L (phase_key db_name) db_phase_upgrading db_phase_serving false
          w t e in
      (
        w',
        ran ∙ ap (λ r. (returns r, w')) reply,
        after ∙ ap (λ r. table_after (phase_key db_name) r t) reply,
      )

  module _ (u : Upgrader W) {v : ℤ} (newer : leb_ℤ u.new_version v ≡ false)
      (old : u.old_version ≡ v) (positive : leb_ℤ (pos 1) v ≡ true) (s : Server W) (t : Stats)
      (e : V.committed s.world ≡ t) (here : value_of (t (version_key db_name)) ≡ v) where
    upgrade_database-blocked :
        t (phase_key db_name) ≡ some db_phase_upgrading
        → (s' : Server W) × (upgrade_database D db_name u s ≡ (fails old_stat_not_match, s'))
          × (V.committed s'.world ≡ t)
    unfolding upgrade_database run_upgrader ◌>>=◌
    upgrade_database-blocked taken =
        let (w1, read, e1) = retrieve_stat-Gives D V L (version_key db_name) s.world t e in
        let version = ap at_least_version_1 here ∙ (positive_version v positive).1 in
        let (w2, refused, e2) = phase_taken w1 t taken e1 in
        (
          record s { world = w2 },
          rw (read, version, newer, (eq_ℤ_iff u.old_version v).1 old, refused) refl,
          e2,
        )

    upgrade_database-failed :
        {x : GoError}
        → ((w : W) → (w' : W) × (u.upgrade w ≡ (err x, w')) × (V.committed w' ≡ V.committed w))
        → value_of (t (phase_key db_name)) ≡ db_phase_serving
        → (s' : Server W) × (upgrade_database D db_name u s ≡ (fails x, s'))
          × (V.committed s'.world ≡ put (phase_key db_name) db_phase_upgrading t)
    unfolding upgrade_database run_upgrader ◌>>=◌
    upgrade_database-failed fault rest =
        let (w1, read, e1) = retrieve_stat-Gives D V L (version_key db_name) s.world t e in
        let version = ap at_least_version_1 here ∙ (positive_version v positive).1 in
        let (w2, entered, e2) =
          set_stat_if-Gives D V L db_name (phase_key db_name) db_phase_upgrading db_phase_serving w1
            t refl rest e1 in
        let (w3, ran, e3) = fault w2 in
        (
          record { world = w3; db_phase = db_phase_upgrading },
          rw (read, version, newer, (eq_ℤ_iff u.old_version v).1 old, entered, ran) refl,
          e3 ∙ e2,
        )

-- On a database that never fails: where the upgrader's own Upgrade fails with an error, the tables
-- being of the version that it upgrades and with no upgrade at work, _upgradeDatabase returns that
-- error; and each later upgrader `u'` of the same versions, whether it would succeed or not, is
-- refused with ErrOldStatNotMatch, and leaves the stored version and phase as they are.
pub upgrade_failed-blocks :
    {W : Type 0} (D : Database W) (V : View W Stats) (L : Laws ⊥ D V) (db_name : Str)
    (u u' : Upgrader W) (s : Server W) {v : ℤ} {x : GoError}
    → leb_ℤ (pos 1) v ≡ true
    → leb_ℤ u.new_version v ≡ false
    → u.old_version ≡ v
    → (u'.new_version ≡ u.new_version) × (u'.old_version ≡ u.old_version)
    → AtRest db_name v (V.committed s.world)
    → ((w : W) → (w' : W) × (u.upgrade w ≡ (err x, w')) × (V.committed w' ≡ V.committed w))
    → (s1 : Server W) × (s2 : Server W) × (upgrade_database D db_name u s ≡ (fails x, s1))
      × (upgrade_database D db_name u' s1 ≡ (fails old_stat_not_match, s2))
      × (V.committed s2.world ≡ V.committed s1.world)
upgrade_failed-blocks D V L db_name u u' s {v} positive newer old same rest fault =
    let t = V.committed s.world in
    let (s1, ran, e1) =
      upgrade_database-failed D V L db_name u newer old positive s t refl rest.0 fault rest.1 in
    let (s2, refused, e2) =
      upgrade_database-blocked D V L db_name u' (ap (λ n. leb_ℤ n v) same.0 ∙ newer) (same.1 ∙ old)
        positive s1 (put (phase_key db_name) db_phase_upgrading t) e1
        (rw (version_phase db_name) rest.0) (rw str_eq_refl refl) in
    (s1, s2, ran, refused, e2 ∙ sym e1)
