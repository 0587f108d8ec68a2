-- ===== src/Messages/Notification/Upgrade/Steps.antt =====
-- What the upgraders do, one after another, on a database that never fails.
use datafoundry_proxy.Base.{
  zero, suc, ◌≡◌, refl, ap, ◌∙◌, Bool, true, false, ◌&&◌, List, [], ◌∷◌, ◌++◌, Option, none, some,
  Str, codes, str_eq, str_eq_refl, if◌then◌else◌, arith,
}
use datafoundry_proxy.Base.Int.{ℤ, pos, negsuc, leb_ℤ, ltb_ℤ, eq_ℤ, eq_ℤ_iff, eq_ℤ_refl}
use datafoundry_proxy.Effect.{ok, Outcome, returns, M, ◌>>=◌}
use datafoundry_proxy.Effect.Total.{bind-eq}
use datafoundry_proxy.Database.{Database}
use datafoundry_proxy.Statistics.{get_version_key, get_phase_key, stat_key, get_general_stat_key}
use datafoundry_proxy.Statistics.Table.{StatReply, stored, old_not_match, set_stat_if}
use datafoundry_proxy.Statistics.Table.Laws.{Stats, put, Laws}
use datafoundry_proxy.Database.Transactions.{View}
use datafoundry_proxy.Statistics.Table.Transactions.{reply_to}
use datafoundry_proxy.Statistics.Table.Healthy.{
  value_of, table_after, update_or_set_stat-Gives, set_stat-Gives, retrieve_stat-Gives,
}
use datafoundry_proxy.Messages.Notification.Upgrade.{
  Upgrader, Server, on_db, db_phase_serving, db_phase_upgrading, run_upgrader, upgrade_database,
  upgrade_all, at_least_version_1,
}

-- The two keys of a database differ.
str_eq-append : (s a b : Str) → str_eq (s ++ a) (s ++ b) ≡ str_eq a b
unfolding str_eq
str_eq-append [] a b = refl
str_eq-append (c ∷ s) a b = ground (arith, str_eq-append s a b)

module _ (db_name : Str) where
  abbrev pub version_key : Str
  version_key = get_version_key (db_name ∷ [])

  abbrev pub phase_key : Str
  phase_key = get_phase_key (db_name ∷ [])

  pub version_phase : str_eq version_key phase_key ≡ false
  unfolding stat_key get_general_stat_key str_eq
  version_phase = str_eq-append db_name (codes "#version") (codes "#phase")

  pub phase_version : str_eq phase_key version_key ≡ false
  unfolding stat_key get_general_stat_key str_eq
  phase_version = str_eq-append db_name (codes "#phase") (codes "#version")

-- The version that the upgraders lead to: one whose new version is not above the current one is
-- passed over, and each other starts from the current version.
pub data Leads {W : Type 0} : ℤ → List (Upgrader W) → ℤ → Type 0 where
  done : (v : ℤ) → Leads v [] v
  pass :
      {v v' : ℤ} {us : List (Upgrader W)} (u : Upgrader W)
      → leb_ℤ u.new_version v ≡ true
      → Leads v us v'
      → Leads v (u ∷ us) v'
  step :
      {v v' : ℤ} {us : List (Upgrader W)} (u : Upgrader W)
      → leb_ℤ u.new_version v ≡ false
      → u.old_version ≡ v
      → leb_ℤ (pos 1) u.new_version ≡ true
      → Leads u.new_version us v'
      → Leads v (u ∷ us) v'

-- The upgrade itself succeeds, and leaves the statistics.
abbrev pub Succeeds : {W : Type 0} → View W Stats → Upgrader W → Type 0
Succeeds {W} V u =
    (w : W) → (w' : W) × (u.upgrade w ≡ (ok tt, w')) × (V.committed w' ≡ V.committed w)

abbrev pub AllSucceed : {W : Type 0} → View W Stats → List (Upgrader W) → Type 0
AllSucceed V [] = Unit
AllSucceed V (u ∷ us) = Succeeds V u × AllSucceed V us

module _ {W : Type 0} {A : Type 0} where
  pub on_db-eq :
      (m : M W A) (s : Server W) {r : Outcome A} {w' : W}
      → m s.world ≡ (r, w')
      → on_db m s ≡ (r, record s { world = w' })
  on_db-eq m s e = rw e refl

-- The tables of a version with no upgrade at work.
abbrev pub AtRest : Str → ℤ → Stats → Type 0
AtRest db_name v t =
    (value_of (t (version_key db_name)) ≡ v) × (value_of (t (phase_key db_name)) ≡ db_phase_serving)

-- The reply to a compare-and-set of a number that is not negative, where the old value is as expected.
pub set_if_reply :
    (new old : ℤ) (row : Option ℤ)
    → ltb_ℤ new (pos 0) ≡ false
    → value_of row ≡ old
    → reply_to new old false row ≡ stored new
set_if_reply new old none h e = rw h refl
set_if_reply new old (some v) h e = rw (e, eq_ℤ_refl) (if_false (leb_ℤ (pos 0) old) new old)
  where
    if_false :
        (b : Bool) (new v : ℤ)
        → ◌≡◌ {A = StatReply} (if b && false then old_not_match v else stored new) (stored new)
    if_false true new v = refl
    if_false false new v = refl

pub positive_version :
    (v : ℤ)
    → leb_ℤ (pos 1) v ≡ true
    → (ltb_ℤ v (pos 0) ≡ false) × (at_least_version_1 v ≡ v) × (eq_ℤ v (pos 0) ≡ false)
unfolding eq_ℤ
positive_version (pos zero) h = cc
positive_version (pos (suc n)) h = (ground arith, ground arith, ground arith)
positive_version (negsuc n) h = cc

module _ {W : Type 0} (D : Database W) (V : View W Stats) (L : Laws ⊥ D V) (db_name : Str) where
  -- A compare-and-set that finds the expected value.
  pub set_stat_if-Gives :
      (key : Str) (new old : ℤ) (w : W) (t : Stats)
      → ltb_ℤ new (pos 0) ≡ false
      → value_of (t key) ≡ old
      → V.committed w ≡ t
      → (w' : W) × (set_stat_if D key new old w ≡ (returns (stored new), w'))
        × (V.committed w' ≡ put key new t)
  unfolding set_stat_if
  set_stat_if-Gives key new old w t h old_value e =
      let (w', ran, after) = update_or_set_stat-Gives D V L key new old false w t e in
      let reply = set_if_reply new old (t key) h old_value in
      (w', ran ∙ ap (λ r. (returns r, w')) reply, after ∙ ap (λ r. table_after key r t) reply)

  run_upgrader-Gives :
      (u : Upgrader W) (s : Server W) (t : Stats) {v : ℤ}
      → leb_ℤ (pos 1) u.new_version ≡ true
      → Succeeds V u
      → V.committed s.world ≡ t
      → AtRest db_name v t
      → (s' : Server W) × (run_upgrader D db_name u s ≡ (returns tt, s'))
        × AtRest db_name u.new_version (V.committed s'.world)
  unfolding run_upgrader ◌>>=◌
  run_upgrader-Gives u s t positive succeeds e rest =
      let (w1, ran1, t1) =
        set_stat_if-Gives (phase_key db_name) db_phase_upgrading db_phase_serving s.world t refl
          rest.1 e in
      let (w2, ran2, t2) = succeeds w1 in
      let (w3, ran3, t3) =
        set_stat-Gives D V L (version_key db_name) u.new_version w2 _
          (positive_version u.new_version positive).0 (t2 ∙ t1) in
      let (w4, ran4, t4) =
        set_stat_if-Gives (phase_key db_name) db_phase_serving db_phase_upgrading w3 _ refl
          (rw (phase_version db_name, str_eq_refl) refl) t3 in
      (
        record { world = w4; db_phase = db_phase_upgrading },
        rw (ran1, ran2, ran3, ran4) refl,
        (rw (t4, version_phase db_name, str_eq_refl) refl, rw (t4, str_eq_refl) refl),
      )

  -- An upgrader whose version has been reached does nothing.
  upgrade_database-pass :
      (u : Upgrader W) (s : Server W) (t : Stats) {v : ℤ}
      → leb_ℤ u.new_version v ≡ true
      → leb_ℤ (pos 1) v ≡ true
      → V.committed s.world ≡ t
      → AtRest db_name v t
      → (s' : Server W) × (upgrade_database D db_name u s ≡ (returns tt, s'))
        × (V.committed s'.world ≡ t)
  unfolding upgrade_database ◌>>=◌
  upgrade_database-pass u s t {v} reached positive e rest =
      let (w', read, same) = retrieve_stat-Gives D V L (version_key db_name) s.world t e in
      let version = (ap at_least_version_1 rest.0 ∙ (positive_version v positive).1) in
      (record s { world = w' }, rw (read, version, reached) refl, same)

  upgrade_database-step :
      (u : Upgrader W) (s : Server W) (t : Stats) {v : ℤ}
      → leb_ℤ u.new_version v ≡ false
      → u.old_version ≡ v
      → leb_ℤ (pos 1) v ≡ true
      → leb_ℤ (pos 1) u.new_version ≡ true
      → Succeeds V u
      → V.committed s.world ≡ t
      → AtRest db_name v t
      → (s' : Server W) × (upgrade_database D db_name u s ≡ (returns tt, s'))
        × AtRest db_name u.new_version (V.committed s'.world)
  unfolding upgrade_database ◌>>=◌
  upgrade_database-step u s t {v} newer old positive new_positive succeeds e rest =
      let (w', read, same) = retrieve_stat-Gives D V L (version_key db_name) s.world t e in
      let version = (ap at_least_version_1 rest.0 ∙ (positive_version v positive).1) in
      let (s', ran, rest') =
        run_upgrader-Gives u (record s { world = w' }) t new_positive succeeds same rest in
      (s', rw (read, version, newer, (eq_ℤ_iff u.old_version v).1 old) ran, rest')

  pub upgrade_all-Gives :
      (us : List (Upgrader W)) (s : Server W) (t : Stats) {v v' : ℤ}
      → Leads v us v'
      → leb_ℤ (pos 1) v ≡ true
      → AllSucceed V us
      → V.committed s.world ≡ t
      → AtRest db_name v t
      → (s' : Server W) × (upgrade_all D db_name us s ≡ (returns tt, s'))
        × AtRest db_name v' (V.committed s'.world)
  unfolding upgrade_all
  upgrade_all-Gives [] s t (done v) positive goes e rest = (s, refl, rw e rest)
  upgrade_all-Gives (u ∷ us) s t (pass _ not_newer chain) positive goes e rest =
      let (s1, ran, e1) = upgrade_database-pass u s t not_newer positive e rest in
      let (s2, ran2, rest2) = upgrade_all-Gives us s1 t chain positive goes.1 e1 rest in
      (s2, bind-eq (upgrade_database D db_name u) _ ran ∙ ran2, rest2)
  upgrade_all-Gives (u ∷ us) s t (step _ newer old new_positive chain) positive goes e rest =
      let (s1, ran, rest1) =
        upgrade_database-step u s t newer old positive new_positive goes.0 e rest in
      let (s2, ran2, rest2) = upgrade_all-Gives us s1 _ chain new_positive goes.1 refl rest1 in
      (s2, bind-eq (upgrade_database D db_name u) _ ran ∙ ran2, rest2)
