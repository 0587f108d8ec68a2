-- ===== src/Messages/Notification/Upgrade/Newest.antt =====
-- On a database that never fails the upgraders bring the tables to the newest version, and the
-- messages are served.
use datafoundry_proxy.Base.{
  ℕ, zero, suc, ◌≡◌, refl, ap, ◌∙◌, ◌⊎◌, inl, inr, true, false, List, [], ◌∷◌, ◌++◌, All, Option,
  none, some, Str, codes, str_eq_refl, Bool-cases, arith,
}
use datafoundry_proxy.Base.Int.{ℤ, pos, negsuc, leb_ℤ, eq_ℤ, eq_ℤ_iff, eq_ℤ_refl}
use datafoundry_proxy.Effect.{Result, ok, returns, ◌>>=◌}
use datafoundry_proxy.Database.{Database}
use datafoundry_proxy.Statistics.Table.{old_not_match, set_stat_if}
use datafoundry_proxy.Statistics.Table.Laws.{Stats, Laws}
use datafoundry_proxy.Database.Transactions.{View}
use datafoundry_proxy.Statistics.Table.Transactions.{reply_to}
use datafoundry_proxy.Statistics.Table.Healthy.{
  value_of, table_after, update_or_set_stat-Gives, retrieve_stat-Gives,
}
use datafoundry_proxy.Messages.Notification.Upgrade.{
  Upgrader, Server, db_phase_serving, db_phase_unkown, bring_up, try_to_upgrade_database, last_of,
  try_to_create_tables, exec_all, is_serving,
}
use datafoundry_proxy.Messages.Notification.Upgrade.Text.{statements}
use datafoundry_proxy.Messages.Notification.Upgrade.Steps.{
  version_key, phase_version, Leads, AllSucceed, AtRest, positive_version, set_stat_if-Gives,
  upgrade_all-Gives,
}

-- The statement, which takes no arguments, succeeds and leaves the statistics.
abbrev pub Executes : {W : Type 0} → Database W → View W Stats → Str → Type 0
Executes {W} D V sql =
    (w : W)
    → (n : ℤ × ℕ) × (w' : W) × (D.exec sql [] w ≡ (ok n, w')) × (V.committed w' ≡ V.committed w)

-- The file of the tables, where there is one, is read, and its statements run and leave the statistics.
abbrev pub CreatesTables :
    {W : Type 0} → Database W → View W Stats → (Str → W → Result Str × W) → Str → Type 0
CreatesTables D V read_file [] = Unit
CreatesTables {W} D V read_file (c ∷ name) =
    (text : Str) × ((w : W)
      → (w' : W) × (read_file (codes "_db/" ++ c ∷ name) w ≡ (ok text, w'))
        × (V.committed w' ≡ V.committed w))
    × All (Executes D V) (statements text)

module _ {W : Type 0} (D : Database W) (V : View W Stats) (L : Laws ⊥ D V)
    (read_file : Str → W → Result Str × W) where
  exec_all-Gives :
      (sqls : List Str)
      → All (Executes D V) sqls
      → (w : W)
      → (w' : W) × (exec_all D sqls w ≡ (returns tt, w')) × (V.committed w' ≡ V.committed w)
  unfolding exec_all ◌>>=◌
  exec_all-Gives [] h w = (w, refl, refl)
  exec_all-Gives (sql ∷ sqls) h w =
      let (n, w1, ran, same) = h.0 w in
      let (w2, ran2, same2) = exec_all-Gives sqls h.1 w1 in (w2, rw ran ran2, same2 ∙ same)

  create_tables-Gives :
      (u : Upgrader W)
      → CreatesTables D V read_file u.current_table_creation_sql_file
      → (w : W)
      → (w' : W) × (try_to_create_tables D read_file u w ≡ (returns tt, w'))
        × (V.committed w' ≡ V.committed w)
  unfolding try_to_create_tables ◌>>=◌
  create_tables-Gives u creates w = go u.current_table_creation_sql_file refl creates
    where
      go :
          (name : Str)
          → u.current_table_creation_sql_file ≡ name
          → CreatesTables D V read_file name
          → (w' : W) × (try_to_create_tables D read_file u w ≡ (returns tt, w'))
            × (V.committed w' ≡ V.committed w)
      go [] i h = (w, rw i refl, refl)
      go (c ∷ name) i (text, reads, executes) =
          let (w1, ran, same) = reads w in
          let (w2, ran2, same2) = exec_all-Gives (statements text) executes w1 in
          (w2, rw (i, ran) ran2, same2 ∙ same)

-- A compare-and-set with 0 of a version that is there.
version_reply :
    (new v : ℤ) (row : Option ℤ)
    → leb_ℤ (pos 1) v ≡ true
    → value_of row ≡ v
    → reply_to new (pos 0) false row ≡ old_not_match v
unfolding eq_ℤ
version_reply new v none h e = absurd (cc)
version_reply new (pos (suc n)) (some x) h e = rw e (ground arith)
version_reply new (pos zero) (some x) h e = cc
version_reply new (negsuc n) (some x) h e = cc

module _ {W : Type 0} (D : Database W) (V : View W Stats) (L : Laws ⊥ D V)
    (read_file : Str → W → Result Str × W) (db_name : Str) (us : List (Upgrader W))
    (newest : Upgrader W) (C : CreatesTables D V read_file newest.current_table_creation_sql_file)
    (positive : leb_ℤ (pos 1) newest.new_version ≡ true) (s : Server W) where
  -- Tables that were just created get the newest version.
  bring_up-new :
      AtRest db_name (pos 0) (V.committed s.world)
      → (s' : Server W) × (bring_up D read_file db_name us (some newest) s ≡ (returns tt, s'))
        × AtRest db_name newest.new_version (V.committed s'.world)
  unfolding bring_up ◌>>=◌
  bring_up-new rest =
      let (w1, ran1, e1) = create_tables-Gives D V L read_file newest C s.world in
      let (w2, ran2, e2) =
        set_stat_if-Gives D V L db_name (version_key db_name) newest.new_version (pos 0) w1
          (V.committed s.world) (positive_version newest.new_version positive).0 rest.0 e1 in
      let (w3, ran3, e3) = retrieve_stat-Gives D V L (version_key db_name) w2 _ e2 in
      (
        record s { world = w3 },
        rw (ran1, ran2, ran3, str_eq_refl, eq_ℤ_refl) refl,
        (rw (e3, str_eq_refl) refl, rw (e3, phase_version db_name) rest.1),
      )

  -- A version that is there stays.
  version_kept :
      (w : W) (t : Stats) {v : ℤ}
      → leb_ℤ (pos 1) v ≡ true
      → value_of (t (version_key db_name)) ≡ v
      → V.committed w ≡ t
      → (w' : W) × (set_stat_if D (version_key db_name) newest.new_version (pos 0) w
          ≡ (returns (old_not_match v), w'))
        × (V.committed w' ≡ t)
  unfolding set_stat_if
  version_kept w t {v} old here e =
      let reply = version_reply newest.new_version v (t (version_key db_name)) old here in
      let (w', ran, after) =
        update_or_set_stat-Gives D V L (version_key db_name) newest.new_version (pos 0) false w t
          e in
      (
        w',
        ran ∙ ap (λ r. (returns r, w')) reply,
        after ∙ ap (λ r. table_after (version_key db_name) r t) reply,
      )

  bring_up-old :
      {v : ℤ}
      → leb_ℤ (pos 1) v ≡ true
      → AtRest db_name v (V.committed s.world)
      → Leads v us newest.new_version
      → AllSucceed V us
      → (s' : Server W) × (bring_up D read_file db_name us (some newest) s ≡ (returns tt, s'))
        × AtRest db_name newest.new_version (V.committed s'.world)
  unfolding bring_up ◌>>=◌
  bring_up-old {v} old rest chain goes =
      let t = V.committed s.world in
      let (w1, ran1, e1) = create_tables-Gives D V L read_file newest C s.world in
      let (w2, ran2, e2) = version_kept w1 t old rest.0 e1 in
      let (w3, ran3, e3) = retrieve_stat-Gives D V L (version_key db_name) w2 t e2 in
      let read = ran3 ∙ ap (λ v. (returns v, w3)) rest.0 in
      elim (Bool-cases (eq_ℤ v newest.new_version)) [
        | inl same ↦ (
          record s { world = w3 },
          rw (ran1, ran2, read, same) refl,
          (rw e3 (rest.0 ∙ (eq_ℤ_iff v newest.new_version).0 same), rw e3 rest.1),
        )
        | inr other ↦
            let (s', ran, done) =
              upgrade_all-Gives D V L db_name us (record { world = w3; db_phase = db_phase_unkown })
                t chain old goes e3 rest in
            (s', rw (ran1, ran2, read, other) ran, done)
      ]

-- On a database whose transactions on the statistics never fail, with upgraders whose last has a
-- version of 1 at least, where the file of the last one's tables, if it names one, is read and each of
-- its statements succeeds and leaves the statistics, where every upgrade succeeds and leaves them too,
-- and with no upgrade at work: if
-- the tables have no version yet, or one from which the upgraders lead to the newest, then
-- TryToUpgradeDatabase returns without an error, the server is serving, the stored version is that of
-- the last upgrader, and again no upgrade is at work.
pub try_to_upgrade_database-newest :
    {W : Type 0} (D : Database W) (V : View W Stats) (L : Laws ⊥ D V)
    (read_file : Str → W → Result Str × W) (db_name : Str) (us : List (Upgrader W)) (s : Server W)
    {newest : Upgrader W} {v : ℤ}
    → CreatesTables D V read_file newest.current_table_creation_sql_file
    → last_of us ≡ some newest
    → leb_ℤ (pos 1) newest.new_version ≡ true
    → AllSucceed V us
    → AtRest db_name v (V.committed s.world)
    → (v ≡ pos 0) ⊎ ((leb_ℤ (pos 1) v ≡ true) × Leads v us newest.new_version)
    → (s' : Server W) × (try_to_upgrade_database D read_file db_name us true s ≡ (returns tt, s'))
      × (is_serving s' ≡ true)
      × AtRest db_name newest.new_version (V.committed s'.world)
unfolding try_to_upgrade_database is_serving ◌>>=◌
try_to_upgrade_database-newest {W} D V L read_file db_name us s {newest} {v} C last positive goes
      rest from =
    let (s', ran, done) = brought from in
    (
      record s' { db_phase = db_phase_serving },
      rw (last, ran) refl,
      eq_ℤ_refl db_phase_serving,
      done,
    )
  where
    brought :
        (v ≡ pos 0) ⊎ ((leb_ℤ (pos 1) v ≡ true) × Leads v us newest.new_version)
        → (s' : Server W) × (bring_up D read_file db_name us (some newest) s ≡ (returns tt, s'))
          × AtRest db_name newest.new_version (V.committed s'.world)
    brought (inl zero_version) =
        bring_up-new D V L read_file db_name us newest C positive s (rest.0 ∙ zero_version, rest.1)
    brought (inr (old, chain)) =
        bring_up-old D V L read_file db_name us newest C positive s old rest chain goes
