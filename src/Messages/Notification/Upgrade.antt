-- ===== src/Messages/Notification/Upgrade.antt =====
-- messages/notification/notification.go and upgrade_1.go: how the tables of the messages are brought
-- to the newest version, before the messages are served.
pub mod Text
pub mod Steps
pub mod Newest
pub mod Blocked
use datafoundry_proxy.Base.{
  Bool, true, false, not, List, [], ◌∷◌, ◌++◌, Option, none, some, Str, codes, if◌then◌else◌,
}
use datafoundry_proxy.Base.Int.{ℤ, pos, negsuc, leb_ℤ, eq_ℤ}
use datafoundry_proxy.Errors.{GoError, plain}
use datafoundry_proxy.Effect.{Result, Outcome, M, pure, fail, run, ◌>>=◌, ◌>>◌}
use datafoundry_proxy.Database.{Database}
use datafoundry_proxy.Statistics.{get_version_key, get_phase_key, stat_key}
use datafoundry_proxy.Statistics.Table.{
  StatReply, stored, old_not_match, failed, set_stat, set_stat_if, retrieve_stat,
}
use datafoundry_proxy.Messages.Notification.Upgrade.Text.{statements}

-- The constants DbPhase_Unkown, DbPhase_Serving and DbPhase_Upgrading.
abbrev pub db_phase_unkown : ℤ
db_phase_unkown = negsuc 0

abbrev pub db_phase_serving : ℤ
db_phase_serving = pos 0

abbrev pub db_phase_upgrading : ℤ
db_phase_upgrading = pos 1

-- The interface DatabaseUpgrader with the fields of DatabaseUpgrader_Base, which implements all of
-- it but Upgrade.
pub record Upgrader (W : Type 0) : Type 0 where
  pub old_version : ℤ
  pub new_version : ℤ
  pub current_table_creation_sql_file : Str
  pub upgrade : W → Result (Unit {0}) × W

-- The database's world beside the package's variable `dbPhase`.
pub record Server (W : Type 0) : Type 0 where
  pub world : W
  pub db_phase : ℤ

unfoldable pub is_serving : {W : Type 0} → Server W → Bool
is_serving s = eq_ℤ s.db_phase db_phase_serving

module _ {W : Type 0} where
  -- A call that does not touch the variable, and an assignment to it.
  abbrev pub on_db : {A : Type 0} → M W A → M (Server W) A
  on_db m s = let (r, w) = m s.world in (r, record s { world = w })

  abbrev pub set_db_phase : ℤ → M (Server W) (Unit {0})
  set_db_phase phase s = (Outcome.returns tt, record s { db_phase = phase })

abbrev pub old_stat_not_match : GoError
old_stat_not_match = plain (codes "old stat not match")

-- `if err != nil { return err }` after a call of the statistics; and the same where the error is
-- none if it is ErrOldStatNotMatch.
abbrev pub stored_or_fail : {W : Type 0} → StatReply → M W (Unit {0})
stored_or_fail (stored v) = pure tt
stored_or_fail (old_not_match v) = fail old_stat_not_match
stored_or_fail (failed e) = fail e

abbrev pub matched_or_not : {W : Type 0} → StatReply → M W (Unit {0})
matched_or_not (stored v) = pure tt
matched_or_not (old_not_match v) = pure tt
matched_or_not (failed e) = fail e

-- newDatabaseUpgrader_1, and its Upgrade, which does nothing.
abbrev pub new_database_upgrader_1 : {W : Type 0} → Upgrader W
new_database_upgrader_1 = record {
  old_version = pos 0;
  new_version = pos 1;
  current_table_creation_sql_file = codes "initdb_v1.sql";
  upgrade = λ w. (Result.ok tt, w);
}

-- dbUpgraders
abbrev pub db_upgraders : {W : Type 0} → List (Upgrader W)
db_upgraders = new_database_upgrader_1 ∷ []

-- `dbUpgraders[len(dbUpgraders) - 1]`
abbrev pub last_of : {A : Type 0} → List A → Option A
last_of [] = none
last_of (x ∷ []) = some x
last_of (x ∷ y ∷ l) = last_of (y ∷ l)

-- `if current_version == 0 { current_version = 1 }`
abbrev pub at_least_version_1 : ℤ → ℤ
at_least_version_1 v = if eq_ℤ v (pos 0) then pos 1 else v

abbrev pub wrong_old_version : GoError
wrong_old_version = plain (codes "old version (%d) <= current version (%d)")

module _ {W : Type 0} (D : Database W) where
  -- The loop over the statements of the file.
  unfoldable pub exec_all : List Str → M W (Unit {0})
  exec_all [] = pure tt
  exec_all (sql ∷ sqls) = run (D.exec sql []) >>= λ _. exec_all sqls

  -- From the phase to the end of _upgradeDatabase.
  unfoldable pub run_upgrader : Str → Upgrader W → M (Server W) (Unit {0})
  run_upgrader db_name u = do
    entered ←
        on_db (set_stat_if D (get_phase_key (db_name ∷ [])) db_phase_upgrading db_phase_serving)
    stored_or_fail entered
    set_db_phase db_phase_upgrading
    on_db (run u.upgrade)
    versioned ← on_db (set_stat D (get_version_key (db_name ∷ [])) u.new_version)
    stored_or_fail versioned
    left ← on_db (set_stat_if D (get_phase_key (db_name ∷ [])) db_phase_serving db_phase_upgrading)
    stored_or_fail left

  -- _upgradeDatabase
  unfoldable pub upgrade_database : Str → Upgrader W → M (Server W) (Unit {0})
  upgrade_database db_name u = do
    version ← on_db (retrieve_stat D (get_version_key (db_name ∷ [])))
    let current_version = at_least_version_1 version
    if leb_ℤ u.new_version current_version
        then pure tt
        else if not (eq_ℤ u.old_version current_version)
        then fail wrong_old_version
        else run_upgrader db_name u

  -- The loop over the upgraders.
  unfoldable pub upgrade_all : Str → List (Upgrader W) → M (Server W) (Unit {0})
  upgrade_all db_name [] = pure tt
  upgrade_all db_name (u ∷ us) = upgrade_database db_name u >>= λ _. upgrade_all db_name us

module _ {W : Type 0} (D : Database W) (read_file : Str → W → Result Str × W) where
  unfoldable pub try_to_create_tables : Upgrader W → M W (Unit {0})
  unfolding exec_all
  try_to_create_tables u = elim u.current_table_creation_sql_file [
    | [] ↦ pure tt
    | c ∷ name ↦ do text ← run (read_file (codes "_db/" ++ c ∷ name)); exec_all D (statements text)
  ]

  -- The body of `if reallyNeedUpgrade`, with the last upgrader.
  unfoldable pub bring_up : Str → List (Upgrader W) → Option (Upgrader W) → M (Server W) (Unit {0})
  bring_up db_name us none = fail (plain (codes "at least one db upgrader needed"))
  bring_up db_name us (some newest) = do
    on_db (try_to_create_tables newest)
    initial ← on_db (set_stat_if D (get_version_key (db_name ∷ [])) newest.new_version (pos 0))
    matched_or_not initial
    current_version ← on_db (retrieve_stat D (get_version_key (db_name ∷ [])))
    if eq_ℤ current_version newest.new_version
        then pure tt
        else do set_db_phase db_phase_unkown; upgrade_all D db_name us

  unfoldable pub try_to_upgrade_database : Str → List (Upgrader W) → Bool → M (Server W) (Unit {0})
  try_to_upgrade_database db_name us really_need_upgrade = do
    if really_need_upgrade then bring_up db_name us (last_of us) else pure tt
    set_db_phase db_phase_serving
