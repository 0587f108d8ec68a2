-- ===== src/Tests/Statistics.antt =====
-- The statistics and the upgrades, in the database in memory.
use datafoundry_proxy.Base.{
  ◌≡◌, refl, sym, subst, has_prefix, All, inr, [], ◌∷◌, none, some, Str, str_eq, codes, true,
  if◌then◌else◌,
}
use datafoundry_proxy.Base.Int.{pos, negsuc}
use datafoundry_proxy.Errors.{plain}
use datafoundry_proxy.Effect.{Result, ok, err, returns, fails}
use datafoundry_proxy.Statistics.{stat_key, get_general_stat_key}
use datafoundry_proxy.Statistics.Table.{
  StatReply, stored, update_or_set_stat, set_stat, remove_stat, retrieve_stat,
}
use datafoundry_proxy.Statistics.Table.Laws.{Stats}
use datafoundry_proxy.Statistics.Table.Transactions.{reply_to, Settles, update_or_set_stat-Settles}
use datafoundry_proxy.Statistics.Table.Healthy.{remove_stat-set_stat}
use datafoundry_proxy.Messages.Notification.Upgrade.{
  Upgrader, Server, new_database_upgrader_1, try_to_upgrade_database, upgrade_database, is_serving,
  old_stat_not_match,
}
use datafoundry_proxy.Messages.Notification.Upgrade.Steps.{version_key, pass, step, done, AtRest}
use datafoundry_proxy.Messages.Notification.Upgrade.Text.{statements, split_after}
use datafoundry_proxy.Messages.Notification.Upgrade.Newest.{
  Executes, CreatesTables, try_to_upgrade_database-newest,
}
use datafoundry_proxy.Messages.Notification.Upgrade.Blocked.{upgrade_failed-blocks}
use datafoundry_proxy.Tests.Database.{Memory, resting, memory_view, stats_memory, stats_memory-laws}

abbrev messages : Str
messages = codes "messages"

-- The version 1 stands in the table, and nothing else.
abbrev version_1 : Stats
version_1 k = if str_eq k (version_key messages) then some (pos 1) else none

update_or_set_stat-Settles_example :
    (r : StatReply) × (w' : Memory Stats) × (update_or_set_stat stats_memory
        (version_key messages)
        (pos 2)
        (negsuc 0)
        true
        (resting version_1)
      ≡ (returns r, w'))
    × (Settles ⊥
          (version_key messages)
          version_1
          (reply_to (pos 2) (negsuc 0) true (version_1 (version_key messages)))
          r
          (memory_view.committed w')
        × (w'.open_count ≡ 0))
update_or_set_stat-Settles_example =
    update_or_set_stat-Settles ⊥ stats_memory memory_view stats_memory-laws (version_key messages)
      (pos 2) (negsuc 0) true (resting version_1)

remove_stat-set_stat_example :
    (w1 : Memory Stats) × (w2 : Memory Stats) × (w3 : Memory Stats) × (set_stat stats_memory
        messages
        (pos 5)
        (resting version_1)
      ≡ (returns (stored (pos 5)), w1))
    × (remove_stat stats_memory messages w1 ≡ (returns (pos 5), w2))
    × (retrieve_stat stats_memory messages w2 ≡ (returns (pos 0), w3))
remove_stat-set_stat_example =
    remove_stat-set_stat stats_memory memory_view stats_memory-laws messages (pos 5)
      (resting version_1) refl

abbrev to_version_2 : (Memory Stats → Result (Unit {0}) × Memory Stats) → Upgrader (Memory Stats)
to_version_2 upgrade = record {
  old_version = pos 1;
  new_version = pos 2;
  current_table_creation_sql_file = codes "initdb_v2.sql";
  upgrade = upgrade;
}

abbrev good : Upgrader (Memory Stats)
good = to_version_2 (λ w. (ok tt, w))

abbrev bad : Upgrader (Memory Stats)
bad = to_version_2 (λ w. (err (plain (codes "disk full")), w))

abbrev server : Server (Memory Stats)
server = record { world = resting version_1; db_phase = negsuc 0 }

-- A file of one statement.
abbrev sql_text : Str
sql_text = codes "create table T (A int) DEFAULT CHARSET=UTF8;"

abbrev read_sql : Str → Memory Stats → Result Str × Memory Stats
read_sql name w = (ok sql_text, w)

one_statement : statements sql_text ≡ sql_text ∷ []
unfolding statements split_after has_prefix str_eq
one_statement = refl

creates : CreatesTables stats_memory memory_view read_sql (codes "initdb_v2.sql")
creates = (
  sql_text,
  (λ w. (w, refl, refl)),
  subst (All (Executes stats_memory memory_view)) (sym one_statement)
      ((λ w. ((pos 0, 0), w, refl, refl)), tt),
)

at_version_1 : AtRest messages (pos 1) version_1
unfolding str_eq stat_key get_general_stat_key
at_version_1 = (refl, refl)

try_to_upgrade_database-newest_example :
    (s' : Server (Memory Stats)) × (try_to_upgrade_database stats_memory read_sql messages
        (new_database_upgrader_1 ∷ good ∷ [])
        true
        server
      ≡ (returns tt, s'))
    × (is_serving s' ≡ true)
    × AtRest messages (pos 2) (memory_view.committed s'.world)
try_to_upgrade_database-newest_example =
    try_to_upgrade_database-newest stats_memory memory_view stats_memory-laws read_sql messages
      (new_database_upgrader_1 ∷ good ∷ []) server creates refl refl
      ((λ w. (w, refl, refl)), ((λ w. (w, refl, refl)), tt)) at_version_1
      (inr (refl, pass new_database_upgrader_1 refl (step good refl refl refl (done (pos 2)))))

upgrade_failed-blocks_example :
    (s1 : Server (Memory Stats)) × (s2 : Server (Memory Stats)) × (upgrade_database stats_memory
        messages bad server
      ≡ (fails (plain (codes "disk full")), s1))
    × (upgrade_database stats_memory messages good s1 ≡ (fails old_stat_not_match, s2))
    × (memory_view.committed s2.world ≡ memory_view.committed s1.world)
upgrade_failed-blocks_example =
    upgrade_failed-blocks stats_memory memory_view stats_memory-laws messages bad good server refl
      refl refl (refl, refl) at_version_1 (λ w. (w, refl, refl))
