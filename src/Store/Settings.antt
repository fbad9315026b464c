-- ===== src/Store/Settings.antt =====
-- core/store.py: the tables `soak_state` and `soak_host_migrations`, with core/soak.py on them.
use smartwatch_clank.Base.{
  ℕ, ◌-◌, String, not, ◌&&◌, Option, none, some, List, [], ◌∷◌, ◌++◌, lookup, put, leb,
  if◌then◌else◌, ◌==◌, string_eq,
}
use smartwatch_clank.Store.{Store, RunRow, HostMigration}
use smartwatch_clank.Platform.{Platform}

-- `SQLiteStore.get_soak_state` and `SQLiteStore.set_soak_state`
unfoldable pub get_soak_state : String → Store → Option String
get_soak_state key s = lookup key s.soak_state

unfoldable pub set_soak_state : String → String → Store → Store
set_soak_state key value s = record s { soak_state = put key value s.soak_state }

-- `SQLiteStore.save_host_migration`
unfoldable pub save_host_migration : HostMigration → Store → Store
save_host_migration m s = record s { migrations = s.migrations ++ m ∷ [] }

-- SELECT MAX(finished_at) FROM runs
unfoldable pub last_finished : List RunRow → Option ℕ
last_finished [] = none
last_finished (r ∷ rs) = elim (last_finished rs) [
  | none ↦ some r.finished_at
  | some t ↦ some (if leb t r.finished_at then r.finished_at else t)
]

-- the seconds since the last run, not below zero; they stand in microseconds
abbrev gap : ℕ → Option ℕ → Option ℕ
gap now none = none
gap now (some finished) = some (now - finished)

-- `if previous_host and previous_host != current["host_id"]`
unfoldable pub host_migration : (now : ℕ) (host_id : String) → Store → Option HostMigration
host_migration now host_id s = elim (get_soak_state "active_host_id" s) [
  | none ↦ none
  | some previous ↦
      if not (previous == "") && not (previous == host_id)
      then some (record {
        from_host_id = previous;
        to_host_id = host_id;
        recorded_at = now;
        observation_gap_seconds = gap now (last_finished s.runs);
      })
      else none
]

unfoldable pub record_migration : Option HostMigration → Store → Store
record_migration none s = s
record_migration (some m) s = save_host_migration m s

-- `prepare_soak_cycle`, what it writes
unfoldable pub prepare_soak_cycle : Platform → (now : ℕ) (host_id hostname : String) → Store → Store
prepare_soak_cycle p now host_id hostname s =
    set_soak_state "last_cycle_started_at" (p.isoformat now) (
      set_soak_state "active_hostname" hostname (
        set_soak_state "active_host_id" host_id
          (record_migration (host_migration now host_id s) s)))
