-- ===== src/Continuity/Seeds.antt =====
-- core/continuity.py: the names of the lane and the incident facts that seed the registry.
use smartwatch_clank.Base.{String, List, [], ◌∷◌}
use smartwatch_clank.Base.Json.{Fields, field, end, str, arr, null, items}

abbrev pub clank_id : String
clank_id = "smartwatch-clank"

abbrev pub instance_id : String
instance_id = "smartwatch-hetzner-cron-lane-01"

abbrev pub lane_id : String
lane_id = "staging"

abbrev pub epoch_id : String
epoch_id = "sw-epoch-1-restored"

abbrev pub restore_authoritative_at_utc : String
restore_authoritative_at_utc = "2026-08-23T22:09:00Z"

abbrev pub backup_taken_at_utc : String
backup_taken_at_utc = "2026-08-18T20:50:37Z"

abbrev pub last_pre_loss_history_at_utc : String
last_pre_loss_history_at_utc = "2026-08-18T20:13:00Z"

abbrev pub volume_loss : Fields
volume_loss = field "clank_id" (str clank_id) (
    field "discovered_at" (str restore_authoritative_at_utc) (
      field "effective_end" (null) (
        field "effective_start" (str restore_authoritative_at_utc) (
          field "event_id" (str "sw-20260823-volume-loss-0001") (
            field "event_type" (str "DATA_LOSS") (
              field "evidence_refs"
                (arr (
                  items (
                    str "clank-architecture/adr/0006-continuity-and-epoch-semantics.md"
                    ∷ str
                        "clank-architecture/DATA_SURVIVABILITY.md#6-smartwatch-case-analysis-post-incident-posture"
                    ∷ str "clank-architecture/DATA_SURVIVABILITY.md#17-pass-2-update"
                    ∷ [])))
                (field "instance_id" (str instance_id) (
                  field "lane_id" (str lane_id) (
                    field "new_epoch_id" (null) (
                      field "notes"
                        (str
                          "Destructive volume deletion on 2026-08-23 destroyed the live database including all observations newer than the newest backup. The pre-loss epoch was never locally named; its identifier remains UNKNOWN to this repository.")
                        (field "origin" (str "operator")
                          (field "previous_epoch_id" (null) end))))))))))))

abbrev pub restore_from_backup : Fields
restore_from_backup = field "clank_id" (str clank_id) (
    field "discovered_at" (str "2026-08-24T00:00:00Z") (
      field "effective_end" (null) (
        field "effective_start" (str restore_authoritative_at_utc) (
          field "event_id" (str "sw-20260823-restore-from-backup-0002") (
            field "event_type" (str "RESTORE_FROM_BACKUP") (
              field "evidence_refs"
                (arr (
                  items (
                    str
                      "clank-architecture/DATA_SURVIVABILITY.md#6-smartwatch-case-analysis-post-incident-posture"
                    ∷ str "backup: smartwatch pre-stage-c backup 2026-08-18T205037Z (integrity ok)"
                    ∷ [])))
                (field "instance_id" (str instance_id) (
                  field "lane_id" (str lane_id) (
                    field "new_epoch_id" (str epoch_id) (
                      field "notes"
                        (str
                          "Restored from the 2026-08-18T205037Z backup; authoritative from 2026-08-23T22:09:00Z; serves history through approximately 2026-08-18T20:13:00Z (canon marks the instant approximate). Restoration does NOT imply continuity.")
                        (field "origin" (str "operator")
                          (field "previous_epoch_id" (null) end))))))))))))

abbrev pub observation_gap : Fields
observation_gap = field "clank_id" (str clank_id) (
    field "discovered_at" (str "2026-08-24T00:00:00Z") (
      field "effective_end" (str restore_authoritative_at_utc) (
        field "effective_start" (str last_pre_loss_history_at_utc) (
          field "event_id" (str "sw-20260818-observation-gap-0003") (
            field "event_type" (str "OBSERVATION_GAP") (
              field "evidence_refs"
                (arr (
                  items (
                    str
                      "clank-architecture/DATA_SURVIVABILITY.md#6-smartwatch-case-analysis-post-incident-posture"
                    ∷ [])))
                (field "instance_id" (str instance_id) (
                  field "lane_id" (str lane_id) (
                    field "new_epoch_id" (str epoch_id) (
                      field "notes"
                        (str
                          "Known observation gap spanning the loss window (approximate start per canon). Absence inside this window is never zero and never novelty; post-gap source returns must be evaluated against restored history without backfilling.")
                        (field "origin" (str "operator")
                          (field "previous_epoch_id" (str epoch_id) end))))))))))))

-- `SEED_EVENTS`
abbrev pub seed_events : List Fields
seed_events = volume_loss ∷ restore_from_backup ∷ observation_gap ∷ []
