-- ===== src/Data/Types.antt =====
-- data.js: the rollout types, with their cascade plans, rules and tasks.
use text.Mathlib.Text.{◌==◌ as str_eq}
use release_radar.Prelude.{String, Option, List, [], ◌∷◌, find}
use release_radar.Rollout.{RolloutType}

-- The hotfixes of the operator, and monalesy.
abbrev pub remaining_types : List RolloutType
remaining_types =
    record {
      id = "operator-hf";
      name = "operator critical hotfix";
      short = "operator hotfix";
      tone = "danger";
      cascade_plan =
          record { stage = "non-prod"; delay_hours = 0 }
          ∷ record { stage = "prod1"; delay_hours = 24 }
          ∷ record { stage = "prod2"; delay_hours = 48 }
          ∷ [];
      announce = "TMS_NP 1h • TMS_PROD 1d (prod1) • TMS_PROD 2d (prod2)";
      rules = "via HotFix branch" ∷ "Maintenance mode aktiv" ∷ "Rollout im Pair" ∷ [];
      tasks =
          "Cut hotfix branch" ∷ "Announce in TMS_NP (≥ 1h)"
          ∷ "Announce in TMS_PROD (≥ 1d prod1, ≥ 2d prod2)" ∷ "Enable Maintenance Mode"
          ∷ "Deploy hotfix" ∷ "Run broker diff on all brokers" ∷ "Lift Maintenance Mode"
          ∷ "Manual log check" ∷ [];
    }
    ∷ record {
      id = "monalesy-feature";
      name = "monalesy feature";
      short = "monalesy feature";
      tone = "info";
      cascade_plan = record { stage = "non-prod"; delay_hours = 0 } ∷ [];
      announce = "TMS_PROD 1d vorab";
      rules = "SNOW change / Anmeldung beim Kunden (prod)" ∷ "Rollout im Pair (prod)" ∷ [];
      tasks =
          "Open SNOW change" ∷ "Announce in TMS_PROD (≥ 1d)" ∷ "Customer notification"
          ∷ "Deploy monalesy" ∷ "Manual log check" ∷ [];
    }
    ∷ record {
      id = "monalesy-patch";
      name = "monalesy patch";
      short = "monalesy patch";
      tone = "neutral";
      cascade_plan = record { stage = "non-prod"; delay_hours = 0 } ∷ [];
      announce = "TMS_PROD 1h vorab";
      rules = "SNOW change bei prod-Komponenten" ∷ "Rollout im Pair bei prod-Komponenten" ∷ [];
      tasks =
          "Open SNOW change (if prod)" ∷ "Announce in TMS_PROD (≥ 1h)" ∷ "Deploy patch"
          ∷ "Manual log check" ∷ [];
    }
    ∷ []

abbrev pub rollout_types : List RolloutType
rollout_types =
    record {
      id = "tms-ssp-nc";
      name = "tms-ssp non-critical";
      short = "non-critical";
      tone = "neutral";
      cascade_plan = record { stage = "non-prod"; delay_hours = 0 } ∷ [];
      announce = "Ankündigen in TMS_PROD min. 1h vorab";
      rules =
          "Micro-Service Rollout — kein Einfluss auf Produktion möglich"
          ∷ "Manuelle Nachkontrolle der Applikation + Logs" ∷ [];
      tasks =
          "Announce in TMS_PROD (≥ 1h)" ∷ "Deploy to environment" ∷ "Manual log check"
          ∷ "Confirm green metrics in Grafana" ∷ [];
    }
    ∷ record {
      id = "tms-ssp-c";
      name = "tms-ssp critical";
      short = "critical";
      tone = "warn";
      cascade_plan = record { stage = "non-prod"; delay_hours = 0 } ∷ [];
      announce = "Ankündigen in TMS_PROD min. 1d vorab";
      rules =
          "Deployment + broker creation disabled during window" ∷ "Maintenance mode aktiv"
          ∷ "Rollout im Pair" ∷ "Run broker diff before lifting maintenance mode" ∷ [];
      tasks =
          "Announce in TMS_PROD (≥ 1d)" ∷ "Enable Maintenance Mode"
          ∷ "Disable deployment + broker creation" ∷ "Deploy" ∷ "Run broker diff on all brokers"
          ∷ "Lift Maintenance Mode" ∷ "Manual log check" ∷ [];
    }
    ∷ record {
      id = "tms-ssp-hf";
      name = "tms-ssp critical hotfix";
      short = "critical hotfix";
      tone = "danger";
      cascade_plan = record { stage = "non-prod"; delay_hours = 0 } ∷ [];
      announce = "Ankündigen in TMS_PROD min. 1h vorab";
      rules =
          "Pair review vorab um Risiko abzuschätzen" ∷ "via HotFix branch"
          ∷ "Maintenance mode aktiv" ∷ "Run broker diff vor Aufheben der Maintenance" ∷ [];
      tasks =
          "Pair-review risk assessment" ∷ "Cut hotfix branch" ∷ "Announce in TMS_PROD (≥ 1h)"
          ∷ "Enable Maintenance Mode" ∷ "Deploy hotfix" ∷ "Run broker diff on all brokers"
          ∷ "Lift Maintenance Mode" ∷ "Manual log check" ∷ [];
    }
    ∷ record {
      id = "concentrator-mod";
      name = "concentrator modification";
      short = "concentrator mod";
      tone = "warn";
      cascade_plan =
          record { stage = "non-prod"; delay_hours = 0 }
          ∷ record { stage = "prod1"; delay_hours = 168 }
          ∷ record { stage = "prod2"; delay_hours = 336 }
          ∷ [];
      announce = "TMS_NP 1d • TMS_PROD 1w (prod1) • TMS_PROD 2w (prod2)";
      rules =
          "Individuelles Rollout-Drehbuch erforderlich" ∷ "Maintenance mode aktiv"
          ∷ "Rollout im Pair" ∷ "Run broker diff vor Aufheben der Maintenance" ∷ [];
      tasks =
          "Announce in TMS_NP (≥ 1d) for non-prod" ∷ "Announce in TMS_PROD (≥ 1w) for prod1"
          ∷ "Announce in TMS_PROD (≥ 2w) for prod2" ∷ "Enable Maintenance Mode"
          ∷ "Apply concentrator modification" ∷ "Run broker diff on all brokers"
          ∷ "Lift Maintenance Mode" ∷ "Manual log check" ∷ [];
    }
    ∷ record {
      id = "operator-feature";
      name = "operator feature (oracle & solace)";
      short = "operator feature";
      tone = "info";
      cascade_plan =
          record { stage = "non-prod"; delay_hours = 0 }
          ∷ record { stage = "prod1"; delay_hours = 168 }
          ∷ record { stage = "prod2"; delay_hours = 336 }
          ∷ [];
      announce = "TMS_NP 1h • TMS_PROD 1w (prod1) • TMS_PROD 2w (prod2)";
      rules =
          "Maintenance mode aktiv" ∷ "Rollout im Pair"
          ∷ "Run broker diff vor Aufheben der Maintenance" ∷ [];
      tasks =
          "Announce in TMS_NP (≥ 1h)" ∷ "Announce in TMS_PROD (≥ 1w prod1, ≥ 2w prod2)"
          ∷ "Enable Maintenance Mode" ∷ "Deploy operator (oracle + solace)"
          ∷ "Run broker diff on all brokers" ∷ "Lift Maintenance Mode" ∷ "Manual log check" ∷ [];
    }
    ∷ remaining_types

unfoldable pub get_type : String → Option RolloutType
get_type id = find (λ t. str_eq t.id id) rollout_types
