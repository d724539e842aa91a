-- ===== src/Data/Rollouts.antt =====
-- data.js: the rollouts of the prototype, less the variation selector behind a warning sign, which
-- draws nothing.
use release_radar.Prelude.{List, [], ◌∷◌}
use release_radar.Prelude.Int.{pos, negsuc}
use release_radar.Data.{MockRollout}

abbrev pub rollouts : List MockRollout
rollouts =
    record {
      id = "r-101";
      product = "operator";
      type_id = "operator-feature";
      title = "operator 24.7 — broker auth refactor";
      stages =
          record {
            env = "non-prod";
            offset = negsuc 1;
            time = "09:00";
            duration = 2;
            status = "done";
          }
          ∷ record {
            env = "prod1";
            offset = pos 5;
            time = "10:00";
            duration = 2;
            status = "scheduled";
          }
          ∷ record {
            env = "prod2";
            offset = pos 12;
            time = "10:00";
            duration = 2;
            status = "scheduled";
          }
          ∷ [];
      pair = "luc" ∷ "hen" ∷ [];
      risks =
          "Deployment + broker creation disabled for ~2h. Touches oracle schema migration (rev 14).";
      desc_ext =
          "operator 24.7 rollout. Customers may observe transient broker creation latency during the maintenance window.";
      desc_int =
          "Includes oracle migration rev 14 + solace exporter v2.3. Pair-reviewed by Luc/Henning. Rollback path: revert deploy + downgrade migration.";
      checked = 0 ∷ 1 ∷ 2 ∷ 3 ∷ [];
    }
    ∷ record {
      id = "r-102";
      product = "concentrator";
      type_id = "concentrator-mod";
      title = "concentrator — TLS 1.3 enforcement";
      stages =
          record {
            env = "non-prod";
            offset = pos 1;
            time = "14:00";
            duration = 3;
            status = "scheduled";
          }
          ∷ record {
            env = "prod1";
            offset = pos 8;
            time = "10:00";
            duration = 3;
            status = "scheduled";
          }
          ∷ record {
            env = "prod2";
            offset = pos 15;
            time = "10:00";
            duration = 3;
            status = "scheduled";
          }
          ∷ [];
      pair = "mira" ∷ "tomas" ∷ [];
      risks =
          "Old clients on TLS 1.2 will be rejected. Customer list reviewed; 3 customers notified individually.";
      desc_ext =
          "concentrator enforces TLS 1.3 minimum. Legacy TLS 1.2 connections will be rejected after this rollout.";
      desc_int =
          "Drehbuch: docs/runbooks/conc-tls13.md. Pre-check: openssl scan against all brokers.";
      checked = [];
    }
    ∷ record {
      id = "r-103";
      product = "microservices";
      type_id = "tms-ssp-nc";
      title = "tms-ssp — frontend nav redesign";
      stages =
          record {
            env = "non-prod";
            offset = pos 0;
            time = "11:00";
            duration = 1;
            status = "active";
          }
          ∷ [];
      pair = "sina" ∷ [];
      risks = "Pure frontend change, feature-flagged.";
      desc_ext = "Updated navigation in the TMS self-service portal.";
      desc_int = "Behind flag `nav-v2`. Roll-forward only — no DB changes.";
      checked = 0 ∷ 1 ∷ [];
    }
    ∷ record {
      id = "r-104";
      product = "microservices";
      type_id = "tms-ssp-hf";
      title = "tms-ssp — auth token leak hotfix";
      stages =
          record {
            env = "non-prod";
            offset = pos 2;
            time = "08:00";
            duration = 1;
            status = "blocked";
          }
          ∷ [];
      pair = "luc" ∷ "ravi" ∷ [];
      risks =
          "⚠ Lock Active: Bug on master (#4029). Force-push not acceptable. Rollout paused until hotfix branch is green.";
      desc_ext = "Security hotfix addressing token leak in appluser service.";
      desc_int = "Hotfix branch: hotfix/4029-token-leak. Awaiting CI green before scheduling.";
      checked = 0 ∷ [];
    }
    ∷ record {
      id = "r-105";
      product = "monalesy";
      type_id = "monalesy-patch";
      title = "monalesy — 12.4.2 patch";
      stages =
          record {
            env = "non-prod";
            offset = pos 3;
            time = "13:00";
            duration = 1;
            status = "scheduled";
          }
          ∷ [];
      pair = "tomas" ∷ [];
      risks = "Minor patch. No customer notification required (no prod components).";
      desc_ext = "Routine monalesy patch.";
      desc_int = "Bumps libmon 2.4 → 2.4.1.";
      checked = [];
    }
    ∷ record {
      id = "r-106";
      product = "operator";
      type_id = "operator-hf";
      title = "operator — solace pool leak hotfix";
      stages =
          record {
            env = "non-prod";
            offset = pos 4;
            time = "16:00";
            duration = 1;
            status = "scheduled";
          }
          ∷ record {
            env = "prod1";
            offset = pos 6;
            time = "10:00";
            duration = 1;
            status = "scheduled";
          }
          ∷ record {
            env = "prod2";
            offset = pos 8;
            time = "10:00";
            duration = 1;
            status = "scheduled";
          }
          ∷ [];
      pair = "hen" ∷ "mira" ∷ [];
      risks = "Connection pool exhaustion under high fan-out. Hotfix branch already reviewed.";
      desc_ext = "operator hotfix addressing solace connection pool exhaustion.";
      desc_int = "hotfix/solace-pool-leak. Cherry-picked from main.";
      checked = [];
    }
    ∷ record {
      id = "r-107";
      product = "monalesy";
      type_id = "monalesy-feature";
      title = "monalesy — multi-tenant export";
      stages =
          record {
            env = "non-prod";
            offset = pos 9;
            time = "09:30";
            duration = 2;
            status = "scheduled";
          }
          ∷ [];
      pair = "ravi" ∷ "sina" ∷ [];
      risks = "Customer-facing feature. SNOW change opened (CHG0094821).";
      desc_ext = "Adds multi-tenant export support to monalesy.";
      desc_int = "Feature behind tenant flag. SNOW CHG0094821 raised.";
      checked = [];
    }
    ∷ []
