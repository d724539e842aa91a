-- ===== src/Execute/Tests.antt =====
-- The panel of the rollout r-101.
use release_radar.Prelude.{◌≡◌, refl, String, none, some, List, [], ◌∷◌, map}
use release_radar.Prelude.Decimal.{decimal}
use release_radar.Prelude.Dict.{lookup}
use release_radar.Prelude.Int.{pos, ◌-ℤ◌}
use release_radar.Prelude.Text.{trim, trim_start, trim_end}
use release_radar.Data.{MockRollout, MockStage, MockLock, locks_raw}
use release_radar.Data.Rollouts.{rollouts}
use release_radar.Execute.Rows.{
  Row, task_rows, panel_completion, fail_banner, stage_cards, share_link,
}
use release_radar.Execute.{
  done, state_of, delete, assign, Panel, init, set_done, set_failed, save_reason, done_count,
  failed_count, failed_tasks, blocking_locks, toggle_product,
}

panel_code : Unit {0}
unfolding state_of delete assign init set_done set_failed save_reason done_count failed_count
    failed_tasks blocking_locks toggle_product trim trim_start trim_end panel_completion fail_banner
    stage_cards task_rows share_link decimal ◌-ℤ◌ lookup
panel_code = tt

abbrev panel : Panel
panel = record {
  task_states = (0, done) ∷ (1, done) ∷ (3, done) ∷ [];
  failing_task = none;
  reason_draft = "";
}

abbrev type_reason : String → Panel → Panel
type_reason v p = record p { reason_draft = v }

-- Task 2 fails, then task 1, for its own reason.
abbrev failing : Panel
failing = save_reason 1 (
    type_reason "slow"
      (set_failed 1 (save_reason 2 (type_reason " disk full " (set_failed 2 panel)))))

states :
    (done_count failing ≡ 2)
    × (failed_count failing ≡ 2)
    × (failed_tasks failing ≡ (1, "slow") ∷ (2, "disk full") ∷ [])
unfolding panel_code
states = (refl, refl, refl)

blocked :
    map (λ (r : MockRollout). map (λ (l : MockLock). l.id) (blocking_locks r locks_raw)) rollouts
    ≡ [] ∷ [] ∷ ("l-2" ∷ []) ∷ ("l-2" ∷ []) ∷ [] ∷ [] ∷ [] ∷ []
unfolding panel_code
blocked = refl

products :
    toggle_product (toggle_product ("all" ∷ []) "operator") "monalesy"
    ≡ "operator" ∷ "monalesy" ∷ []
unfolding panel_code
products = refl

abbrev tasks : List String
tasks = "a" ∷ "b" ∷ "c" ∷ "d" ∷ "e" ∷ []

-- A log beyond the fourth task is made up from the pair.
logs :
    map
      (λ (r : Row). elim r.log [ none ↦ none | some e ↦ e.by ])
      (task_rows ("luc" ∷ "hen" ∷ []) (set_done 4 panel) tasks)
    ≡ some "luc" ∷ some "hen" ∷ none ∷ some "hen" ∷ some "luc" ∷ []
unfolding panel_code
logs = refl

progress :
    (panel_completion panel tasks ≡ some 60)
    × (panel_completion panel [] ≡ none)
    × (fail_banner failing ≡ some "2 tasks failed.")
unfolding panel_code
progress = (refl, refl, refl)

-- A stage without a place in the table leaves no panel.
abbrev on_stage : String → MockStage
on_stage env = record {
  env = env;
  offset = pos 0;
  time = "10:00";
  duration = 1;
  status = "scheduled";
}

unknown_stage : stage_cards (on_stage "non-prod" ∷ on_stage "prod3" ∷ []) ≡ none
unfolding panel_code
unknown_stage = refl
