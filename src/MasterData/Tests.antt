-- ===== src/MasterData/Tests.antt =====
-- The editors of the master data, and the theorems there.
use release_radar.Prelude.{◌≡◌, refl, true, some, List, [], ◌∷◌, map}
use release_radar.Prelude.Text.{trim, trim_start, trim_end}
use release_radar.Prelude.Decimal.{decimal}
use release_radar.Rollout.{CascadeStage, RolloutType}
use release_radar.Stage.{stages}
use release_radar.Data.{products}
use release_radar.MasterData.{Editor, init, selected, update, add, remove, select}
use release_radar.MasterData.Store.{drops, Changes, store, Edits-Changes}
use release_radar.MasterData.Selection.{unedited, then_, removes}
use release_radar.MasterData.Lists.{add_text, toggle_pair, toggle_in, add_stage as extend}
use release_radar.MasterData.Stages.{
  StageItem, stage_id, init_stages, find_index, move, add_stage, remove_stage,
}
use release_radar.MasterData.Stages.Order as Order
use release_radar.MasterData.Filters as Filters
use release_radar.MasterData.Filters.{
  filter_id, filters_init, new_filter, toggle_criterion, filter_summary, filter_to_query,
}
use release_radar.MasterData.Channels.{test_result, add_channel, channels_editor, sent, missing}
use release_radar.MasterData.Editors.{types_editor, add_type, remove_type}
use release_radar.MasterData.Retry.{
  Retry, exponential, linear, retry_schedule, format_sec, retry_summary, attempt_times,
}
use release_radar.MasterData.Products.{
  ProductItem, product_id, product_item, products_editor, add_product,
}

editor_code : Unit {0}
unfolding toggle_criterion filter_summary filter_to_query test_result add_channel channels_editor
    types_editor add_type remove_type init selected update add remove select add_text toggle_pair
    toggle_in trim trim_start trim_end extend find_index move add_stage remove_stage init_stages
    retry_schedule format_sec retry_summary attempt_times product_item products_editor add_product
    decimal
editor_code = tt

abbrev retry : Retry
retry = record {
  max_attempts = 5;
  strategy = exponential;
  initial_delay_sec = 10;
  alert_on_final_fail = true;
}

-- 10 + 20 + 40 + 80 = 150 seconds are two minutes and a half.
summary : retry_summary (some retry) ≡ "5× · exponential · total ~3m 30s · page on fail"
unfolding editor_code
summary = refl

times : attempt_times (record retry { strategy = linear }) ≡ 10 ∷ 30 ∷ 60 ∷ 100 ∷ []
unfolding editor_code
times = refl

texts : add_text ("Deploy" ∷ []) " Check " ≡ ("Deploy" ∷ "Check" ∷ [], "")
unfolding editor_code
texts = refl

abbrev plan : List CascadeStage
plan = record { stage = "non-prod"; delay_hours = 0 } ∷ []

-- The first of the products, which is selected, is removed.
abbrev removed : Editor ProductItem
removed = remove product_id "operator" (init product_id (map product_item products))

Edits-Changes_example :
    Changes product_id
      (store product_id products_editor)
      (drops "operator" ∷ [])
      (store product_id removed)
unfolding products_editor
Edits-Changes_example =
    Edits-Changes product_id (map product_item products) (then_ unedited (removes "operator"))

next_selected : removed.selected_id ≡ some "concentrator"
unfolding editor_code
next_selected = refl

abbrev stages_editor : Editor StageItem
stages_editor = init stage_id (init_stages 0 stages)

stages-IsNumbered : Order.IsNumbered 0 stages_editor.items
unfolding editor_code
stages-IsNumbered = (refl, (refl, (refl, tt)))

-- The second filter is selected, and a type is taken out of it.
query :
    map filter_to_query
      (toggle_criterion Filters.types "operator-hf" (
        select filter_id
          (record (new_filter "f-2") { name = "" })
          (init filter_id filters_init))).items
    ≡ "actor:luc AND status:scheduled,active" ∷ "type:tms-ssp-hf"
      ∷ "product:operator,concentrator AND stage:prod1" ∷ "status:blocked" ∷ []
unfolding editor_code
query = refl

filter_texts :
    map filter_summary filters_init
    ≡ "1 actor · 2 statuses" ∷ "2 types" ∷ "2 products · 1 stage" ∷ "1 status" ∷ []
unfolding editor_code
filter_texts = refl

-- A new webhook has no address that the test looks at.
tested :
    map test_result (add_channel "np" "prod" "webhook" "ch-9" (channels_editor "np" "prod")).items
    ≡ sent ∷ sent ∷ sent ∷ missing ∷ []
unfolding editor_code
tested = refl

next_types :
    map
      (λ (t : RolloutType). t.short)
      (remove_type "tms-ssp-nc" (add_type "type-1" types_editor)).items
    ≡ "critical" ∷ "critical hotfix" ∷ "concentrator mod" ∷ "operator feature" ∷ "operator hotfix"
      ∷ "monalesy feature" ∷ "monalesy patch" ∷ "new" ∷ []
unfolding editor_code
next_types = refl
