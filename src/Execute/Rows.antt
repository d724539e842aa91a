-- ===== src/Execute/Rows.antt =====
-- panels.jsx: what ExecutePanel shows of a rollout: the rows of its tasks, its progress, its stages with
-- the gaps between them, and its link. The names of the actors are left out.
pub mod Shown
use release_radar.Prelude.{
  ℕ, zero, suc, ◌+◌, ◌*◌, ◌%◌, Bool, true, false, not, ◌&&◌, String, Option, none, some, List, [],
  ◌∷◌, ◌==◌, length, ltb, get_elem?, map, if◌then◌else◌,
}
use release_radar.Prelude.Dict.{lookup}
use release_radar.Prelude.Decimal.{decimal}
use release_radar.Prelude.Int.{ℤ, pos, negsuc, ◌-ℤ◌}
use release_radar.Prelude.Text.{trim, is_empty, ◌◇◌, join}
use release_radar.Data.{MockRollout, MockStage, MockLock}
use release_radar.Stage.{StageMeta, stages}
use release_radar.Detail.{percent}
use release_radar.Execute.{
  TaskState, state_of, Panel, is_done, is_failed, is_failing, reason_of, done_count, failed_count,
}

-- Who did it, if it is known, and when.
pub record LogEntry : Type 0 where
  pub by : Option String
  pub at : String

abbrev pub first_logs : List LogEntry
first_logs =
    record { by = some "luc"; at = "09:54" }
    ∷ record { by = some "hen"; at = "10:02" }
    ∷ record { by = some "luc"; at = "10:11" }
    ∷ record { by = some "hen"; at = "10:14" }
    ∷ []

-- `pair[i % pair.length]`
abbrev pub nth_of_pair : List String → ℕ → Option String
nth_of_pair pair i = get_elem? pair (i % length pair)

abbrev pub log_of : List String → ℕ → LogEntry
log_of pair i = elim (get_elem? first_logs i) [
  | none ↦ record { by = nth_of_pair pair i; at = "10:" ◇ decimal (20 + i * 4) }
  | some e ↦ e
]

abbrev pub failure_of : List String → ℕ → LogEntry
failure_of pair i = record { by = nth_of_pair pair i; at = "10:" ◇ decimal (30 + i * 3) }

pub record Row : Type 0 where
  pub label : String
  pub is_on : Bool
  pub is_off : Bool
  pub log : Option LogEntry
  pub failure : Option LogEntry
  pub is_pending : Bool
  pub reason : Option String
  pub is_asked : Bool
  pub can_save : Bool

abbrev pub when {ℓ} : {A : Type ℓ} → Bool → A → Option A
when true a = some a
when false a = none

abbrev pub row_of : List String → Panel → ℕ → String → Option TaskState → Bool → Row
row_of pair p i label state failing = record {
  label = label;
  is_on = is_done state;
  is_off = is_failed state;
  log = when (is_done state) (log_of pair i);
  failure = when (is_failed state && not failing) (failure_of pair i);
  is_pending = not (is_done state) && (not (is_failed state) && not failing);
  reason = when (is_failed state && not failing) (reason_of state);
  is_asked = failing;
  can_save = not (is_empty (trim p.reason_draft));
}

unfoldable pub row : List String → Panel → ℕ → String → Row
unfolding state_of decimal
row pair p i label = row_of pair p i label (state_of i p.task_states) (is_failing i p.failing_task)

abbrev pub rows_from : List String → Panel → ℕ → List String → List Row
rows_from pair p i [] = []
rows_from pair p i (t ∷ tasks) = row pair p i t ∷ rows_from pair p (i + 1) tasks

unfoldable pub task_rows : List String → Panel → List String → List Row
unfolding row
task_rows pair p tasks = rows_from pair p 0 tasks

-- Of no task at all the share is not a number.
abbrev pub share : ℕ → ℕ → Option ℕ
share n zero = none
share n (suc m) = some (percent n (suc m))

unfoldable pub panel_completion : Panel → List String → Option ℕ
unfolding done_count
panel_completion p tasks = share (done_count p) (length tasks)

abbrev pub failed_text : ℕ → String
failed_text n = decimal n ◇ " task" ◇ (if ltb 1 n then "s" else "") ◇ " failed."

unfoldable pub fail_banner : Panel → Option String
unfolding failed_count decimal
fail_banner p = when (not (failed_count p == 0)) (failed_text (failed_count p))

abbrev pub locks_text : List MockLock → Option String
locks_text [] = none
locks_text (l ∷ ls) =
    some (join " • " (map (λ (m : MockLock). m.title) (l ∷ ls)) ◇ ". " ◇ l.description)

unfoldable pub lock_banner : List MockLock → Option String
lock_banner locks = locks_text locks

abbrev pub signed : ℤ → String
signed (pos n) = decimal n
signed (negsuc n) = "-" ◇ decimal (suc n)

pub record StageCard : Type 0 where
  pub gap : Option String
  pub short : String
  pub label : String
  pub time : String
  pub status : String

abbrev pub stage_card : Option ℤ → StageMeta → MockStage → StageCard
stage_card before m st = record {
  gap = elim before [ none ↦ none | some o ↦ some ("+" ◇ signed (st.offset -ℤ o) ◇ "d") ];
  short = m.short;
  label = m.label;
  time = st.time;
  status = st.status;
}

abbrev pub put_card :
    Option StageMeta → Option ℤ → MockStage → Option (List StageCard) → Option (List StageCard)
put_card (some m) before st (some cards) = some (stage_card before m st ∷ cards)
put_card (some m) before st none = none
put_card none before st cards = none

-- The stage's colours are read from the table without a fallback: a stage that it does not have
-- throws, and there is no panel.
abbrev pub cards_after : Option ℤ → List MockStage → Option (List StageCard)
cards_after before [] = some []
cards_after before (st ∷ sts) =
    let rest = cards_after (some st.offset) sts in put_card (lookup st.env stages) before st rest

unfoldable pub stage_cards : List MockStage → Option (List StageCard)
unfolding decimal
stage_cards sts = cards_after none sts

-- The page's address is its origin and its path.
unfoldable pub share_link : String → String → MockRollout → String
share_link origin pathname r = origin ◇ pathname ◇ "#rollout/" ◇ r.id
