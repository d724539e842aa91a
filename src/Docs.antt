-- ===== src/Docs.antt =====
-- design/project/docs.jsx: the documentation page, with its tabs, its contents and the section that is
-- followed while the page scrolls. Positions are pixels from the top of the page's body.
pub mod Spy
mod Tests
use text.Mathlib.Text.{◌==◌ as str_eq}
use release_radar.Prelude.{
  ℕ, Bool, true, false, String, Option, none, some, List, [], ◌∷◌, ◌++◌, map, any, if◌then◌else◌,
}
use release_radar.Prelude.Int.{ℤ, pos, ltb_ℤ}

pub record SubSection : Type 0 where
  pub id : String
  pub method : String
  pub label : String

pub record DocSection : Type 0 where
  pub id : String
  pub label : String
  pub children : List SubSection

abbrev pub section_of : String → String → DocSection
section_of id label = record { id = id; label = label; children = [] }

abbrev pub endpoint : String → String → String → SubSection
endpoint id method label = record { id = id; method = method; label = label }

abbrev pub rest_sections : List DocSection
rest_sections =
    section_of "overview" "Overview"
    ∷ section_of "auth" "Authentication"
    ∷ section_of "tokens" "API tokens"
    ∷ section_of "errors" "Errors & rate limits"
    ∷ record {
      id = "rollouts";
      label = "Rollouts";
      children =
          endpoint "ep-list-rollouts" "GET" "/rollouts"
          ∷ endpoint "ep-create-rollout" "POST" "/rollouts"
          ∷ endpoint "ep-get-rollout" "GET" "/rollouts/{id}"
          ∷ endpoint "ep-update-rollout" "PATCH" "/rollouts/{id}"
          ∷ endpoint "ep-delete-rollout" "DELETE" "/rollouts/{id}"
          ∷ endpoint "ep-execute-stage" "POST" "/{id}/stages/{idx}/execute"
          ∷ endpoint "ep-fail-task" "POST" "/{id}/tasks/{idx}/fail"
          ∷ endpoint "ep-reschedule" "POST" "/{id}/reschedule"
          ∷ [];
    }
    ∷ record {
      id = "masterdata";
      label = "Master data";
      children =
          endpoint "ep-products" "GET" "/products"
          ∷ endpoint "ep-stages" "GET" "/stages"
          ∷ endpoint "ep-types" "GET" "/rollout-types"
          ∷ endpoint "ep-channels" "GET" "/channels"
          ∷ endpoint "ep-actors" "GET" "/actors"
          ∷ endpoint "ep-locks" "GET" "/locks"
          ∷ [];
    }
    ∷ section_of "announcements" "Announcements"
    ∷ section_of "calendar" "iCalendar feed"
    ∷ section_of "webhooks" "Webhooks"
    ∷ []

abbrev pub tool : String → String → SubSection
tool id label = record { id = id; method = ""; label = label }

abbrev pub mcp_sections : List DocSection
mcp_sections =
    section_of "mcp-overview" "What is MCP?"
    ∷ section_of "mcp-install" "Install & connect"
    ∷ record {
      id = "mcp-tools";
      label = "Tools";
      children =
          tool "tool-list-rollouts" "list_rollouts"
          ∷ tool "tool-get-rollout" "get_rollout"
          ∷ tool "tool-create-rollout" "create_rollout"
          ∷ tool "tool-execute-stage" "execute_stage"
          ∷ tool "tool-fail-task" "fail_task"
          ∷ tool "tool-reschedule" "reschedule_rollout"
          ∷ tool "tool-announce-preview" "preview_announcement"
          ∷ tool "tool-create-lock" "create_lock"
          ∷ [];
    }
    ∷ section_of "mcp-resources" "Resources"
    ∷ section_of "mcp-prompts" "Prompts"
    ∷ section_of "mcp-auth" "Auth & scopes"
    ∷ section_of "mcp-claude" "Use with Claude Desktop"
    ∷ []

pub data DocTab : Type 0 where
  rest mcp keys : DocTab

abbrev pub sections_of : DocTab → List DocSection
sections_of rest = rest_sections
sections_of mcp = mcp_sections
sections_of keys = []

pub record Docs : Type 0 where
  pub tab : DocTab
  pub section : String

abbrev pub new_docs : Docs
new_docs = record { tab = rest; section = "overview" }

abbrev pub first_section : List DocSection → Option String
first_section [] = none
first_section (s ∷ ss) = some s.id

-- The effect of a change of the tab, `setSection(sections[0].id)`: nothing stands for the error that is
-- thrown where there is no section.
unfoldable pub open_tab : DocTab → Docs → Option Docs
open_tab t d = elim (first_section (sections_of t)) [
  | none ↦ none
  | some id ↦ some (record { tab = t; section = id })
]

-- An element with a `data-section`, and the distance of its top.
pub record Anchor : Type 0 where
  pub id : String
  pub top : ℤ

abbrev pub is_passed : Anchor → Bool
is_passed a = ltb_ℤ a.top (pos 80)

-- The loop of the scroll handler, from the section found so far.
unfoldable pub spy_from : Option String → List Anchor → Option String
spy_from cur [] = cur
spy_from cur (a ∷ anchors) = spy_from (if is_passed a then some a.id else cur) anchors

abbrev pub section_or : String → Option String → String
section_or old none = old
section_or old (some id) = if str_eq id "" then old else id

unfoldable pub on_scroll : List Anchor → Docs → Docs
unfolding spy_from
on_scroll anchors d = record d {
  section = section_or d.section (spy_from (first_section (sections_of d.tab)) anchors);
}
