-- ===== src/MasterData/Channels.antt =====
-- master-data.jsx: ChannelsEditor and ChannelDetail.
use text.Mathlib.Text.{◌==◌ as str_eq}
use release_radar.Prelude.{
  ℕ, Bool, true, false, String, Option, none, some, List, [], ◌∷◌, if◌then◌else◌,
}
use release_radar.Prelude.Text.{is_empty}
use release_radar.MasterData.{Editor, init, update, add, remove}
use release_radar.MasterData.Lists.{toggle_in}
use release_radar.MasterData.Retry.{Retry, exponential}

pub record KindMeta : Type 0 where
  pub label : String
  pub icon : String
  pub color : String

-- `CHANNEL_KIND[kind] || CHANNEL_KIND.webhook`
unfoldable pub channel_kind : String → KindMeta
channel_kind kind =
    if str_eq kind "teams"
    then record { label = "Microsoft Teams"; icon = "people"; color = "#4f6bed" }
    else if str_eq kind "slack"
    then record { label = "Slack"; icon = "people"; color = "#4a154b" }
    else if str_eq kind "email"
    then record { label = "Email"; icon = "link"; color = "#5eead4" }
    else record { label = "Custom Webhook"; icon = "bolt"; color = "#fbbf24" }

pub data Integration : Type 0 where
  teams :
      (tenant_id team_id channel_id webhook_url : String) (mentions : List String) (retry : Retry)
      → Integration
  email : (smtp_host from to cc auth_method : String) → Integration
  webhook : (url method : String) → Integration

pub record QuietHours : Type 0 where
  pub enabled : Bool
  pub from : Option String
  pub to : Option String

pub record Channel : Type 0 where
  pub id : String
  pub key : String
  pub name : String
  pub kind : String
  pub color : String
  pub description : String
  pub health : String
  pub integration : Integration
  pub template : String
  pub min_advance_hours : ℕ
  pub send_on : List String
  pub quiet_hours : QuietHours
  pub locale : String

abbrev pub channel_id : Channel → String
channel_id c = c.id

abbrev pub retry_of : ℕ → ℕ → Bool → Retry
retry_of attempts delay alert = record {
  max_attempts = attempts;
  strategy = exponential;
  initial_delay_sec = delay;
  alert_on_final_fail = alert;
}

abbrev pub quiet : Bool → String → String → QuietHours
quiet enabled from to = record { enabled = enabled; from = some from; to = some to }

-- The texts of the two default templates are arguments; what is not read by the code, the interval
-- of `dedupeMin`, is left out.
module _ (template_np template_prod : String) where
  abbrev pub channels_init : List Channel
  channels_init =
      record {
        id = "ch-1";
        key = "TMS_NP";
        name = "TMS Non-Prod Announcements";
        kind = "teams";
        color = "#a78bfa";
        description =
            "Internal heads-up channel for all non-prod deployments. Used as the 'announces on' channel for the non-prod stage.";
        health = "ok";
        integration =
            teams "8d5b1a2c-4e7a-44b2-b3f0-2a3a51e5c7d1" "19:a4b2…@thread.tacv2"
              "tms-nonprod-deploys"
              "https://prod-12.westeurope.logic.azure.com/workflows/abc.../triggers/manual/paths/invoke?api-version=2016-06-01&sig=…"
              ("@tms-platform" ∷ []) (retry_of 3 5 false);
        template = template_np;
        min_advance_hours = 1;
        send_on = "scheduled" ∷ "active" ∷ "done" ∷ "failed" ∷ [];
        quiet_hours = quiet false "22:00" "07:00";
        locale = "de-CH";
      }
      ∷ record {
        id = "ch-2";
        key = "TMS_PROD";
        name = "TMS Production Announcements";
        kind = "teams";
        color = "#5eead4";
        description =
            "Customer-facing announcement channel. SNOW-change-bound. Anything posted here is visible to tenant owners.";
        health = "ok";
        integration =
            teams "8d5b1a2c-4e7a-44b2-b3f0-2a3a51e5c7d1" "19:c9d4…@thread.tacv2" "tms-prod-deploys"
              "https://prod-12.westeurope.logic.azure.com/workflows/def.../triggers/manual/paths/invoke?api-version=2016-06-01&sig=…"
              ("@tms-platform" ∷ "@customer-success" ∷ []) (retry_of 5 10 true);
        template = template_prod;
        min_advance_hours = 168;
        send_on = "scheduled" ∷ "active" ∷ "done" ∷ "failed" ∷ [];
        quiet_hours = quiet true "20:00" "06:00";
        locale = "de-CH";
      }
      ∷ record {
        id = "ch-3";
        key = "SNOW_CHG";
        name = "ServiceNow Change Email";
        kind = "email";
        color = "#fbbf24";
        description = "Auto-attaches the rollout summary to the linked SNOW change request.";
        health = "warn";
        integration =
            email "smtp.example.com:587" "releaseradar@tms-platform.example"
              "change-mgmt@example.com" "tms-platform-leads@example.com" "OAuth2";
        template =
            "ReleaseRadar attaches: {{rollout.title}} ({{rollout.id}})\nSee {{rollout.runbook}}";
        min_advance_hours = 168;
        send_on = "scheduled" ∷ [];
        quiet_hours = record { enabled = false; from = none; to = none };
        locale = "en";
      }
      ∷ []

  unfoldable pub channels_editor : Editor Channel
  unfolding init
  channels_editor = init channel_id channels_init

  abbrev pub new_integration : String → Integration
  new_integration kind =
      if str_eq kind "teams"
      then teams "" "" "" "" [] (retry_of 3 5 false)
      else if str_eq kind "email"
      then email "" "" "" "" "OAuth2"
      else webhook "" "POST"

  unfoldable pub add_channel : String → String → Editor Channel → Editor Channel
  unfolding add
  add_channel kind id e =
      add channel_id
        (record {
          id = id;
          key = "NEW_CHANNEL";
          name = "New channel";
          kind = kind;
          color = "#7c8cff";
          description = "";
          health = "untested";
          integration = new_integration kind;
          template = template_np;
          min_advance_hours = 24;
          send_on = "scheduled" ∷ [];
          quiet_hours = quiet false "22:00" "07:00";
          locale = "en";
        })
        e

unfoldable pub remove_channel : String → Editor Channel → Editor Channel
unfolding remove
remove_channel id e = remove channel_id id e

unfoldable pub update_integration : (Integration → Integration) → Editor Channel → Editor Channel
unfolding update
update_integration patch e =
    update channel_id (λ c. record c { integration = patch c.integration }) e

unfoldable pub toggle_send_on : String → Channel → Channel
unfolding toggle_in
toggle_send_on v c = record c { send_on = toggle_in c.send_on v }

-- What a test message shows: nothing yet, that it is being sent, or how it went.
pub data TestResult : Type 0 where
  untested sending sent missing : TestResult

-- `webhookUrl || smtpHost`; a webhook has neither.
abbrev pub address : Integration → String
address (teams tenant team channel url mentions retry) = url
address (email host from to cc auth) = host
address (webhook url method) = ""

-- The result that follows `sending`, 700 ms later.
unfoldable pub test_result : Channel → TestResult
test_result c = if is_empty (address c.integration) then missing else sent
