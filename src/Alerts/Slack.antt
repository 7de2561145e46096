-- ===== src/Alerts/Slack.antt =====
-- internal/pkg/alerts/slack.go: the payload for Slack. The maps with fixed keys are records.
use reloader_operator.Base.{
  ℕ, ◌-◌, ◌/◌, String, Bool, true, false, List, [], ◌∷◌, ◌++◌, ◌==◌, if◌then◌else◌, leb, concat,
  pairs,
}
use reloader_operator.Api.{Time}
use reloader_operator.Alerts.Message.{Message}

pub record SlackField : Type 0 where
  pub title : String
  pub value : String
  pub short : Bool

-- `negsuc n` is -(n + 1).
pub data ℤ : Type 0 where
  pos : ℕ → ℤ
  negsuc : ℕ → ℤ

-- `Time.Unix`: the seconds since 1970, from the nanoseconds since the zero instant.
unfoldable pub unix : Time → ℤ
unix t =
    let seconds = t / 1_000_000_000 in
    if leb 62_135_596_800 seconds
    then pos (seconds - 62_135_596_800)
    else negsuc (62_135_596_799 - seconds)

pub record SlackAttachment : Type 0 where
  pub fallback : String
  pub color : String
  pub title : String
  pub text : String
  pub fields : List SlackField
  pub footer : String
  pub footer_icon : String
  pub ts : ℤ

pub record SlackPayload : Type 0 where
  pub attachments : List SlackAttachment

-- The colour by the message's colour field; another text, and none, leave the default.
abbrev slack_color_by_name : String → String
slack_color_by_name color =
    if color == "good"
    then "#36a64f"
    else if color == "warning"
    then "#ffcc00"
    else if color == "danger"
    then "#ff0000"
    else "#36a64f"

unfoldable pub slack_color : Message → String
slack_color message = if message.error == "" then slack_color_by_name message.color else "#ff0000"

abbrev pub short_field : String → String → SlackField
short_field title value = record { title = title; value = value; short = true }

-- The loop over the custom fields, in the order in which it meets them.
abbrev pub slack_custom : List (String × String) → List SlackField
slack_custom [] = []
slack_custom ((key, value) ∷ fields) = short_field key value ∷ slack_custom fields

abbrev pub slack_error : String → List SlackField
slack_error error =
    if error == "" then [] else record { title = "Error"; value = error; short = false } ∷ []

unfoldable pub slack_fields : Message → List SlackField
slack_fields message =
    short_field "Workload" (concat (message.workload_kind ∷ "/" ∷ message.workload_name ∷ []))
    ∷ short_field "Namespace" message.workload_namespace
    ∷ short_field "Resource" (concat (message.resource_kind ∷ "/" ∷ message.resource_name ∷ []))
    ∷ short_field "Strategy" message.reload_strategy
    ∷ (slack_custom (pairs message.fields) ++ slack_error message.error)

unfoldable pub slack_payload : Message → SlackPayload
unfolding slack_color slack_fields unix
slack_payload message = record {
  attachments =
      record {
        fallback = concat (message.title ∷ ": " ∷ message.text ∷ []);
        color = slack_color message;
        title = message.title;
        text = message.text;
        fields = slack_fields message;
        footer = "Reloader Operator";
        footer_icon =
            "https://raw.githubusercontent.com/stakater/Reloader/master/assets/web/reloader-round-100px.png";
        ts = unix message.timestamp;
      }
      ∷ [];
}
