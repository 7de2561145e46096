-- ===== src/Alerts/Teams.antt =====
-- internal/pkg/alerts/teams.go: the payload for Microsoft Teams. The maps with fixed keys are records;
-- the keys "@type" and "@context" are `card_type` and `card_context`.
use reloader_operator.Base.{
  String, Bool, true, List, [], ◌∷◌, ◌++◌, ◌==◌, if◌then◌else◌, concat, pairs,
}
use reloader_operator.Api.{Time}
use reloader_operator.Alerts.Message.{Message}

pub record TeamsFact : Type 0 where
  pub name : String
  pub value : String

pub record TeamsSection : Type 0 where
  pub activity_title : String
  pub activity_subtitle : String
  pub activity_image : String
  pub facts : List TeamsFact
  pub markdown : Bool

pub record TeamsPayload : Type 0 where
  pub card_type : String
  pub card_context : String
  pub summary : String
  pub theme_color : String
  pub sections : List TeamsSection

abbrev teams_color_by_name : String → String
teams_color_by_name color =
    if color == "good"
    then "00ff00"
    else if color == "warning"
    then "ffcc00"
    else if color == "danger"
    then "ff0000"
    else "00ff00"

unfoldable pub teams_color : Message → String
teams_color message = if message.error == "" then teams_color_by_name message.color else "ff0000"

abbrev pub fact : String → String → TeamsFact
fact name value = record { name = name; value = value }

-- The loop over the custom fields.
abbrev pub teams_custom : List (String × String) → List TeamsFact
teams_custom [] = []
teams_custom ((key, value) ∷ fields) = fact key value ∷ teams_custom fields

abbrev pub teams_error : String → List TeamsFact
teams_error error = if error == "" then [] else fact "Error" error ∷ []

module _ (format_time : Time → String) where
  unfoldable pub teams_facts : Message → List TeamsFact
  teams_facts message =
      fact "Workload" (concat (message.workload_kind ∷ "/" ∷ message.workload_name ∷ []))
      ∷ fact "Namespace" message.workload_namespace
      ∷ fact "Resource" (concat (message.resource_kind ∷ "/" ∷ message.resource_name ∷ []))
      ∷ fact "Strategy" message.reload_strategy
      ∷ fact "Time" (format_time message.timestamp)
      ∷ (teams_custom (pairs message.fields) ++ teams_error message.error)

  unfoldable pub teams_payload : Message → TeamsPayload
  unfolding teams_color teams_facts
  teams_payload message = record {
    card_type = "MessageCard";
    card_context = "https://schema.org/extensions";
    summary = message.title;
    theme_color = teams_color message;
    sections =
        record {
          activity_title = message.title;
          activity_subtitle = message.text;
          activity_image =
              "https://raw.githubusercontent.com/stakater/Reloader/master/assets/web/reloader-round-100px.png";
          facts = teams_facts message;
          markdown = true;
        }
        ∷ [];
  }
