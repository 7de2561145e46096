-- ===== src/Alerts/Sending/Contents.antt =====
-- What the three payloads tell.
use reloader_operator.Base.{
  String, List, [], ◌∷◌, ◌++◌, map, ◌≡◌, ap, ◌==◌, if◌then◌else◌, concat, pairs, arith,
}
use reloader_operator.Api.{Time}
use reloader_operator.Alerts.Message.{Message}
use reloader_operator.Alerts.Slack.{SlackField, slack_fields, slack_custom, slack_error}
use reloader_operator.Alerts.Teams.{TeamsFact, teams_facts, teams_custom, teams_error}
use reloader_operator.Alerts.GoogleChat.{Widget, google_chat_widgets, custom_widgets, error_widget}

abbrev Labelled : Type 0
Labelled = List (String × String)

-- What every alert tells: the workload, its namespace, the resource and the strategy.
abbrev pub summary : Message → Labelled
summary m =
    ("Workload", concat (m.workload_kind ∷ "/" ∷ m.workload_name ∷ []))
    ∷ ("Namespace", m.workload_namespace)
    ∷ ("Resource", concat (m.resource_kind ∷ "/" ∷ m.resource_name ∷ []))
    ∷ ("Strategy", m.reload_strategy)
    ∷ []

abbrev pub error_label : String → Labelled
error_label error = if error == "" then [] else ("Error", error) ∷ []

-- The custom fields, and the error of a failed reload.
abbrev pub extras : Message → Labelled
extras m = pairs m.fields ++ error_label m.error

abbrev pub of_field : SlackField → String × String
of_field f = (f.title, f.value)

abbrev pub of_fact : TeamsFact → String × String
of_fact f = (f.name, f.value)

abbrev pub of_widget : Widget → String × String
of_widget w = (w.top_label, w.content)

module _ (error : String) where
  slack_extras :
      (fields : Labelled)
      → map of_field (slack_custom fields ++ slack_error error) ≡ fields ++ error_label error
  slack_extras [] = ground arith
  slack_extras ((k, v) ∷ fields) = ap (λ fs. (k, v) ∷ fs) (slack_extras fields)

  teams_extras :
      (fields : Labelled)
      → map of_fact (teams_custom fields ++ teams_error error) ≡ fields ++ error_label error
  teams_extras [] = ground arith
  teams_extras ((k, v) ∷ fields) = ap (λ fs. (k, v) ∷ fs) (teams_extras fields)

  google_chat_extras :
      (fields : Labelled)
      → map of_widget (custom_widgets fields ++ error_widget error) ≡ fields ++ error_label error
  google_chat_extras [] = ground arith
  google_chat_extras ((k, v) ∷ fields) = ap (λ fs. (k, v) ∷ fs) (google_chat_extras fields)

-- The three payloads tell the same: the summary, the custom fields and the error, in this order, each
-- under the same label; Teams and Google Chat tell the time too, behind the summary.
pub contents_agree :
    (m : Message) (format_time : Time → String)
    → (map of_field (slack_fields m) ≡ summary m ++ extras m)
      × (map of_fact (teams_facts format_time m)
          ≡ summary m ++ (("Time", format_time m.timestamp) ∷ extras m))
      × (map of_widget (google_chat_widgets format_time m)
          ≡ summary m ++ (("Time", format_time m.timestamp) ∷ extras m))
unfolding slack_fields teams_facts google_chat_widgets
contents_agree m format_time = (
  ap (λ fs. summary m ++ fs) (slack_extras m.error (pairs m.fields)),
  ap (λ fs. summary m ++ (("Time", format_time m.timestamp) ∷ fs))
      (teams_extras m.error (pairs m.fields)),
  ap (λ fs. summary m ++ (("Time", format_time m.timestamp) ∷ fs))
      (google_chat_extras m.error (pairs m.fields)),
)
