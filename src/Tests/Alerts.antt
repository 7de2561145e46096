-- ===== src/Tests/Alerts.antt =====
-- Alerts of the sample cluster.
use reloader_operator.Base.{String, true, false, none, [], ◌∷◌, ◌++◌, ◌≡◌, ◌≢◌, ◌⊎◌, ◌↔◌, map}
use reloader_operator.Platform.{posted}
use reloader_operator.Alerts.Message.{Message, new_reload_error_message}
use reloader_operator.Alerts.Slack.{slack_fields}
use reloader_operator.Alerts.Teams.{teams_facts}
use reloader_operator.Alerts.GoogleChat.{google_chat_widgets}
use reloader_operator.Alerts.Sending.Contents.{
  of_field, of_fact, of_widget, summary, extras, contents_agree,
}
use reloader_operator.Alerts.Manager.{AlertManager, send_reload_alert}
use reloader_operator.Alerts.Manager.Delivery.{Delivered, send_reload_alert-outcome}
use reloader_operator.Tests.Sample.{platform, cluster, start}

abbrev url : String
url = "https://hooks.example/1"

abbrev manager : AlertManager
manager = record {
  alert_on_reload = true;
  alert_sink = "teams";
  alert_webhook_url = url;
  alert_additional_info = "staging";
}

abbrev message : Message
message = new_reload_error_message "Deployment" "api" "shop" "Secret" "db" "env-vars" "refused"

contents_agree_example :
    (map of_field (slack_fields message) ≡ summary message ++ extras message)
    × (map of_fact (teams_facts (λ t. "now") message)
        ≡ summary message ++ (("Time", "now") ∷ extras message))
    × (map of_widget (google_chat_widgets (λ t. "now") message)
        ≡ summary message ++ (("Time", "now") ∷ extras message))
contents_agree_example = contents_agree message (λ t. "now")

send_reload_alert-outcome_example :
    (((send_reload_alert (platform cluster) manager message start).0 ≡ none) ↔ (
      (manager.alert_on_reload ≡ false)
      ⊎ ((manager.alert_webhook_url ≢ "") × Delivered (platform cluster) manager message start)))
    × (((send_reload_alert (platform cluster) manager message start).1.calls ≡ [])
        ⊎ ((manager.alert_on_reload ≡ true)
            × (manager.alert_webhook_url ≢ "")
            × (body : String) × ((send_reload_alert
                  (platform cluster)
                  manager
                  message
                  start).1.calls
                ≡ posted url body ∷ [])))
send_reload_alert-outcome_example =
    send_reload_alert-outcome (platform cluster) manager message start
