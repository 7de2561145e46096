-- ===== src/Alerts/Manager.antt =====
-- internal/pkg/alerts/alert_manager.go: one alert for each reload. The senders of a call run side by
-- side; there is one at most, so the model runs them in their order.
pub mod Delivery
use reloader_operator.Base.{
  ℕ, length, map, decimal, join, String, Bool, none, some, List, [], ◌∷◌, ◌==◌, if◌then◌else◌,
  assign,
}
use reloader_operator.Kube.{GoError, errorf, wrap, Failure, Result, ok, err}
use reloader_operator.Platform.{Platform, M, pure, ◌>>=◌}
use reloader_operator.Alerts.Sending.{send}
use reloader_operator.Alerts.Message.{Message}
use reloader_operator.Alerts.Senders.{
  Sender, slack, teams, google_chat, new_slack_sender, new_teams_sender, new_google_chat_sender,
  sender_name,
}

pub record AlertManager : Type 0 where
  pub alert_on_reload : Bool
  pub alert_sink : String
  pub alert_webhook_url : String
  pub alert_additional_info : String

unfoldable pub new_alert_manager : Bool → String → String → String → AlertManager
new_alert_manager alert_on_reload alert_sink webhook_url additional_info = record {
  alert_on_reload = alert_on_reload;
  alert_sink = alert_sink;
  alert_webhook_url = webhook_url;
  alert_additional_info = additional_info;
}

abbrev pub unknown_sink : String → GoError
unknown_sink sink =
    errorf ("unknown alert sink type: " ∷ sink ∷ " (supported: slack, teams, gchat, webhook)" ∷ [])

-- The senders for a sink, with the URL; another sink is an error.
unfoldable pub senders_for : String → String → Result (List Sender)
senders_for url sink =
    if sink == "slack"
    then ok (slack (new_slack_sender url) ∷ [])
    else if sink == "teams"
    then ok (teams (new_teams_sender url) ∷ [])
    else if sink == "gchat"
    then ok (google_chat (new_google_chat_sender url) ∷ [])
    else if sink == "webhook"
    then ok (slack (new_slack_sender url) ∷ [])
    else err (unknown_sink sink)

unfoldable pub add_info : String → Message → Message
add_info info message =
    if info == ""
    then message
    else record message { fields = assign "Additional Info" info message.fields }

abbrev pub collect : Sender → Failure → List GoError → List GoError
collect s none errors = errors
collect s (some e) errors = wrap (sender_name s ∷ []) e ∷ errors

-- The error that counts the failures and the senders, and lists the failures.
abbrev pub failed_alerts : ℕ → List GoError → Failure
failed_alerts senders [] = none
failed_alerts senders (e ∷ errors) = some (
    errorf (
      "failed to send "
      ∷ decimal (length (e ∷ errors))
      ∷ "/"
      ∷ decimal senders
      ∷ " alerts: ["
      ∷ join " " (map (λ (x : GoError). x.text) (e ∷ errors))
      ∷ "]"
      ∷ []))

module _ (p : Platform) where
  unfoldable pub send_all : Message → List Sender → M p.World (List GoError)
  send_all message [] = pure []
  send_all message (s ∷ senders) = do
    failure ← send p s message
    errors ← send_all message senders
    pure (collect s failure errors)

  abbrev pub send_to : Message → Result (List Sender) → M p.World Failure
  send_to message (err e) = pure (some e)
  send_to message (ok senders) = do
    errors ← send_all message senders
    pure (failed_alerts (length senders) errors)

  unfoldable pub send_reload_alert : AlertManager → Message → M p.World Failure
  send_reload_alert m message =
      if m.alert_on_reload
      then (if m.alert_webhook_url == ""
          then pure (
              some (
                errorf ("alert-on-reload is enabled but alert-webhook-url is not configured" ∷ [])))
          else send_to (add_info m.alert_additional_info message)
              (senders_for m.alert_webhook_url m.alert_sink))
      else pure none
