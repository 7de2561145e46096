-- ===== src/Alerts/Sending.antt =====
-- internal/pkg/alerts/slack.go, teams.go, gchat.go: `Send`. What the three have in common is shared.
pub mod Answers
pub mod Contents
use reloader_operator.Base.{ℕ, String, none, some, [], ◌∷◌, nat_eq, if◌then◌else◌, decimal}
use reloader_operator.Kube.{errorf, wrap, Failure, Result, ok, err}
use reloader_operator.Platform.{
  Platform, for_slack, for_teams, for_google_chat, M, pure, write, ◌>>=◌, posted,
}
use reloader_operator.Alerts.Message.{Message}
use reloader_operator.Alerts.Senders.{
  SlackSender, TeamsSender, GoogleChatSender, Sender, slack, teams, google_chat,
}
use reloader_operator.Alerts.Slack.{slack_payload}
use reloader_operator.Alerts.Teams.{teams_payload}
use reloader_operator.Alerts.GoogleChat.{google_chat_payload}

module _ (p : Platform) where
  -- `name` is how a sender is called in the errors of its `Send`.
  module _ (name : String) where
    -- The answer to the POST: any status but 200 is an error.
    unfoldable pub answer_failure : Result ℕ → Failure
    answer_failure (err e) = some (wrap ("failed to send " ∷ name ∷ " webhook" ∷ []) e)
    answer_failure (ok status) =
        if nat_eq status 200
        then none
        else some (errorf (name ∷ " webhook returned status " ∷ decimal status ∷ []))

    -- The POST of a body, for the error of its request.
    unfoldable pub post_body : String → String → Failure → M p.World Failure
    post_body url body (some e) = pure (some (wrap ("failed to create request" ∷ []) e))
    post_body url body none = do
      answer ← write (posted url body) (p.do_request url body)
      pure (answer_failure answer)

    -- The request for a payload, once it is encoded.
    unfoldable pub post : String → Result String → M p.World Failure
    post url (err e) = pure (some (wrap ("failed to marshal " ∷ name ∷ " payload" ∷ []) e))
    post url (ok body) = post_body url body (p.new_request url body)

  unfoldable pub slack_send : SlackSender → Message → M p.World Failure
  slack_send s message =
      post "Slack" s.webhook_url (p.marshal_payload (for_slack (slack_payload message)))

  unfoldable pub teams_send : TeamsSender → Message → M p.World Failure
  teams_send t message =
      post "Teams" t.webhook_url
        (p.marshal_payload (for_teams (teams_payload p.format_time message)))

  unfoldable pub google_chat_send : GoogleChatSender → Message → M p.World Failure
  google_chat_send g message =
      post "Google Chat" g.webhook_url
        (p.marshal_payload (for_google_chat (google_chat_payload p.format_time message)))

  -- `Send` at the interface
  unfoldable pub send : Sender → Message → M p.World Failure
  send (slack s) message = slack_send s message
  send (teams t) message = teams_send t message
  send (google_chat g) message = google_chat_send g message
