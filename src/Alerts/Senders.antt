-- ===== src/Alerts/Senders.antt =====
-- internal/pkg/alerts/types.go, slack.go, teams.go, gchat.go: the senders. The HTTP client of each is the
-- platform's, and its timeout of ten seconds is among the errors of a request.
use reloader_operator.Base.{String}

pub record SlackSender : Type 0 where
  pub webhook_url : String

abbrev pub new_slack_sender : String → SlackSender
new_slack_sender webhook_url = record { webhook_url = webhook_url }

pub record TeamsSender : Type 0 where
  pub webhook_url : String

abbrev pub new_teams_sender : String → TeamsSender
new_teams_sender webhook_url = record { webhook_url = webhook_url }

pub record GoogleChatSender : Type 0 where
  pub webhook_url : String

abbrev pub new_google_chat_sender : String → GoogleChatSender
new_google_chat_sender webhook_url = record { webhook_url = webhook_url }

-- The interface, with the types that implement it.
pub data Sender : Type 0 where
  slack : SlackSender → Sender
  teams : TeamsSender → Sender
  google_chat : GoogleChatSender → Sender

-- `Name()`
abbrev pub sender_name : Sender → String
sender_name (slack s) = "Slack"
sender_name (teams t) = "Microsoft Teams"
sender_name (google_chat g) = "Google Chat"
