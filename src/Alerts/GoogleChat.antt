-- ===== src/Alerts/GoogleChat.antt =====
-- internal/pkg/alerts/gchat.go: the payload for Google Chat. The maps with fixed keys are records; a
-- widget is its "keyValue" map, in which "contentMultiline" may be missing.
use reloader_operator.Base.{
  String, Bool, true, Option, none, some, List, [], ◌∷◌, ◌++◌, ◌==◌, if◌then◌else◌, concat, pairs,
}
use reloader_operator.Api.{Time}
use reloader_operator.Alerts.Message.{Message}

pub record Widget : Type 0 where
  pub top_label : String
  pub content : String
  pub content_multiline : Option Bool

pub record CardHeader : Type 0 where
  pub title : String
  pub subtitle : String
  pub image_url : String

pub record CardSection : Type 0 where
  pub header : CardHeader
  pub widgets : List Widget

pub record Card : Type 0 where
  pub sections : List CardSection

pub record GoogleChatPayload : Type 0 where
  pub cards : List Card

abbrev pub widget : String → String → Widget
widget label content = record { top_label = label; content = content; content_multiline = none }

-- The loop over the custom fields.
abbrev pub custom_widgets : List (String × String) → List Widget
custom_widgets [] = []
custom_widgets ((key, value) ∷ fields) = widget key value ∷ custom_widgets fields

abbrev pub error_widget : String → List Widget
error_widget error =
    if error == ""
    then []
    else record { top_label = "Error"; content = error; content_multiline = some true } ∷ []

module _ (format_time : Time → String) where
  unfoldable pub google_chat_widgets : Message → List Widget
  google_chat_widgets message =
      widget "Workload" (concat (message.workload_kind ∷ "/" ∷ message.workload_name ∷ []))
      ∷ widget "Namespace" message.workload_namespace
      ∷ widget "Resource" (concat (message.resource_kind ∷ "/" ∷ message.resource_name ∷ []))
      ∷ widget "Strategy" message.reload_strategy
      ∷ widget "Time" (format_time message.timestamp)
      ∷ (custom_widgets (pairs message.fields) ++ error_widget message.error)

  unfoldable pub google_chat_payload : Message → GoogleChatPayload
  unfolding google_chat_widgets
  google_chat_payload message = record {
    cards =
        record {
          sections =
              record {
                header = record {
                  title = message.title;
                  subtitle = message.text;
                  image_url =
                      "https://raw.githubusercontent.com/stakater/Reloader/master/assets/web/reloader-round-100px.png";
                };
                widgets = google_chat_widgets message;
              }
              ∷ [];
        }
        ∷ [];
  }
