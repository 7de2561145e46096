-- ===== src/Alerts/Sending/Answers.antt =====
-- When a send succeeds, and what it calls.
use reloader_operator.Base.{ℕ, String, none, some, ◌∷◌, ◌≡◌, ◌⊎◌, ◌↔◌, inl, inr, refl, arith}
use reloader_operator.Kube.{Result, ok, err, Failure}
use reloader_operator.Platform.{
  Platform, State, posted, Payload, for_slack, for_teams, for_google_chat,
}
use reloader_operator.Alerts.Message.{Message}
use reloader_operator.Alerts.Senders.{Sender, slack, teams, google_chat}
use reloader_operator.Alerts.Slack.{slack_payload}
use reloader_operator.Alerts.Teams.{teams_payload}
use reloader_operator.Alerts.GoogleChat.{google_chat_payload}
use reloader_operator.Alerts.Sending.{
  answer_failure, post_body, post, slack_send, teams_send, google_chat_send, send,
}

-- The payload of a sender, and where it posts it.
abbrev pub payload_of : Platform → Sender → Message → Payload
payload_of p (slack s) message = for_slack (slack_payload message)
payload_of p (teams t) message = for_teams (teams_payload p.format_time message)
payload_of p (google_chat g) message = for_google_chat (google_chat_payload p.format_time message)

abbrev pub url_of : Sender → String
url_of (slack s) = s.webhook_url
url_of (teams t) = t.webhook_url
url_of (google_chat g) = g.webhook_url

-- The body is posted, and the answer has status 200.
abbrev pub Accepted : (p : Platform) → String → Result String → State p.World → Type 0
Accepted p url body s =
    (text : String) × (body ≡ ok text)
    × (p.new_request url text ≡ none)
    × ((p.do_request url text s.world).0 ≡ ok 200)

module _ (p : Platform) (name url : String) where
  answer_success_iff : (r : Result ℕ) → (answer_failure p name r ≡ none) ↔ (r ≡ ok 200)
  unfolding answer_failure
  answer_success_iff r = ground arith

  post_body_success_iff :
      (text : String) (f : Failure) (s : State p.World)
      → ((post_body p name url text f s).0 ≡ none)
        ↔ ((f ≡ none) × ((p.do_request url text s.world).0 ≡ ok 200))
  unfolding post_body
  post_body_success_iff text none s =
      ground (arith, answer_success_iff (p.do_request url text s.world).0)
  post_body_success_iff text (some e) s = ground arith

  post_success_iff :
      (body : Result String) (s : State p.World)
      → ((post p name url body s).0 ≡ none) ↔ Accepted p url body s
  unfolding post
  post_success_iff (ok text) s =
      let (there, back) = post_body_success_iff text (p.new_request url text) s in
      (
        (λ h. (text, refl, (there h).0, (there h).1)),
        λ (t, q, n, h). back (ground arith, ground arith),
      )
  post_success_iff (err e) s = ((λ h. cc), λ (t, q, n, h). cc)

  post_body-PostsAtMost :
      (text : String) (f : Failure) (s : State p.World)
      → ((post_body p name url text f s).1.calls ≡ s.calls)
        ⊎ ((post_body p name url text f s).1.calls ≡ posted url text ∷ s.calls)
  unfolding post_body
  post_body-PostsAtMost text none s = inr refl
  post_body-PostsAtMost text (some e) s = inl refl

  post-PostsAtMost :
      (body : Result String) (s : State p.World)
      → ((post p name url body s).1.calls ≡ s.calls)
        ⊎ ((text : String) × (body ≡ ok text)
            × ((post p name url body s).1.calls ≡ posted url text ∷ s.calls))
  unfolding post
  post-PostsAtMost (ok text) s = elim (post_body-PostsAtMost text (p.new_request url text) s) [
    | inl e ↦ inl e
    | inr e ↦ inr (text, refl, e)
  ]
  post-PostsAtMost (err e) s = inl refl

module _ (p : Platform) where
  -- The request for the payload of a sender.
  posts :
      (sender : Sender) (message : Message) (s : State p.World)
      → (name : String) × (send p sender message s
          ≡ post p name (url_of sender) (p.marshal_payload (payload_of p sender message)) s)
  unfolding send slack_send teams_send google_chat_send
  posts (slack x) message s = ("Slack", refl)
  posts (teams x) message s = ("Teams", refl)
  posts (google_chat x) message s = ("Google Chat", refl)

  -- A send succeeds exactly when the payload can be encoded, the request can be made, and the answer to
  -- it has status 200.
  pub send-success_iff :
      (sender : Sender) (message : Message) (s : State p.World)
      → ((send p sender message s).0 ≡ none)
        ↔ Accepted p (url_of sender) (p.marshal_payload (payload_of p sender message)) s
  send-success_iff sender message s =
      let (name, e) = posts sender message s in
      rw e (
        post_success_iff p name (url_of sender) (p.marshal_payload (payload_of p sender message)) s)

  -- No request is made, or one with the encoded payload.
  pub send-PostsAtMost :
      (sender : Sender) (message : Message) (s : State p.World)
      → ((send p sender message s).1.calls ≡ s.calls)
        ⊎ ((body : String) × (p.marshal_payload (payload_of p sender message) ≡ ok body)
            × ((send p sender message s).1.calls ≡ posted (url_of sender) body ∷ s.calls))
  send-PostsAtMost sender message s =
      let (name, e) = posts sender message s in
      rw e (
        post-PostsAtMost p name (url_of sender) (p.marshal_payload (payload_of p sender message)) s)
