-- ===== src/Alerts/Manager/Delivery.antt =====
-- When an alert is delivered.
use reloader_operator.Base.{
  String, true, false, none, [], ◌∷◌, ◌≡◌, ◌≢◌, ◌⊎◌, ◌↔◌, ◌∙◌, ap, sym, inl, inr, refl, arith,
  subst, eq_iff, ◌==◌, Bool-cases,
}
use reloader_operator.Kube.{GoError, ok, err}
use reloader_operator.Platform.{Platform, State, posted}
use reloader_operator.Alerts.Message.{Message}
use reloader_operator.Alerts.Senders.{Sender, slack, teams, google_chat}
use reloader_operator.Alerts.Sending.{send}
use reloader_operator.Alerts.Sending.Answers.{
  url_of, payload_of, Accepted, send-success_iff, send-PostsAtMost,
}
use reloader_operator.Alerts.Manager.{
  AlertManager, unknown_sink, senders_for, add_info, send_all, send_to, send_reload_alert,
}

-- The sink of a sender that posts to a URL.
pub data Serves (url : String) : String → Sender → Type 0 where
  to_slack : Serves url "slack" (slack (record { webhook_url = url }))
  to_teams : Serves url "teams" (teams (record { webhook_url = url }))
  to_google_chat : Serves url "gchat" (google_chat (record { webhook_url = url }))
  to_webhook : Serves url "webhook" (slack (record { webhook_url = url }))

abbrev Served : String → String → Type 0
Served url sink =
    ((sender : Sender) × Serves url sink sender × (senders_for url sink ≡ ok (sender ∷ [])))
    ⊎ (((sender : Sender) → Serves url sink sender → ⊥)
        × (e : GoError) × (senders_for url sink ≡ err e))

served : (url sink : String) → Served url sink
unfolding senders_for
served url sink = elim (Bool-cases (sink == "slack")) [
  | inl e ↦
      rw ((eq_iff sink "slack").0 e) (inl (slack (record { webhook_url = url }), to_slack, refl))
  | inr a ↦ elim (Bool-cases (sink == "teams")) [
    | inl e ↦
        rw ((eq_iff sink "teams").0 e) (inl (teams (record { webhook_url = url }), to_teams, refl))
    | inr b ↦ elim (Bool-cases (sink == "gchat")) [
      | inl e ↦
          rw ((eq_iff sink "gchat").0 e)
            (inl (google_chat (record { webhook_url = url }), to_google_chat, refl))
      | inr c ↦ elim (Bool-cases (sink == "webhook")) [
        | inl e ↦
            rw ((eq_iff sink "webhook").0 e)
              (inl (slack (record { webhook_url = url }), to_webhook, refl))
        | inr d ↦ inr (unserved url sink a b c d, unknown_sink sink, rw (a, b, c, d) refl)
      ]
    ]
  ]
]
  where
    unserved :
        (url sink : String)
        → (sink == "slack") ≡ false
        → (sink == "teams") ≡ false
        → (sink == "gchat") ≡ false
        → (sink == "webhook") ≡ false
        → (sender : Sender) → Serves url sink sender
        → ⊥
    unserved url _ a b c d _ to_slack = ground arith
    unserved url _ a b c d _ to_teams = ground arith
    unserved url _ a b c d _ to_google_chat = ground arith
    unserved url _ a b c d _ to_webhook = ground arith

-- The URL to which the sender of a sink posts.
Serves-url : (url sink : String) (sender : Sender) → Serves url sink sender → url_of sender ≡ url
Serves-url url _ _ to_slack = refl
Serves-url url _ _ to_teams = refl
Serves-url url _ _ to_google_chat = refl
Serves-url url _ _ to_webhook = refl

-- A sink has one sender.
Serves-unique :
    (url sink : String) (x y : Sender)
    → Serves url sink x
    → senders_for url sink ≡ ok (y ∷ [])
    → x ≡ y
unfolding senders_for
Serves-unique url _ _ y to_slack h = ground arith
Serves-unique url _ _ y to_teams h = ground arith
Serves-unique url _ _ y to_google_chat h = ground arith
Serves-unique url _ _ y to_webhook h = ground arith

module _ (p : Platform) (message : Message) (sender : Sender) (s : State p.World) where
  send_one :
      (((send_to p message (ok (sender ∷ [])) s).0 ≡ none) ↔ ((send p sender message s).0 ≡ none))
      × ((send_to p message (ok (sender ∷ [])) s).1 ≡ (send p sender message s).1)
  unfolding send_all
  send_one = (ground arith, refl)

module _ (p : Platform) (m : AlertManager) (message : Message) where
  abbrev informed : Message
  informed = add_info m.alert_additional_info message

  -- There is a sender for the manager's sink; the payload that it makes of the message, with the
  -- manager's information added, can be encoded; a request with it to the manager's URL can be made;
  -- and the answer to that request has status 200.
  abbrev pub Delivered : State p.World → Type 0
  Delivered s =
      (sender : Sender) × Serves m.alert_webhook_url m.alert_sink sender
      × Accepted p m.alert_webhook_url (p.marshal_payload (payload_of p sender informed)) s

  abbrev Request : String → Sender → State p.World → Type 0
  Request url sender s = Accepted p url (p.marshal_payload (payload_of p sender informed)) s

  Delivered-iff :
      (s : State p.World)
      → ((send_to p informed (senders_for m.alert_webhook_url m.alert_sink) s).0 ≡ none)
        ↔ Delivered s
  Delivered-iff s = elim (served m.alert_webhook_url m.alert_sink) [
    | inl (sender, serves, q) ↦
        let one = (send_one p informed sender s).0 in
        let accepted = send-success_iff p sender informed s in
        let to = Serves-url m.alert_webhook_url m.alert_sink sender serves in
        rw q (
          (λ h. (sender, serves, subst (λ url. Request url sender s) to (accepted.0 (one.0 h)))),
          λ (x, w, h).
              let same = Serves-unique m.alert_webhook_url m.alert_sink x sender w q in
              one.1 (
                accepted.1 (
                  subst (λ url. Request url sender s) (sym to)
                    (subst (λ y. Request m.alert_webhook_url y s) same h))),
        )
    | inr (none_serves, e, q) ↦ rw q ((λ h. cc), λ (x, w, h). absurd (none_serves x w))
  ]

  -- An alert is no error exactly when alerts are off, or a URL is set and the alert is delivered: the
  -- sink is known, the payload is encoded, the request is made and answered with status 200.
  pub send_reload_alert-success_iff :
      (s : State p.World)
      → ((send_reload_alert p m message s).0 ≡ none)
        ↔ ((m.alert_on_reload ≡ false) ⊎ ((m.alert_webhook_url ≢ "") × Delivered s))
  unfolding send_reload_alert
  send_reload_alert-success_iff s = ground (arith, eq_iff m.alert_webhook_url "", Delivered-iff s)

  sent_calls :
      (s : State p.World)
      → ((send_to p informed (senders_for m.alert_webhook_url m.alert_sink) s).1.calls ≡ s.calls)
        ⊎ ((body : String) × ((send_to p informed
                (senders_for m.alert_webhook_url m.alert_sink)
                s).1.calls
              ≡ posted m.alert_webhook_url body ∷ s.calls))
  sent_calls s = elim (served m.alert_webhook_url m.alert_sink) [
    | inl (sender, serves, q) ↦
        rw (q, (send_one p informed sender s).1)
          (elim (send-PostsAtMost p sender informed s) [
            | inl e ↦ inl e
            | inr (body, b, e) ↦
                inr (body, e ∙ ap (λ url. posted url body ∷ s.calls) (Serves-url _ _ sender serves))
          ])
    | inr (none_serves, e, q) ↦ rw q (inl refl)
  ]

  -- An alert makes one request at most, to the URL of the manager; none if alerts are off or no URL is
  -- set.
  pub send_reload_alert-calls :
      (s : State p.World)
      → ((send_reload_alert p m message s).1.calls ≡ s.calls)
        ⊎ ((m.alert_on_reload ≡ true)
            × (m.alert_webhook_url ≢ "")
            × (body : String) × ((send_reload_alert p m message s).1.calls
                ≡ posted m.alert_webhook_url body ∷ s.calls))
  unfolding send_reload_alert
  send_reload_alert-calls s = elim (sent_calls s) [
    | inl e ↦ inl (ground arith)
    | inr (body, e) ↦ elim (Bool-cases m.alert_on_reload) [
      | inl on ↦ elim (Bool-cases (m.alert_webhook_url == "")) [
        | inl unset ↦ inl (ground arith)
        | inr set ↦
            inr (on, (λ q. ground (arith, eq_iff m.alert_webhook_url "")), body, ground arith)
      ]
      | inr off ↦ inl (ground arith)
    ]
  ]

  -- An alert is no error exactly when alerts are off, or a URL is set and the alert is delivered: the
  -- sink is known, the payload is encoded, the request is made and answered with status 200. It makes one request at most, to the URL of the manager; none if alerts are off or no
  -- URL is set.
  pub send_reload_alert-outcome :
      (s : State p.World)
      → (((send_reload_alert p m message s).0 ≡ none)
          ↔ ((m.alert_on_reload ≡ false) ⊎ ((m.alert_webhook_url ≢ "") × Delivered s)))
        × (((send_reload_alert p m message s).1.calls ≡ s.calls)
            ⊎ ((m.alert_on_reload ≡ true)
                × (m.alert_webhook_url ≢ "")
                × (body : String) × ((send_reload_alert p m message s).1.calls
                    ≡ posted m.alert_webhook_url body ∷ s.calls)))
  send_reload_alert-outcome s = (send_reload_alert-success_iff s, send_reload_alert-calls s)
