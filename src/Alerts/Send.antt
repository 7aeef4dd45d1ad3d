-- ===== src/Alerts/Send.antt =====
-- `SendAlert` and the four channels. `json.Marshal`, the making of a request and the answer of the server
-- are arguments; the texts in a payload that are formatted from the message are left to the encoder.
use gpuautoscaler.Prelude.{
  ℤ, pos, ltb_ℤ, eqb_ℤ, Bool, false, Option, none, some, String, str_eq, List, [], ◌∷◌, GoMap,
  lookup, if◌then◌else◌,
}
use gpuautoscaler.Prelude.Float.{Float64}
use gpuautoscaler.Prelude.Results.{Result, Error, ok, err, message, wrapped}
use gpuautoscaler.Kube.{text_at}
use gpuautoscaler.Budget.Model.{AlertMessage}

pub record AlertChannel : Type 0 where
  pub type : String
  pub config : GoMap String

-- `getSeverityColor`
abbrev pub get_severity_color : String → String
get_severity_color severity =
    if str_eq severity "critical"
    then "danger"
    else if str_eq severity "warning"
    then "warning"
    else if str_eq severity "info"
    then "good"
    else "#808080"

-- `mapSeverity`
abbrev pub map_severity : String → String
map_severity severity =
    if str_eq severity "critical"
    then "critical"
    else if str_eq severity "warning"
    then "warning"
    else if str_eq severity "info"
    then "info"
    else "warning"

pub record Request : Type 0 where
  pub url : String
  pub body : String
  pub authorization : Option String

-- What a server answered with, or an error of the connection.
abbrev pub Server : Type 0
Server = Request → Result ℤ

-- The requests that were made, and the error.
abbrev pub Outcome : Type 0
Outcome = List Request × Option Error

-- The codes that a channel takes for success, and the text of the error for the others.
pub record Accepts : Type 0 where
  pub name : String
  pub rejected : String
  pub is_accepted : ℤ → Bool

abbrev pub slack_accepts : Accepts
slack_accepts = record {
  name = "slack alert";
  rejected = "slack returned non-200 status";
  is_accepted = λ status. eqb_ℤ status (pos 200);
}

abbrev pub pagerduty_accepts : Accepts
pagerduty_accepts = record {
  name = "pagerduty alert";
  rejected = "pagerduty returned non-202 status";
  is_accepted = λ status. eqb_ℤ status (pos 202);
}

abbrev pub webhook_accepts : Accepts
webhook_accepts = record {
  name = "webhook alert";
  rejected = "webhook returned non-2xx status";
  is_accepted = λ status. if ltb_ℤ status (pos 200) then false else ltb_ℤ status (pos 300);
}

abbrev pub answered : Accepts → Request → Result ℤ → Outcome
answered accepts req (err e) = (req ∷ [], some (wrapped "failed to send" e))
answered accepts req (ok status) =
    (req ∷ [], if accepts.is_accepted status then none else some (message accepts.rejected))

-- `http.NewRequestWithContext` refuses a URL that it cannot parse.
abbrev pub posted : (String → Option Error) → Server → Accepts → Request → Option Error → Outcome
posted refuses server accepts req (some e) = ([], some (wrapped "failed to create request" e))
posted refuses server accepts req none = answered accepts req (server req)

abbrev pub encoded :
    (String → Option Error) → Server → Accepts → String → Option String → Result String → Outcome
encoded refuses server accepts url auth (err e) = ([], some (wrapped "failed to marshal" e))
encoded refuses server accepts url auth (ok body) =
    posted refuses server accepts (record { url = url; body = body; authorization = auth })
      (refuses url)

module _ (fl : Float64) where
  -- What is encoded: the fields beside the message itself.
  pub data Payload : Type 0 where
    slack_message : String → AlertMessage fl → Payload
    pagerduty_event : String → String → AlertMessage fl → Payload
    webhook_payload : AlertMessage fl → Payload

  pub record Outside : Type 0 where
    pub marshal : Payload → Result String
    pub refuses : String → Option Error
    pub server : Server

  -- Nothing is sent: the message is logged.
  abbrev pub send_email_alert : AlertChannel → Outcome
  send_email_alert channel =
      if str_eq (text_at "to" channel.config) ""
      then ([], some (message "email 'to' address not configured"))
      else ([], none)

  abbrev pub send_slack_alert : Outside → AlertChannel → AlertMessage fl → Outcome
  send_slack_alert o channel msg =
      let url = text_at "webhook_url" channel.config in
      if str_eq url ""
      then ([], some (message "slack webhook_url not configured"))
      else encoded o.refuses o.server slack_accepts url none
          (o.marshal (slack_message (get_severity_color msg.severity) msg))

  abbrev pub send_pager_duty_alert : Outside → AlertChannel → AlertMessage fl → Outcome
  send_pager_duty_alert o channel msg =
      let key = text_at "routing_key" channel.config in
      if str_eq key ""
      then ([], some (message "pagerduty routing_key not configured"))
      else encoded o.refuses o.server pagerduty_accepts "https://events.pagerduty.com/v2/enqueue"
          none (o.marshal (pagerduty_event key (map_severity msg.severity) msg))

  abbrev pub auth_of : AlertChannel → Option String
  auth_of channel =
      let header = text_at "auth_header" channel.config in
      if str_eq header "" then none else some header

  abbrev pub send_webhook_alert : Outside → AlertChannel → AlertMessage fl → Outcome
  send_webhook_alert o channel msg =
      let url = text_at "url" channel.config in
      if str_eq url ""
      then ([], some (message "webhook url not configured"))
      else encoded o.refuses o.server webhook_accepts url (auth_of channel)
          (o.marshal (webhook_payload msg))

  unfoldable pub send_alert : Outside → AlertChannel → AlertMessage fl → Outcome
  unfolding lookup
  send_alert o channel msg =
      if str_eq channel.type "email"
      then send_email_alert channel
      else if str_eq channel.type "slack"
      then send_slack_alert o channel msg
      else if str_eq channel.type "pagerduty"
      then send_pager_duty_alert o channel msg
      else if str_eq channel.type "webhook"
      then send_webhook_alert o channel msg
      else ([], some (message "unknown channel type"))
