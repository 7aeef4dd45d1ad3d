-- ===== src/Alerts/Sent.antt =====
-- When `SendAlert` reports success, and what was sent then.
use gpuautoscaler.Prelude.{
  ◌≡◌, ◌≢◌, ◌⊎◌, refl, sym, ap, ◌∙◌, ℤ, pos, ltb_ℤ, true, false, Bool-cases, Option, none, some,
  inl, inr, String, str_eq, eq_iff, [], ◌∷◌, if◌then◌else◌, arith,
}
use mathlib.Core.Bool.{false≢true}
use mathlib.Core.Path.{subst}
use gpuautoscaler.Prelude.Float.{Float64}
use gpuautoscaler.Prelude.Results.{Result, Error, ok, err}
use gpuautoscaler.Kube.{text_at}
use gpuautoscaler.Budget.Model.{AlertMessage}
use gpuautoscaler.Alerts.Send.{
  AlertChannel, Request, Server, Outcome, Accepts, slack_accepts, pagerduty_accepts,
  webhook_accepts, answered, posted, encoded, Outside, send_email_alert, send_slack_alert,
  send_pager_duty_alert, send_webhook_alert, auth_of, send_alert,
}

-- A server took one request, which went to this URL with this header.
pub record IsDelivered (server : Server) (url : String) (auth : Option String) (out : Outcome)
    : Type 0 where
  pub request : Request
  pub status : ℤ
  pub to : request.url ≡ url
  pub with_header : request.authorization ≡ auth
  pub sent : out.0 ≡ request ∷ []
  pub answer : server request ≡ ok status
  pub low : ltb_ℤ status (pos 200) ≡ false
  pub high : ltb_ℤ status (pos 300) ≡ true

-- A channel that takes only codes from 200 to 299 for success.
record IsStrict (accepts : Accepts) : Type 0 where
  only :
      (status : ℤ)
      → accepts.is_accepted status ≡ true
      → (ltb_ℤ status (pos 200) ≡ false) × (ltb_ℤ status (pos 300) ≡ true)

slack-IsStrict : IsStrict slack_accepts
slack-IsStrict = record { only = λ status h. ground (arith, h) }

pagerduty-IsStrict : IsStrict pagerduty_accepts
pagerduty-IsStrict = record { only = λ status h. ground (arith, h) }

webhook-IsStrict : IsStrict webhook_accepts
webhook-IsStrict = record { only = λ status h. ground (arith, h) }

answered-IsDelivered :
    (server : Server) (accepts : Accepts) (req : Request) (answer : Result ℤ)
    → IsStrict accepts
    → server req ≡ answer
    → (answered accepts req answer).1 ≡ none
    → IsDelivered server req.url req.authorization (answered accepts req answer)
answered-IsDelivered server accepts req (err e) strict same h = absurd (some≢none h)
  where
    some≢none : {x : Error} → some x ≢ none
    some≢none e = cc
answered-IsDelivered server accepts req (ok status) strict same h =
    elim (Bool-cases (accepts.is_accepted status)) [
      | inl accepted ↦
          let (low, high) = strict.only status accepted in
          record {
            request = req;
            status = status;
            to = refl;
            with_header = refl;
            sent = refl;
            answer = same;
            low = low;
            high = high;
          }
      | inr rejected ↦ let h' = rw rejected at h in cc
    ]

module _ (refuses : String → Option Error) (server : Server) (accepts : Accepts)
    (strict : IsStrict accepts) where
  posted-IsDelivered :
      (req : Request) (refused : Option Error)
      → (posted refuses server accepts req refused).1 ≡ none
      → IsDelivered server req.url req.authorization (posted refuses server accepts req refused)
  posted-IsDelivered req (some e) h = cc
  posted-IsDelivered req none h = answered-IsDelivered server accepts req (server req) strict refl h

  encoded-IsDelivered :
      (url : String) (auth : Option String) (body : Result String)
      → (encoded refuses server accepts url auth body).1 ≡ none
      → IsDelivered server url auth (encoded refuses server accepts url auth body)
  encoded-IsDelivered url auth (err e) h = cc
  encoded-IsDelivered url auth (ok body) h = posted-IsDelivered _ (refuses url) h

module _ (fl : Float64) (o : Outside fl) (channel : AlertChannel) (msg : AlertMessage fl) where
  -- Where a channel that talks to a server sends to, and with which header.
  abbrev pub url_of : String
  url_of =
      if str_eq channel.type "slack"
      then text_at "webhook_url" channel.config
      else if str_eq channel.type "pagerduty"
      then "https://events.pagerduty.com/v2/enqueue"
      else text_at "url" channel.config

  abbrev pub header_of : Option String
  header_of = if str_eq channel.type "webhook" then auth_of fl channel else none

  -- What success means: of a channel of type email that an address is configured and no request was made,
  -- of any other that the server took the one request.
  abbrev pub IsSent : Outcome → Type 0
  IsSent out =
      ((channel.type ≡ "email") × (text_at "to" channel.config ≢ "") × (out.0 ≡ []))
      ⊎ IsDelivered o.server url_of header_of out

  email-IsSent :
      channel.type ≡ "email"
      → (send_email_alert fl channel).1 ≡ none
      → IsSent (send_email_alert fl channel)
  email-IsSent type h = elim (Bool-cases (str_eq (text_at "to" channel.config) "")) [
    | inl missing ↦ let h' = rw missing at h in cc
    | inr given ↦
        rw given (inl (type, (λ blank. false≢true (sym given ∙ (eq_iff _ "").1 blank)), refl))
  ]

  slack-IsSent :
      channel.type ≡ "slack"
      → (send_slack_alert fl o channel msg).1 ≡ none
      → IsSent (send_slack_alert fl o channel msg)
  slack-IsSent type h = elim (Bool-cases (str_eq (text_at "webhook_url" channel.config) "")) [
    | inl missing ↦ let h' = rw missing at h in cc
    | inr given ↦
        rw (given, type)
          (inr (
            encoded-IsDelivered o.refuses o.server slack_accepts slack-IsStrict _ none _
              (rw given at h)))
  ]

  pagerduty-IsSent :
      channel.type ≡ "pagerduty"
      → (send_pager_duty_alert fl o channel msg).1 ≡ none
      → IsSent (send_pager_duty_alert fl o channel msg)
  pagerduty-IsSent type h = elim (Bool-cases (str_eq (text_at "routing_key" channel.config) "")) [
    | inl missing ↦ let h' = rw missing at h in cc
    | inr given ↦
        rw (given, type)
          (inr (
            encoded-IsDelivered o.refuses o.server pagerduty_accepts pagerduty-IsStrict _ none _
              (rw given at h)))
  ]

  webhook-IsSent :
      channel.type ≡ "webhook"
      → (send_webhook_alert fl o channel msg).1 ≡ none
      → IsSent (send_webhook_alert fl o channel msg)
  webhook-IsSent type h = elim (Bool-cases (str_eq (text_at "url" channel.config) "")) [
    | inl missing ↦ let h' = rw missing at h in cc
    | inr given ↦
        rw (given, type)
          (inr (
            encoded-IsDelivered o.refuses o.server webhook_accepts webhook-IsStrict _
              (auth_of fl channel) _ (rw given at h)))
  ]

  -- If `SendAlert` reports no error, then either the channel is of type email with an address, and no
  -- request was made, or exactly one request went to the URL of the channel, with its header, and the
  -- server answered it with a code from 200 to 299.
  pub send_alert-IsSent :
      (send_alert fl o channel msg).1 ≡ none → IsSent (send_alert fl o channel msg)
  unfolding send_alert
  send_alert-IsSent h = elim (Bool-cases (str_eq channel.type "email")) [
    | inl email ↦ by_channel (rw email refl) (email-IsSent ((eq_iff _ "email").0 email))
    | inr e ↦ elim (Bool-cases (str_eq channel.type "slack")) [
      | inl slack ↦ by_channel (rw (e, slack) refl) (slack-IsSent ((eq_iff _ "slack").0 slack))
      | inr s ↦ elim (Bool-cases (str_eq channel.type "pagerduty")) [
        | inl duty ↦
            by_channel (rw (e, s, duty) refl) (pagerduty-IsSent ((eq_iff _ "pagerduty").0 duty))
        | inr d ↦ elim (Bool-cases (str_eq channel.type "webhook")) [
          | inl hook ↦
              by_channel (rw (e, s, d, hook) refl) (webhook-IsSent ((eq_iff _ "webhook").0 hook))
          | inr w ↦ let h' = rw (e, s, d, w) at h in cc
        ]
      ]
    ]
  ]
    where
      by_channel :
          {out : Outcome}
          → send_alert fl o channel msg ≡ out
          → (out.1 ≡ none → IsSent out)
          → IsSent (send_alert fl o channel msg)
      by_channel same f = subst IsSent (sym same) (f (ap (λ (x : Outcome). x.1) (sym same) ∙ h))
