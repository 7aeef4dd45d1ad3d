-- ===== src/Alerts/Examples.antt =====
-- Tests of pkg/cost/alerter.go, and the theorem about it at a channel of type slack.
use gpuautoscaler.Prelude.{◌≡◌, refl, pos, none, some, [], ◌∷◌, entry, lookup}
use gpuautoscaler.Prelude.Fixed.{fixed}
use gpuautoscaler.Prelude.Results.{ok, message}
use gpuautoscaler.Budget.Model.{AlertMessage}
use gpuautoscaler.Alerts.Send.{AlertChannel, Outside, send_alert}
use gpuautoscaler.Alerts.Sent.{IsSent, send_alert-IsSent}

abbrev alert : AlertMessage fixed
alert = record {
  budget_name = "b";
  alert_name = "half";
  severity = "warning";
  current_spend = fixed.of_int (pos 50);
  monthly_limit = fixed.of_int (pos 100);
  percentage_used = fixed.of_int (pos 50);
  threshold = fixed.of_int (pos 50);
}

abbrev slack : AlertChannel
slack = record { type = "slack"; config = some (entry "webhook_url" "https://slack" ∷ []) }

abbrev outside : Outside fixed
outside = record {
  marshal = λ payload. ok "{}";
  refuses = λ url. none;
  server = λ req. ok (pos 200);
}

-- A channel without a configuration fails before anything is sent.
unconfigured :
    send_alert fixed outside (record slack { config = none }) alert
    ≡ ([], some (message "slack webhook_url not configured"))
unfolding send_alert
unconfigured = refl

send_alert-IsSent_example : IsSent fixed outside slack alert (send_alert fixed outside slack alert)
unfolding send_alert lookup
send_alert-IsSent_example = send_alert-IsSent fixed outside slack alert refl
