-- ===== src/Notifier/Tests.antt =====
-- The notifier of notifier/alertmanager.go at one alert and two servers.
use chalert.Prelude.{nat_eq, ℕ, ◌≡◌, ◌↔◌, ◌⊎◌, true, [], ◌∷◌, All, none, codes, text_Eq, pos}
use chalert.Time.{zero_time}
use chalert.Rule.Instance.{firing, AlertInstance}
use chalert.Notifier.{AlertManager, AmAlert, send, send_to, response}
use chalert.Notifier.Payload.{send_succeeds_iff}

abbrev alert : AlertInstance ℕ
alert = record {
  id = 3;
  rule_id = 7;
  group_name = codes "http";
  alert_name = codes "Down";
  labels = [];
  annotations = [];
  state = firing;
  value = 5;
  expr = codes "SELECT 1";
  active_at = pos 10;
  fired_at = pos 20;
  resolved_at = zero_time;
  last_sent = pos 20;
  keep_firing_since = zero_time;
  for_dur = pos 5;
  evaluation_interval = pos 60;
}

abbrev manager : AlertManager
manager = record {
  urls = codes "http://a" ∷ codes "http://b" ∷ [];
  external_url = [];
  username = [];
  password = [];
  bearer_token = [];
}

abbrev am : AmAlert
am = record {
  status = codes "firing";
  labels = [];
  annotations = [];
  starts_at = pos 10;
  ends_at = pos 340;
  generator_url = [];
}

send_succeeds_iff_example :
    (send (λ p. (true, [])) (λ r. response 200 []) (λ n s. s) manager (pos 100) (alert ∷ []) ≡ none)
    ↔ ((alert ∷ [] ≡ [])
        ⊎ ((manager.urls ≡ [])
            ⊎ ((true ≡ true)
                × All
                    (λ u. send_to (λ r. response 200 []) (λ n s. s) manager [] u ≡ none)
                    manager.urls)))
send_succeeds_iff_example =
    send_succeeds_iff (λ p. (true, [])) (λ r. response 200 []) (λ n s. s) manager (pos 100)
      (alert ∷ [])
