-- ===== src/Notifier.antt =====
-- notifier/alertmanager.go: the payload for Alertmanager, and what `Send` reports. JSON, the HTTP
-- client and the clock are parameters; logging and metrics are left out.
pub mod Payload
mod Tests
use chalert.Prelude.{
  ℕ, ◌+◌, ◌-◌, ◌*◌, ◌/◌, ◌%◌, ◌^◌, Bool, true, false, not, ◌==◌, ltb, List, [], ◌∷◌, ◌++◌, Option,
  none, some, Text, codes, is_empty, Map, ℤ, pos, negsuc, ltb_ℤ, eqb_ℤ, to_word, of_word,
  if◌then◌else◌,
}
use chalert.Time.{Time, Duration, add, minute}
use chalert.Rule.Instance.{AlertState, inactive, pending, firing, AlertInstance}

pub record AlertManager : Type 0 where
  pub urls : List Text
  pub external_url : Text
  pub username : Text
  pub password : Text
  pub bearer_token : Text

-- `Config` of the package, and `New` with the time limit of its HTTP client.
pub record Config : Type 0 where
  pub urls : List Text
  pub timeout : Duration
  pub external_url : Text
  pub username : Text
  pub password : Text
  pub bearer_token : Text

unfoldable pub new_alert_manager : Config → AlertManager × Duration
new_alert_manager cfg = (
  record {
    urls = cfg.urls;
    external_url = cfg.external_url;
    username = cfg.username;
    password = cfg.password;
    bearer_token = cfg.bearer_token;
  },
  if eqb_ℤ cfg.timeout (pos 0) then pos 10000000000 else cfg.timeout,
)

pub record AmAlert : Type 0 where
  pub status : Text
  pub labels : Map Text Text
  pub annotations : Map Text Text
  pub starts_at : Time
  pub ends_at : Time
  pub generator_url : Text

-- `4 * d`, which wraps around.
abbrev pub four_times : Duration → Duration
four_times d = of_word ((4 * to_word d) % 2 ^ 64)

module _ {F : Type 0} where
  pub delta : AlertInstance F → Duration
  delta a =
      if ltb_ℤ (pos 0) a.evaluation_interval
      then four_times a.evaluation_interval
      else four_times minute

  pub generator_url : AlertManager → AlertInstance F → Text
  generator_url am a =
      if not (is_empty am.external_url)
      then am.external_url
        ++ codes "/api/v1/alerts?group="
        ++ a.group_name
        ++ codes "&alert="
        ++ a.alert_name
      else []

  -- The loop of `buildPayload` at one alert, when the clock shows `now`.
  unfoldable pub am_alert : AlertManager → Time → AlertInstance F → Option AmAlert
  unfolding delta generator_url
  am_alert am now a =
      let with_status : Text → Time → Option AmAlert = λ status ends_at. some (record {
        status = status;
        labels = a.labels;
        annotations = a.annotations;
        starts_at = a.active_at;
        ends_at = ends_at;
        generator_url = generator_url am a;
      }) in
      elim a.state [
        | firing ↦ with_status (codes "firing") (add now (delta a))
        | inactive ↦ with_status (codes "resolved") a.resolved_at
        | pending ↦ none
      ]

  -- The alerts of the payload.
  pub build_payload : AlertManager → Time → List (AlertInstance F) → List AmAlert
  unfolding am_alert
  build_payload am now [] = []
  build_payload am now (a ∷ rest) =
      let others = build_payload am now rest in
      elim (am_alert am now a) [ none ↦ others | some aa ↦ aa ∷ others ]

pub data Auth : Type 0 where
  bearer : Text → Auth
  basic : Text → Text → Auth
  no_auth : Auth

pub record Request : Type 0 where
  pub endpoint : Text
  pub auth : Auth
  pub body : Text

-- What the HTTP client gives: a status and a body, an error, or a panic.
pub data Response : Type 0 where
  response : ℕ → Text → Response
  request_failed : Text → Response
  request_panics : Response

pub data SendError : Type 0 where
  building_payload : Text → SendError
  notification_errors : List (Text × Text) → SendError

auth_of : AlertManager → Auth
auth_of am =
    if not (is_empty am.bearer_token)
    then bearer am.bearer_token
    else if not (is_empty am.username)
    then basic am.username am.password
    else no_auth

-- `sendTo` and the goroutine around it: an error of a target, if it has one. A panic is recovered
-- and gives none. The text of an HTTP error (`http_error`) is formatted by `fmt`.
pub send_to : (Request → Response) → (ℕ → Text → Text) → AlertManager → Text → Text → Option Text
unfolding auth_of
send_to client http_error am payload url =
    let request : Request = record {
      endpoint = url ++ codes "/api/v2/alerts";
      auth = auth_of am;
      body = payload;
    } in
    elim (client request) [
      | response status body ↦ if status / 100 == 2 then none else some (http_error status body)
      | request_failed e ↦ some e
      | request_panics ↦ none
    ]

-- The errors of the targets, with their URLs, in the order of the targets; the source has them in
-- the order in which the targets answer.
pub send_errors : (Text → Option Text) → List Text → List (Text × Text)
send_errors send_one [] = []
send_errors send_one (u ∷ us) =
    let others = send_errors send_one us in
    elim (send_one u) [ none ↦ others | some e ↦ (u, e) ∷ others ]

abbrev if_any : List (Text × Text) → Option SendError
if_any [] = none
if_any (e ∷ es) = some (notification_errors (e ∷ es))

-- `Send`; `marshal` is `json.Marshal`, which gives a text or an error.
pub send :
    {F : Type 0}
    → (List AmAlert → Bool × Text)
    → (Request → Response)
    → (ℕ → Text → Text)
    → AlertManager
    → Time
    → List (AlertInstance F)
    → Option SendError
unfolding build_payload send_to send_errors
send marshal client http_error am now [] = none
send marshal client http_error am now (a ∷ alerts) =
    let (ok, payload) = marshal (build_payload am now (a ∷ alerts)) in
    let result =
      if ok
      then if_any (send_errors (send_to client http_error am payload) am.urls)
      else some (building_payload payload) in
    elim am.urls [ [] ↦ none | u ∷ us ↦ result ]
