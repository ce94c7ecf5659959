-- ===== src/Rule/Instance.antt =====
-- rule/rule.go: alert instances, the state of an alerting rule, and the operations that neither
-- query nor notify. `F` stands for `float64`. The mutex is not modelled: each operation is one
-- step, as holding the lock makes it.
pub mod Restored
use chalert.Prelude.{
  ℕ, Bool, true, false, ◌==◌, List, [], ◌∷◌, map, Option, none, some, Text, Map, insert, nat_eq,
  codes, pos, if◌then◌else◌,
}
use chalert.Time.{Time, Duration}
use chalert.Datasource.{Metric, QuerierParams}
use chalert.Config

pub data AlertState : Type 0 where
  inactive pending firing : AlertState

pub state_string : AlertState → Text
state_string firing = codes "firing"
state_string pending = codes "pending"
state_string inactive = codes "inactive"

pub record AlertInstance (F : Type 0) : Type 0 where
  pub id : ℕ
  pub rule_id : ℕ
  pub group_name : Text
  pub alert_name : Text
  pub labels : Map Text Text
  pub annotations : Map Text Text
  pub state : AlertState
  pub value : F
  pub expr : Text
  pub active_at : Time
  pub fired_at : Time
  pub resolved_at : Time
  pub last_sent : Time
  pub keep_firing_since : Time
  pub for_dur : Duration
  pub evaluation_interval : Duration

pub record Evaluation : Type 0 where
  pub rule_id : ℕ
  pub group_name : Text
  pub alert_name : Text
  pub evaluated_at : Time
  pub duration : Duration
  pub ok : Bool
  pub samples : ℕ
  pub error : Text

-- The instances of a rule by their identity. (The source maps to pointers that nothing else holds:
-- what leaves the rule are copies.)
abbrev pub Alerts : Type 0 → Type 0
Alerts F = Map ℕ (AlertInstance F)

-- `querier` is given by the parameters that it was built with.
pub record AlertingRule (F : Type 0) : Type 0 where
  pub rule_id : ℕ
  pub name : Text
  pub expr : Text
  pub for_dur : Duration
  pub keep_fire : Duration
  pub labels : Map Text Text
  pub ann_tpls : Map Text Text
  pub group_name : Text
  pub debug : Bool
  pub querier : QuerierParams
  pub group_interval : Duration
  pub alerts : Alerts F
  pub last_eval : Time
  pub last_duration : Duration
  pub last_samples : ℕ
  pub last_err : Option Text

abbrev is_set : Option Bool → Bool
is_set none = false
is_set (some b) = b

pub is_active : AlertState → Bool
is_active pending = true
is_active firing = true
is_active inactive = false

module _ {F : Type 0} where
  unfoldable pub new_alerting_rule : Text → Duration → Config.Rule → AlertingRule F
  new_alerting_rule group_name group_interval cfg =
      let debug = is_set cfg.debug in
      record {
        rule_id = cfg.id;
        name = cfg.alert;
        expr = cfg.expr;
        for_dur = cfg.for_dur;
        keep_fire = cfg.keep_firing_for;
        labels = cfg.labels;
        ann_tpls = cfg.annotations;
        group_name = group_name;
        debug = debug;
        querier = record { evaluation_interval = group_interval; query_params = []; debug = debug };
        group_interval = group_interval;
        alerts = [];
        last_eval = pos 0;
        last_duration = pos 0;
        last_samples = 0;
        last_err = none;
      }

  -- `GetAlerts`.
  unfoldable pub get_alerts : AlertingRule F → List (AlertInstance F)
  get_alerts ar = map (λ p. p.1) ar.alerts

  unfoldable pub restore_one : ℕ → AlertInstance F → Alerts F → Alerts F
  unfolding is_active
  restore_one rule_id inst alerts =
      if inst.rule_id == rule_id
      then (if is_active inst.state then insert inst.id inst alerts else alerts)
      else alerts

  unfoldable pub restore_all : ℕ → List (AlertInstance F) → Alerts F → Alerts F
  unfolding restore_one
  restore_all rule_id [] alerts = alerts
  restore_all rule_id (inst ∷ rest) alerts =
      restore_all rule_id rest (restore_one rule_id inst alerts)

  -- `Restore`.
  unfoldable pub restore : List (AlertInstance F) → AlertingRule F → AlertingRule F
  unfolding restore_all
  restore instances ar = record ar { alerts = restore_all ar.rule_id instances ar.alerts }
