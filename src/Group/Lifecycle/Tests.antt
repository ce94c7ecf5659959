-- ===== src/Group/Lifecycle/Tests.antt =====
-- Tests of the life of a group (rule/group.go).
use chalert.Prelude.{
  ℕ, ◌≡◌, ◌↔◌, ◌≤◌, refl, true, false, List, [], ◌∷◌, Option, none, codes, length, pos, eqb_ℤ,
  ltb_ℤ, arith, text_eq,
}
use chalert.Datasource.{Metric}
use chalert.Config
use chalert.Rule.Exec.{returned}
use chalert.Rule.Retire.{StateStore, Retirements}
use chalert.Group.{Group, GroupOptions, build_rules, new_group}
use chalert.Group.Eval.{eval}
use chalert.Group.Lifecycle.{
  Phase, selecting, crashed, Loop, Moment, opened, evaluate, begin, update, send_update, close_done,
  Event, begins, ticks, applies, receives, offers, begin_step, tick_step, receive_step, apply_step,
  offer_step, Trace, stops, goes, hand_over,
}
use chalert.Group.Lifecycle.Order.{waiting, replay, replay-opened}
use chalert.Group.Lifecycle.Definition.{hand_over_taken, hand_over_lost}
use chalert.Group.Lifecycle.Ends.{can_return}
use chalert.Group.Lifecycle.Ticker.{start_panics}

abbrev metric : Metric ℕ
metric = record {
  labels = record { name = codes "a"; value = codes "1" } ∷ [];
  timestamps = [];
  values = 5 ∷ [];
}

-- A query whose result has one row, at the time 100.
abbrev now : Moment ℕ
now = record {
  env = record {
    query = λ q e t. returned (metric ∷ []) none;
    templates = λ k t d. none;
    float_zero = 0;
    resend_delay = pos 60;
  };
  error_text = λ e. [];
  clock = λ r. record { start = pos 100; query_duration = pos 1; duration = pos 2 };
  arrive = λ runs. runs;
  tick = pos 100;
  at = pos 100;
}

abbrev rule_of : ℕ → Config.Rule
rule_of id = record {
  alert = codes "Down";
  expr = codes "SELECT 1";
  for_dur = pos 0;
  labels = [];
  annotations = [];
  keep_firing_for = pos 0;
  record_name = [];
  debug = none;
  id = id;
}

-- A group with the rule `id`, without an interval of its own.
abbrev config_of : ℕ → Config.Group
config_of id = record {
  name = codes "http";
  interval = pos 0;
  rules = rule_of id ∷ [];
  labels = [];
  concurrency = pos 1;
  eval_delay = none;
  limit = none;
  connection = [];
  checksum = id ∷ [];
  file = codes "a.yaml";
}

abbrev options_of : ℕ → GroupOptions
options_of interval = record {
  default_interval = pos interval;
  external_labels = [];
  default_limit = pos 0;
}

abbrev group_of : ℕ → Group ℕ
group_of id = new_group (λ d. codes "1m0s") (options_of 60) (config_of id)

abbrev no_store : Option (StateStore ℕ ℕ)
no_store = none

abbrev no_retirements : Retirements ℕ
no_retirements = record { unwritten_writes = []; retired_rows_pending = 0 }

abbrev fresh : Group ℕ → Loop ℕ ℕ
fresh g = opened g no_retirements 0

-- The first evaluation is over, and the rule 8 is handed over.
abbrev begun : Loop ℕ ℕ
begun = begin no_store now (fresh (group_of 7))

abbrev offered : Loop ℕ ℕ
offered = send_update (group_of 8) begun

abbrev received : Loop ℕ ℕ
received = record offered { phase = Phase.updating (group_of 8); offered = [] }

abbrev updated : Loop ℕ ℕ
updated = update no_store (pos 110) (group_of 8) received

abbrev taking : List (Event ℕ ℕ)
taking = receives ∷ applies (pos 110) ∷ ticks now ∷ []

abbrev all_events : List (Event ℕ ℕ)
all_events = begins now ∷ offers (group_of 8) ∷ taking

taking-Trace : Trace no_store taking offered (evaluate no_store now updated)
unfolding begin update evaluate new_group
taking-Trace = goes receives _ _ received _ (receive_step (group_of 8) [] offered refl refl) (
    goes (applies (pos 110)) _ _ updated _ (apply_step (pos 110) (group_of 8) received refl)
      (goes (ticks now) _ _ _ _ (tick_step now updated refl) (stops _)))

all-Trace : Trace no_store all_events (fresh (group_of 7)) (evaluate no_store now updated)
unfolding begin new_group
all-Trace =
    goes (begins now) _ _ begun _ (begin_step now (fresh (group_of 7)) refl)
      (goes (offers (group_of 8)) _ _ offered _ (offer_step (group_of 8) begun) taking-Trace)

replay-opened_example :
    let l = evaluate no_store now updated in
    replay no_store all_events (record {
      group = group_of 7;
      retirements = no_retirements;
      stored = 0;
      definitions = group_of 8 ∷ [];
    })
    ≡ record {
      group = l.group;
      retirements = l.retirements;
      stored = l.stored;
      definitions = waiting l;
    }
replay-opened_example =
    replay-opened no_store all_events (group_of 7) no_retirements 0 (evaluate no_store now updated)
      all-Trace

hand_over_taken_example : (evaluate no_store now updated).group.checksum ≡ (group_of 8).checksum
unfolding begin evaluate update new_group hand_over text_eq eval build_rules Config.is_alerting
hand_over_taken_example =
    hand_over_taken no_store taking (group_of 8) begun (evaluate no_store now updated) refl
      taking-Trace refl refl

-- A reload to the rule 8 and back to the rule 7 leaves the rule 8.
hand_over_lost_example :
    let received = record (hand_over (group_of 8) begun) {
      phase = Phase.updating (group_of 8);
      offered = [];
    } in
    let after = update no_store (pos 110) (group_of 8) (hand_over (group_of 7) received) in
    Trace no_store (receives ∷ []) (hand_over (group_of 8) begun) received
    × Trace no_store (applies (pos 110) ∷ []) (hand_over (group_of 7) received) after
    × (after.phase ≡ selecting)
    × (waiting after ≡ [])
    × (after.group.checksum ≡ (group_of 8).checksum)
unfolding begin evaluate new_group text_eq eval build_rules Config.is_alerting
hand_over_lost_example =
    hand_over_lost no_store (pos 110) (group_of 7) (group_of 8) begun refl refl refl refl

can_return_example :
    (es : List (Event ℕ ℕ)) × (l' : Loop ℕ ℕ) × Trace no_store es
      (close_done (fresh (group_of 7)))
      l'
    × (l'.phase ≡ Phase.returned)
    × (length es ≤ 2)
unfolding new_group
can_return_example =
    can_return no_store now (pos 110) (close_done (fresh (group_of 7))) Phase.opening refl
      (λ e. ground (arith, e)) refl refl

-- The default interval is zero.
abbrev unchecked : Group ℕ
unchecked = new_group (λ d. codes "0s") (options_of 0) (config_of 7)

start_panics_example :
    ((begin no_store now (fresh unchecked)).phase ≡ crashed)
    ↔ ((eqb_ℤ (pos 0) (pos 0) ≡ true) × (ltb_ℤ (pos 0) (pos 0) ≡ false))
unfolding begin new_group
start_panics_example =
    start_panics no_store (begins now ∷ []) (λ d. codes "0s") (options_of 0) (config_of 7)
      no_retirements 0 (begin no_store now (fresh unchecked)) refl
      (goes (begins now) _ _ _ _ (begin_step now (fresh unchecked) refl) (stops _))
      (λ e. ground (arith, e))
