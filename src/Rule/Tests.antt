-- ===== src/Rule/Tests.antt =====
-- Tests of package rule's labels, restored alerts and retired rules: their theorems at small examples.
use chalert.Prelude.{
  ℕ, ◌+◌, ◌==◌, if◌then◌else◌, ◌≡◌, ◌↔◌, ◌≢◌, refl, true, false, List, [], ◌∷◌, ◌++◌, Perm, none,
  some, Text, codes, Map, lookup, ◌⊎◌, is_empty, pos, text_Eq, nat_eq, text_eq, text_eq_iff, arith,
}
use chalert.Time.{zero_time}
use chalert.Datasource.{Label}
use chalert.Rule.Instance.{inactive, firing, AlertInstance, AlertingRule, new_alerting_rule}
use chalert.Rule.Labels.{build_labels, hash_labels}
use chalert.Rule.Labels.LabelSet.{instance_labels, label_set_id, instance_labels_iff}
use chalert.Rule.Labels.Merged.{overridden, dimensions_of, build_labels_lem}
use chalert.Rule.Labels.Ordered.{build_labels_order}
use chalert.Rule.Retire.{StateStore, Retirements, resolve, collect}
use chalert.Rule.Retire.Conserved.{rows_of, logging, resolve_conserves}
use chalert.Config

abbrev firing_alert : AlertInstance ℕ
firing_alert = record {
  id = 3;
  rule_id = 7;
  group_name = codes "http";
  alert_name = codes "HighErrorRate";
  labels = [];
  annotations = [];
  state = firing;
  value = 5;
  expr = codes "SELECT 1";
  active_at = pos 10;
  fired_at = pos 20;
  resolved_at = zero_time;
  last_sent = pos 20;
  keep_firing_since = zero_time;
  for_dur = pos 5;
  evaluation_interval = pos 5;
}

-- A store that counts its calls, and whose writes of history fail at first.
abbrev store : StateStore ℕ ℕ
store = record {
  save = λ rows n. (none, n + 1);
  load_active = λ n. ([], none);
  record_history = λ at rows n. ((if n == 0 then some (codes "timeout") else none), n + 1);
}

abbrev waiting : Retirements ℕ
waiting = record {
  unwritten_writes =
      record {
        at = pos 30;
        rows = record firing_alert { state = inactive; resolved_at = pos 30 } ∷ [];
        firing_rows = firing_alert ∷ [];
      }
      ∷ [];
  retired_rows_pending = 1;
}

resolve_conserves_example :
    let done = resolve (some (logging store)) (pos 40) (firing_alert ∷ []) waiting (0, []) in
    Perm
      (done.1.1 ++ rows_of done.0.unwritten_writes)
      (rows_of waiting.unwritten_writes ++ (collect (pos 40) (firing_alert ∷ [])).0)
resolve_conserves_example = resolve_conserves store (pos 40) (firing_alert ∷ []) waiting (0, [])

abbrev config_rule : Config.Rule
config_rule = record {
  alert = codes "HighErrorRate";
  expr = codes "SELECT 1";
  for_dur = pos 5;
  labels = [];
  annotations = [];
  keep_firing_for = pos 0;
  record_name = [];
  debug = none;
  id = 7;
}

abbrev rule : AlertingRule ℕ
rule = new_alerting_rule (codes "http") (pos 5) config_rule

abbrev two_labels : Map Text Text
two_labels = (codes "a", codes "1") ∷ (codes "b", codes "2") ∷ []

abbrev swapped_labels : Map Text Text
swapped_labels = (codes "b", codes "2") ∷ (codes "a", codes "1") ∷ []

same_labels : (k : Text) → lookup k two_labels ≡ lookup k swapped_labels
unfolding lookup
same_labels k = ground (arith, text_eq_iff (codes "a") k, text_eq_iff (codes "b") k)

abbrev dimensions : List Label
dimensions = record { name = codes "a"; value = codes "0" } ∷ []

abbrev more : List Label
more = record { name = codes "c"; value = codes "3" } ∷ dimensions

build_labels_lem_example :
    ((is_empty (codes "Down") ≡ true) ⊎ (codes "alertname" ≢ codes "a")
      → lookup (codes "a") (build_labels (codes "Down") two_labels dimensions)
        ≡ overridden
            (lookup (codes "a") two_labels)
            (lookup (codes "a") (dimensions_of dimensions)))
    × (is_empty (codes "Down") ≡ false
        → lookup (codes "alertname") (build_labels (codes "Down") two_labels dimensions)
          ≡ some (codes "Down"))
unfolding lookup text_eq
build_labels_lem_example =
    build_labels_lem (codes "Down") two_labels dimensions (codes "a") (refl, (refl, tt))
      ((λ e. ground arith), ((λ e. ground arith), tt))

build_labels_order_example :
    let row : List Label = record { name = codes "a"; value = codes "0" } ∷ [] in
    let e = codes "exported_a" in
    (lookup e (build_labels (codes "Down") ((codes "a", codes "1") ∷ (e, codes "2") ∷ []) row)
      ≡ some (codes "2"))
    × (lookup e (build_labels (codes "Down") ((e, codes "2") ∷ (codes "a", codes "1") ∷ []) row)
        ≡ some (codes "0"))
build_labels_order_example =
    build_labels_order (codes "Down") (codes "a") (codes "0") (codes "1") (codes "2")
      (λ e. ground arith) (λ e. ground arith) (λ e. ground arith)

-- A row, and another with one dimension more.
instance_labels_iff_example :
    ((instance_labels (codes "Down") two_labels dimensions
        ≡ instance_labels (codes "Down") two_labels more)
      ↔ ((k : Text)
          → lookup k (build_labels (codes "Down") two_labels dimensions)
            ≡ lookup k (build_labels (codes "Down") two_labels more)))
    × (hash_labels (build_labels (codes "Down") two_labels dimensions)
        ≡ label_set_id (instance_labels (codes "Down") two_labels dimensions))
instance_labels_iff_example = instance_labels_iff (codes "Down") two_labels dimensions more
