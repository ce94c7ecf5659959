-- ===== src/StateStore.antt =====
-- statestore/clickhouse.go: the rows of alert_state and alert_history, and the order in which the
-- store prepares, fills and sends a batch. The driver and what ClickHouse does with the rows (the
-- millisecond columns, the merge of rows, the WHERE clause) are parameters. Creating the tables is
-- in StateStore/Tables.
pub mod RoundTrip
pub mod Restart
pub mod Tables
use chalert.Prelude.{
  ℕ, Bool, true, false, List, [], ◌∷◌, ◌++◌, map, Option, none, some, Text, text_eq, codes, Map,
  pos, if◌then◌else◌,
}
use chalert.Time.{Time, zero_time, is_zero}
use chalert.Rule.Instance.{AlertState, inactive, pending, firing, AlertInstance}

pub state_to_enum : AlertState → Text
state_to_enum firing = codes "firing"
state_to_enum pending = codes "pending"
state_to_enum inactive = codes "inactive"

pub enum_to_state : Text → AlertState
enum_to_state s =
    if text_eq s (codes "firing")
    then firing
    else if text_eq s (codes "pending")
    then pending
    else inactive

-- A nullable column: the zero time is written as NULL.
pub to_nullable : Time → Option Time
to_nullable t = if is_zero t then none else some t

pub of_nullable : Option Time → Time
of_nullable none = zero_time
of_nullable (some t) = t

-- The columns that `LoadActive` selects, as `Save` writes them; `updated_at` stands beside them.
pub record StateRow (F : Type 0) : Type 0 where
  pub rule_id : ℕ
  pub alert_hash : ℕ
  pub group_name : Text
  pub alert_name : Text
  pub state : Text
  pub dimensions : Map Text Text
  pub value : F
  pub expr : Text
  pub active_at : Time
  pub fired_at : Option Time
  pub resolved_at : Option Time
  pub annotations : Map Text Text
  pub keep_firing_since : Option Time

pub record HistoryRow (F : Type 0) : Type 0 where
  pub rule_id : ℕ
  pub alert_hash : ℕ
  pub group_name : Text
  pub alert_name : Text
  pub state : Text
  pub dimensions : Map Text Text
  pub value : F
  pub expr : Text
  pub annotations : Map Text Text
  pub evaluated_at : Time
  pub event_time : Time

pub data StoreError : Type 0 where
  preparing_batch : Text → StoreError
  appending_to_batch : Text → StoreError
  sending_batch : Text → StoreError
  querying : Text → StoreError
  scanning_row : Text → StoreError
  reading_rows : Text → StoreError

-- A batch of rows `R` over the state `W` of the driver: `none` is success.
pub record Batch (R W : Type 0) : Type 0 where
  pub prepare : W → Option Text × W
  pub append : R → W → Option Text × W
  pub send : W → Option Text × W

-- A query's rows as they are scanned, and the error at their end; or the error of the query.
pub data Scanned (R : Type 0) : Type 0 where
  row : R → Scanned R
  scan_failed : Text → Scanned R

pub data Rows (R : Type 0) : Type 0 where
  rows : List (Scanned R) → Option Text → Rows R
  query_failed : Text → Rows R

pub data Loaded (F : Type 0) : Type 0 where
  loaded : List (AlertInstance F) → Option StoreError → Loaded F

abbrev pub sent : Option Text → Option StoreError
sent none = none
sent (some t) = some (sending_batch t)

module _ {R W : Type 0} where
  append_rows : Batch R W → List R → W → Option StoreError × W
  append_rows batch [] w = (none, w)
  append_rows batch (r ∷ rest) w =
      let (e, w') = batch.append r w in
      let next = append_rows batch rest w' in
      elim e [ some t ↦ (some (appending_to_batch t), w') | none ↦ next ]

  append_and_send : Batch R W → List R → W → Option StoreError × W
  unfolding append_rows
  append_and_send batch rs w =
      let (e, w') = append_rows batch rs w in
      elim e [ some t ↦ (some t, w') | none ↦ let (e', w'') = batch.send w' in (sent e', w'') ]

  write_batch : Batch R W → List R → W → Option StoreError × W
  unfolding append_and_send
  write_batch batch [] w = (none, w)
  write_batch batch (r ∷ rest) w =
      let (e, w') = batch.prepare w in
      elim e [
        | some t ↦ (some (preparing_batch t), w')
        | none ↦ append_and_send batch (r ∷ rest) w'
      ]

abbrev end_of_rows : Option Text → Option StoreError
end_of_rows none = none
end_of_rows (some t) = some (reading_rows t)

module _ {F : Type 0} where
  pub state_row : AlertInstance F → StateRow F
  unfolding state_to_enum to_nullable
  state_row inst = record {
    rule_id = inst.rule_id;
    alert_hash = inst.id;
    group_name = inst.group_name;
    alert_name = inst.alert_name;
    state = state_to_enum inst.state;
    dimensions = inst.labels;
    value = inst.value;
    expr = inst.expr;
    active_at = inst.active_at;
    fired_at = to_nullable inst.fired_at;
    resolved_at = to_nullable inst.resolved_at;
    annotations = inst.annotations;
    keep_firing_since = to_nullable inst.keep_firing_since;
  }

  history_row : Time → Time → AlertInstance F → HistoryRow F
  unfolding state_to_enum
  history_row evaluated_at now inst = record {
    rule_id = inst.rule_id;
    alert_hash = inst.id;
    group_name = inst.group_name;
    alert_name = inst.alert_name;
    state = state_to_enum inst.state;
    dimensions = inst.labels;
    value = inst.value;
    expr = inst.expr;
    annotations = inst.annotations;
    evaluated_at = evaluated_at;
    event_time = now;
  }

  -- The fields that no column holds stay at their zero values.
  pub instance_of_row : StateRow F → AlertInstance F
  unfolding enum_to_state of_nullable
  instance_of_row r = record {
    id = r.alert_hash;
    rule_id = r.rule_id;
    group_name = r.group_name;
    alert_name = r.alert_name;
    labels = r.dimensions;
    annotations = r.annotations;
    state = enum_to_state r.state;
    value = r.value;
    expr = r.expr;
    active_at = r.active_at;
    fired_at = of_nullable r.fired_at;
    resolved_at = of_nullable r.resolved_at;
    last_sent = zero_time;
    keep_firing_since = of_nullable r.keep_firing_since;
    for_dur = pos 0;
    evaluation_interval = pos 0;
  }

  abbrev loaded_with : AlertInstance F → Loaded F → Loaded F
  loaded_with inst (loaded instances none) = loaded (inst ∷ instances) none
  loaded_with inst (loaded instances (some (reading_rows t))) =
      loaded (inst ∷ instances) (some (reading_rows t))
  loaded_with inst (loaded instances (some e)) = loaded [] (some e)

  -- The loop of `LoadActive`: a row that cannot be scanned loses the rows before it.
  pub scan_rows : List (Scanned (StateRow F)) → Option Text → Loaded F
  unfolding instance_of_row
  scan_rows [] e = loaded [] (end_of_rows e)
  scan_rows (scan_failed t ∷ rest) e = loaded [] (some (scanning_row t))
  scan_rows (row r ∷ rest) e = loaded_with (instance_of_row r) (scan_rows rest e)

  -- `LoadActive`.
  pub load_active : Rows (StateRow F) → Loaded F
  unfolding scan_rows
  load_active (query_failed t) = loaded [] (some (querying t))
  load_active (rows rs e) = scan_rows rs e

module _ {F W : Type 0} where
  -- `Save`, when the clock shows `now`: every row carries it as `updated_at`.
  unfoldable save :
      Batch (StateRow F × Time) W → Time → List (AlertInstance F) → W → Option StoreError × W
  unfolding write_batch state_row
  save batch now instances = write_batch batch (map (λ inst. (state_row inst, now)) instances)

  -- `RecordHistory`, when the clock shows `now`.
  unfoldable record_history :
      Batch (HistoryRow F) W → Time → Time → List (AlertInstance F) → W → Option StoreError × W
  unfolding write_batch history_row
  record_history batch now evaluated_at instances =
      write_batch batch (map (history_row evaluated_at now) instances)
