-- ===== src/StateStore/RoundTrip.antt =====
-- What a restart gets back of the alerts that statestore/clickhouse.go saved.
use chalert.Prelude.{◌≡◌, refl, List, [], ◌∷◌, map, none, pos, text_eq, arith}
use chalert.Time.{Time, zero_time}
use chalert.Rule.Instance.{AlertState, inactive, pending, firing, AlertInstance}
use chalert.StateStore.{
  state_to_enum, enum_to_state, to_nullable, of_nullable, state_row, instance_of_row, rows, row,
  loaded, scan_rows, load_active,
}

enum-state : (s : AlertState) → enum_to_state (state_to_enum s) ≡ s
unfolding enum_to_state state_to_enum text_eq
enum-state inactive = refl
enum-state pending = refl
enum-state firing = refl

nullable-time : (t : Time) → of_nullable (to_nullable t) ≡ t
unfolding of_nullable to_nullable
nullable-time t = ground arith

-- What is not in the table: when the alert was sent last, and the two durations of the rule.
abbrev pub forgotten : {F : Type 0} → AlertInstance F → AlertInstance F
forgotten inst = record inst { last_sent = zero_time; for_dur = pos 0; evaluation_interval = pos 0 }

instance-row :
    {F : Type 0} (inst : AlertInstance F) → instance_of_row (state_row inst) ≡ forgotten inst
unfolding instance_of_row state_row
instance-row inst = cc (
  enum-state inst.state,
  nullable-time inst.fired_at,
  nullable-time inst.resolved_at,
  nullable-time inst.keep_firing_since,
)

-- When the store returns the rows that were saved, and no error, a restart loads every saved
-- alert as it was, but for the time at which it was sent last and the two durations of its rule,
-- which are zero.
pub load_active-saved :
    {F : Type 0} (instances : List (AlertInstance F))
    → load_active (rows (map (λ inst. row (state_row inst)) instances) none)
      ≡ loaded (map forgotten instances) none
unfolding load_active scan_rows
load_active-saved [] = refl
load_active-saved (inst ∷ rest) = rw (instance-row inst, load_active-saved rest) refl
