-- ===== src/Rule/Retire.antt =====
-- rule/retire.go: the resolved rows of retired rules, written to the state store and retried. The
-- store is an interface: an error or none, and its next state, for each call.
pub mod Conserved
pub mod Unwritten
use chalert.Prelude.{
  ℕ, ◌+◌, Bool, true, false, List, [], ◌∷◌, ◌++◌, length, Option, none, some, Text,
}
use chalert.Time.{Time}
use chalert.Rule.Instance.{AlertState, inactive, pending, firing, AlertInstance}

-- `StateStore` of rule.go, over the store's state `W`: `none` is success.
pub record StateStore (F W : Type 0) : Type 0 where
  pub save : List (AlertInstance F) → W → Option Text × W
  pub load_active : W → List (AlertInstance F) × Option Text
  pub record_history : Time → List (AlertInstance F) → W → Option Text × W

pub record Retirement (F : Type 0) : Type 0 where
  pub at : Time
  pub rows : List (AlertInstance F)
  pub firing_rows : List (AlertInstance F)

-- `retired_rows_pending` is the metric of that name.
pub record Retirements (F : Type 0) : Type 0 where
  pub unwritten_writes : List (Retirement F)
  pub retired_rows_pending : ℕ

module _ {F : Type 0} where
  pub count_rows : List (Retirement F) → ℕ
  count_rows [] = 0
  count_rows (p ∷ ps) = length p.rows + count_rows ps

  pub resolved : Time → AlertInstance F → AlertInstance F
  resolved at inst = record inst { state = inactive; resolved_at = at }

  -- The loop of `Resolve`: the rows to write, and the firing instances that they resolve.
  pub collect : Time → List (AlertInstance F) → List (AlertInstance F) × List (AlertInstance F)
  unfolding resolved
  collect at [] = ([], [])
  collect at (inst ∷ rest) =
      let (rows, firing_rows) = collect at rest in
      elim inst.state [
        | firing ↦ (resolved at inst ∷ rows, inst ∷ firing_rows)
        | pending ↦ (rows, firing_rows)
        | inactive ↦ (rows, firing_rows)
      ]

  abbrev pub keep_failed : Retirement F → Option Text → List (Retirement F) → List (Retirement F)
  keep_failed p (some e) kept = p ∷ kept
  keep_failed p none kept = kept

  -- `Unwritten`.
  pub unwritten : List (Retirement F) → List (AlertInstance F)
  unwritten [] = []
  unwritten (p ∷ ps) = p.firing_rows ++ unwritten ps

module _ {F W : Type 0} where
  -- After a write: on success the rows are saved too, and an error of that is only logged.
  pub save_written : StateStore F W → Retirement F → Option Text → W → W
  save_written store p (some e) w = w
  save_written store p none w = (store.save p.rows w).1

  -- The loop of `Flush`: the writes that failed, in order.
  pub flush_writes : StateStore F W → List (Retirement F) → W → List (Retirement F) × W
  unfolding save_written
  flush_writes store [] w = ([], w)
  flush_writes store (p ∷ ps) w =
      let (e, w') = store.record_history p.at p.rows w in
      let (kept, w'') = flush_writes store ps (save_written store p e w') in
      (keep_failed p e kept, w'')

  pub flush_pending : StateStore F W → Retirements F → List (Retirement F) → W → Retirements F × W
  unfolding flush_writes count_rows
  flush_pending store r [] w = (r, w)
  flush_pending store r (p ∷ ps) w =
      let (kept, w') = flush_writes store (p ∷ ps) w in
      (record { unwritten_writes = kept; retired_rows_pending = count_rows kept }, w')

  -- `Flush`; a nil store writes nothing.
  pub flush : Option (StateStore F W) → Retirements F → W → Retirements F × W
  unfolding flush_pending
  flush none r w = (r, w)
  flush (some store) r w = flush_pending store r r.unwritten_writes w

  -- The end of `Resolve`, with what the loop collected.
  pub enqueue :
      Option (StateStore F W)
      → Time
      → List (AlertInstance F)
      → List (AlertInstance F)
      → Retirements F
      → W
      → Retirements F × W
  unfolding flush
  enqueue none at rows firing_rows r w = (r, w)
  enqueue (some store) at [] firing_rows r w = (r, w)
  enqueue (some store) at (row ∷ rows) firing_rows r w =
      let p : Retirement F = record { at = at; rows = row ∷ rows; firing_rows = firing_rows } in
      flush (some store) (record r { unwritten_writes = r.unwritten_writes ++ p ∷ [] }) w

  -- `Resolve`.
  pub resolve :
      Option (StateStore F W)
      → Time
      → List (AlertInstance F)
      → Retirements F
      → W
      → Retirements F × W
  unfolding collect enqueue
  resolve store at instances r w =
      let (rows, firing_rows) = collect at instances in enqueue store at rows firing_rows r w
