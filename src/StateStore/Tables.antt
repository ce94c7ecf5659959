-- ===== src/StateStore/Tables.antt =====
-- statestore/clickhouse.go: the statements that `EnsureTables` runs. Running one is a parameter.
use chalert.Prelude.{List, [], ◌∷◌, Option, none, some, Text}

-- Both tables of a database are created if they do not exist, and a column is added if it is missing.
pub data Statement : Type 0 where
  create_alert_state create_alert_history add_keep_firing_since : Text → Statement

module _ {W : Type 0} (run : Statement → W → Option Text × W) where
  -- The loop: the error of the first statement that fails, if any.
  run_all : List Statement → W → Option Text × W
  run_all [] w = (none, w)
  run_all (s ∷ rest) w =
      let (e, w') = run s w in
      let later = run_all rest w' in elim e [ some t ↦ (some t, w') | none ↦ later ]

  unfoldable pub ensure_tables : Text → W → Option Text × W
  unfolding run_all
  ensure_tables database w =
      run_all
        (create_alert_state database
          ∷ create_alert_history database
          ∷ add_keep_firing_since database
          ∷ [])
        w
