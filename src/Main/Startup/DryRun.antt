-- ===== src/Main/Startup/DryRun.antt =====
-- The dry run of cmd/chalert/main.go and the start that it stands for.
use chalert.Prelude.{◌≡◌, List, length, Text, Map}
use chalert.Time.{Time}
use chalert.Config
use chalert.Main.{count_rules}
use chalert.Main.Startup.{
  Flags, Fatal, reading_password, connecting, creating_tables, normalizing, Launch, exits,
  validated, launched, World,
}
use chalert.Main.Startup.Stages.{IsAccepted}

-- The errors that do not come of the flags for the rules and labels, or of the rule files.
abbrev pub IsLate : Fatal → Type 0
IsLate (reading_password t) = Unit
IsLate (connecting e) = Unit
IsLate (creating_tables t) = Unit
IsLate (normalizing e) = Unit
IsLate _ = ⊥

module _ {P K O F N W : Type 0} (world : World P K O F N W) (at : Time) where
  -- The start gets to its loop, or ends for one of the other errors.
  abbrev pub EndsLate : Launch F N W × W → Type 0
  EndsLate (exits e, w) = IsLate e
  EndsLate (validated n m, w) = ⊥
  EndsLate (launched client notify r, w) = Unit

  -- What a dry run that is validated has found.
  abbrev IsValidated : Flags → W → Launch F N W × W → Type 0
  IsValidated f w (exits e, w') = Unit
  IsValidated f w (validated n m, w') =
      (labels : Map Text Text) × (contents : Map Text Text) × (groups : List Config.Group)
      × IsAccepted world f labels contents groups
      × (n ≡ length groups)
      × (m ≡ count_rules groups)
      × (w' ≡ w)
  IsValidated f w (launched client notify r, w') = Unit
