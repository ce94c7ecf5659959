-- ===== src/Main/Startup/Clean.antt =====
-- What a start of cmd/chalert/main.go that fails leaves behind in the database's driver.
use chalert.Prelude.{◌≡◌, refl, subst, Bool}
use chalert.Time.{Time}
use chalert.Chclient.{new}
use chalert.Chclient.Balanced.{IsDriver, Balances, new_balanced}
use chalert.Main.Startup.{
  Flags, Fatal, rule_required, dsn_required, invalid_external_label, reading_rules, parsing_rules,
  reading_password, connecting, creating_tables, normalizing, Launch, exits, validated, launched,
  World, client_config, launch,
}
use chalert.Main.Startup.Stages.{connect_and_launch-ends, launch-ends}

module _ {P K O F N W : Type 0} (world : World P K O F N W) (at : Time) (is_open : N → W → Bool)
    (law : IsDriver world.driver is_open) where
  -- The connections that are open are the same.
  abbrev pub IsSameOpen : W → W → Type 0
  IsSameOpen w after = (d : N) → is_open d after ≡ is_open d w

  -- An end at which the tables are not reached yet leaves no connection open.
  abbrev pub IsClean : W → Launch F N W × W → Type 0
  IsClean w (exits (creating_tables t), after) = Unit
  IsClean w (exits (normalizing e), after) = Unit
  IsClean w (exits e, after) = IsSameOpen w after
  IsClean w (validated n m, after) = IsSameOpen w after
  IsClean w (launched client notify r, after) = Unit

  exits-IsClean : (w : W) (e : Fatal) → IsClean w (exits e, w)
  exits-IsClean w rule_required = λ d. refl
  exits-IsClean w dsn_required = λ d. refl
  exits-IsClean w invalid_external_label = λ d. refl
  exits-IsClean w (reading_rules e) = λ d. refl
  exits-IsClean w (parsing_rules e) = λ d. refl
  exits-IsClean w (reading_password t) = λ d. refl
  exits-IsClean w (connecting e) = λ d. refl
  exits-IsClean w (creating_tables t) = tt
  exits-IsClean w (normalizing e) = tt

  -- With a driver that opens and closes connections as it says, a start that ends before the tables are
  -- created, after a dry run or for whatever error of the flags, the files, the password or the
  -- connection, leaves open the connections that were open before it, and no other.
  pub launch-IsClean : (f : Flags) (w : W) → IsClean w (launch world f at w)
  launch-IsClean f w =
      launch-ends world f at w (IsClean w) (exits-IsClean w) (λ labels contents groups d a c. refl)
        (λ labels contents groups password a.
          let asked =
            new world.driver world.certificates world.whole_seconds (client_config f password) w in
          connect_and_launch-ends world f at labels contents groups (IsClean w) (λ t v. tt)
            (λ e v. tt) (λ client groups' v h. tt) password w _ refl
            (λ e h.
              subst (λ m. Balances world.driver is_open law w (m, asked.1)) h
                (new_balanced world.driver is_open law world.certificates world.whole_seconds
                  (client_config f password) w)))
