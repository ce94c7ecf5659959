-- ===== src/Chclient/Ignored.antt =====
-- Settings of a client (chclient/client.go) that have no effect.
use chalert.Prelude.{
  ◌≡◌, ap, ◌∙◌, ◌≢◌, refl, false, [], ◌∷◌, Option, Text, Map, ℤ, pos, eqb_ℤ, arith,
}
use chalert.Time.{Duration}
use chalert.Chclient.{
  Config, secure, Tls, Files, Driver, override_auth, conn_options, open_conn, open_read, open_write,
  connect, with_defaults, new_with_defaults, new, read_settings,
}

-- A configuration with no user name, and a password.
abbrev pub unnamed : Text → Config → Config
unnamed secret cfg = record cfg { username = []; password = secret }

abbrev pub idle : ℤ → Config → Config
idle n cfg = record cfg { max_idle_conns = n }

module _ {P K O N W : Type 0} (driver : Driver P K O N W) where
  -- Two configurations with the same connections.
  abbrev ConnectsAlike : Config → Config → Type 0
  ConnectsAlike c d =
      (settings : Map Text ℤ) (tls : Option (Tls P K)) (w : W)
      → connect driver c settings tls w ≡ connect driver d settings tls w

  unnamed-ConnectsAlike :
      (p q : Text) (cfg : Config) → ConnectsAlike (unnamed p cfg) (unnamed q cfg)
  unfolding connect open_write open_read open_conn conn_options override_auth
  unnamed-ConnectsAlike p q cfg [] tls w = refl
  unnamed-ConnectsAlike p q cfg (s ∷ settings) tls w = refl

  idle-ConnectsAlike : (n m : ℤ) (cfg : Config) → ConnectsAlike (idle n cfg) (idle m cfg)
  unfolding connect open_write open_read open_conn conn_options
  idle-ConnectsAlike n m cfg [] tls w = refl
  idle-ConnectsAlike n m cfg (s ∷ settings) tls w = refl

  module _ (fs : Files P K) (whole_seconds : Duration → ℤ) where
    alike :
        (c d : Config) (w : W)
        → c.tls ≡ d.tls
        → read_settings whole_seconds c ≡ read_settings whole_seconds d
        → ConnectsAlike c d
        → new_with_defaults driver fs whole_seconds c w
          ≡ new_with_defaults driver fs whole_seconds d w
    unfolding new_with_defaults
    alike c d w t r same =
        ap
          (λ x.
            secure driver fs whole_seconds x
              (λ tls. connect driver c (read_settings whole_seconds c) tls w) w)
          t
        ∙ ap (λ x. secure driver fs whole_seconds d.tls (λ tls. connect driver c x tls w) w) r
        ∙ ap (λ f. secure driver fs whole_seconds d.tls f w)
            (λ i tls. same (read_settings whole_seconds d) tls w i)

    -- Without a user name the password of a configuration has no effect: `New` does the same with
    -- any other.
    pub password_ignored :
        (p q : Text) (cfg : Config) (w : W)
        → new driver fs whole_seconds (unnamed p cfg) w
          ≡ new driver fs whole_seconds (unnamed q cfg) w
    unfolding new with_defaults read_settings
    password_ignored p q cfg w =
        alike (with_defaults (unnamed p cfg)) (with_defaults (unnamed q cfg)) w refl refl
          (unnamed-ConnectsAlike p q (with_defaults cfg))

    -- Where the limit on open connections is set, the limit on idle connections has no effect: `New`
    -- does the same with any other.
    pub idle_limit_ignored :
        (n m : ℤ) (cfg : Config) (w : W)
        → cfg.max_open_conns ≢ pos 0
        → new driver fs whole_seconds (idle n cfg) w ≡ new driver fs whole_seconds (idle m cfg) w
    unfolding new with_defaults read_settings
    idle_limit_ignored n m cfg w h =
        let set : eqb_ℤ cfg.max_open_conns (pos 0) ≡ false = ground (arith, h) in
        alike (with_defaults (idle n cfg)) (with_defaults (idle m cfg)) w refl refl (
          rw set (
            idle-ConnectsAlike (with_defaults (idle n cfg)).max_idle_conns
              (with_defaults (idle m cfg)).max_idle_conns
              (record cfg { max_query_time = (with_defaults cfg).max_query_time })))
