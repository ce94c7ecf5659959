-- ===== src/Chclient/Balanced.antt =====
-- Which connections are open after `New` and after `Close` (chclient/client.go).
use chalert.Prelude.{
  given, denied, Reply-cases, ◌≡◌, ◌↔◌, refl, subst, ◌∙◌, inl, inr, Bool, true, false, Bool-cases,
  not, ◌&&◌, ◌||◌, [], ◌∷◌, Option, none, some, Option-cases, Text, Map, ℤ, arith, is_empty,
  if◌then◌else◌,
}
use chalert.Time.{Duration}
use chalert.Chclient.{
  Built-cases, Config, TlsConfig, secure, Tls, Files, Options, Driver, Opened, opened, not_opened,
  Made, made, not_made, ConnOptions, Built, pinged, open_and_ping, conn_options, open_conn,
  add_read, open_read, open_write, connect, has_tls, build_tls_config, read_settings, with_defaults,
  new_with_defaults, new, close,
}

module _ {P K O N W : Type 0} where
  -- What the driver does with connections: opening one makes a connection that was not open, and
  -- nothing else; a ping changes no connection; closing one closes it, whatever it answers.
  pub record IsDriver (driver : Driver P K O N W) (is_open : N → W → Bool) : Type 0 where
    pub same_iff : (c d : N) → (driver.same c d ≡ true) ↔ (c ≡ d)
    pub opens_new :
        (o : Options P K O) (w : W) (c : N)
        → (driver.open_with o w).0 ≡ given c
        → is_open c w ≡ false
    pub opens :
        (o : Options P K O) (w : W) (c d : N)
        → (driver.open_with o w).0 ≡ given c
        → is_open d (driver.open_with o w).1 ≡ driver.same c d || is_open d w
    pub fails_to_open :
        (o : Options P K O) (w : W) (e : Text) (d : N)
        → (driver.open_with o w).0 ≡ denied e
        → is_open d (driver.open_with o w).1 ≡ is_open d w
    pub pings : (c d : N) (w : W) → is_open d (driver.ping c w).1 ≡ is_open d w
    pub closes :
        (c d : N) (w : W) → is_open d (driver.close c w).1 ≡ not (driver.same c d) && is_open d w

  module _ (driver : Driver P K O N W) (is_open : N → W → Bool)
      (law : IsDriver driver is_open) where
    -- The same connections are open.
    abbrev IsSameOpen : W → W → Type 0
    IsSameOpen w after = (d : N) → is_open d after ≡ is_open d w

    -- One more is open.
    abbrev IsOneMore : N → W → W → Type 0
    IsOneMore c w after =
        (is_open c w ≡ false) × ((d : N) → is_open d after ≡ driver.same c d || is_open d w)

    abbrev Opens : W → Opened N × W → Type 0
    Opens w (opened c, after) = IsOneMore c w after
    Opens w (not_opened e, after) = IsSameOpen w after

    -- Closing the connection that was opened last.
    closed_again : (c : N) (w w' : W) → IsOneMore c w w' → IsSameOpen w (driver.close c w').1
    closed_again c w w' h d = elim (Bool-cases (driver.same c d)) [
      | inl e ↦
          let same : is_open d w ≡ false =
            subst (λ x. is_open x w ≡ false) ((law.same_iff c d).0 e) h.0 in
          ground (arith, law.closes c d w', e, same)
      | inr e ↦ ground (arith, law.closes c d w', h.1 d, e)
    ]

    pinged-Opens : (c : N) (w w' : W) → IsOneMore c w w' → Opens w (pinged driver c w')
    unfolding pinged
    pinged-Opens c w w' h =
        let kept : IsOneMore c w (driver.ping c w').1 = (h.0, λ d. law.pings c d w' ∙ h.1 d) in
        elim (Option-cases (driver.ping c w').0) [
          | inl e ↦ rw (e, pinged) kept
          | inr (t, e) ↦ rw (e, pinged) (closed_again c w (driver.ping c w').1 kept)
        ]

    open_and_ping-Opens : (o : Options P K O) (w : W) → Opens w (open_and_ping driver o w)
    unfolding open_and_ping
    open_and_ping-Opens o w = elim (Reply-cases (driver.open_with o w).0) [
      | inl (c, e) ↦
          rw (e, open_and_ping)
            (pinged-Opens c w (driver.open_with o w).1
              (law.opens_new o w c e, λ d. law.opens o w c d e))
      | inr (t, e) ↦ rw (e, open_and_ping) (λ d. law.fails_to_open o w t d e)
    ]

    open_conn-Opens :
        (dsn : Text) (opts : ConnOptions P K) (settings : Map Text ℤ) (w : W)
        → Opens w (open_conn driver dsn opts settings w)
    unfolding open_conn
    open_conn-Opens dsn opts settings w = elim (Reply-cases (driver.parse_dsn dsn)) [
      | inl (o, e) ↦ rw (e, open_conn) (open_and_ping-Opens (conn_options opts settings o) w)
      | inr (t, e) ↦ rw (e, open_conn) (λ d. refl)
    ]

    -- Where a client is made, closing it closes all that it opened; otherwise nothing is left open.
    abbrev pub Balances : W → Made N × W → Type 0
    Balances w (made client, after) = IsSameOpen w (close driver client after).1
    Balances w (not_made e, after) = IsSameOpen w after

    same_refl : (c : N) → driver.same c c ≡ true
    same_refl c = (law.same_iff c c).1 refl

    -- Closing the two connections that were opened last, in the order in which they were opened.
    both_closed :
        (write read : N) (w w' after : W)
        → IsOneMore write w w'
        → IsOneMore read w' after
        → IsSameOpen w (driver.close read (driver.close write after).1).1
    both_closed write read w w' after h h' d =
        let closed = law.closes read d (driver.close write after).1 in
        let absent : is_open read w ≡ false = ground (arith, h.1 read, h'.0) in
        elim (Bool-cases (driver.same read d)) [
          | inl e ↦
              let gone : is_open d w ≡ false =
                subst (λ x. is_open x w ≡ false) ((law.same_iff read d).0 e) absent in
              ground (arith, closed, e, gone)
          | inr e ↦ elim (Bool-cases (driver.same write d)) [
            | inl e' ↦
                let gone : is_open d w ≡ false =
                  subst (λ x. is_open x w ≡ false) ((law.same_iff write d).0 e') h.0 in
                ground (arith, closed, e, e', law.closes write d after, gone)
            | inr e' ↦ ground (arith, closed, e, e', law.closes write d after, h.1 d, h'.1 d)
          ]
        ]

    add_read-Balances :
        (time : Duration) (write : N) (w w' : W) (x : Opened N × W)
        → IsOneMore write w w'
        → Opens w' x
        → Balances w (add_read driver time write x)
    unfolding add_read close
    add_read-Balances time write w w' (opened read, after) h h' =
        elim (Bool-cases (driver.same read write)) [
          | inl e ↦
              let open_read : is_open write w' ≡ false =
                subst (λ x. is_open x w' ≡ false) ((law.same_iff read write).0 e) h'.0 in
              absurd (ground (arith, h.1 write, same_refl write, open_read))
          | inr e ↦ rw (e, close) (both_closed write read w w' after h h')
        ]
    add_read-Balances time write w w' (not_opened e, after) h h' =
        closed_again write w after (h.0, λ d. h' d ∙ h.1 d)

    shared-Balances :
        (time : Duration) (write : N) (w w' : W)
        → IsOneMore write w w'
        → Balances w (made (record { write = write; read = write; max_query_time = time }), w')
    unfolding close
    shared-Balances time write w w' h = rw (same_refl write, close) (closed_again write w w' h)

    open_read-Balances :
        (cfg : Config) (opts : ConnOptions P K) (settings : Map Text ℤ) (write : N) (w w' : W)
        → IsOneMore write w w'
        → Balances w (open_read driver cfg opts settings write w')
    unfolding open_read
    open_read-Balances cfg opts [] write w w' h = elim (Bool-cases (is_empty cfg.read_dsn)) [
      | inl e ↦ rw (e, open_read) (shared-Balances cfg.max_query_time write w w' h)
      | inr e ↦
          rw (e, open_read)
            (add_read-Balances cfg.max_query_time write w w'
              (open_conn driver cfg.read_dsn opts [] w') h
              (open_conn-Opens cfg.read_dsn opts [] w'))
    ]
    open_read-Balances cfg opts (s ∷ settings) write w w' h =
        let dsn = if is_empty cfg.read_dsn then cfg.dsn else cfg.read_dsn in
        add_read-Balances cfg.max_query_time write w w'
          (open_conn driver dsn opts (s ∷ settings) w') h
          (open_conn-Opens dsn opts (s ∷ settings) w')

    opened_write-Balances :
        (cfg : Config) (opts : ConnOptions P K) (settings : Map Text ℤ) (w : W) (o : Opened N)
        → (open_conn driver cfg.dsn opts [] w).0 ≡ o
        → Opens w (o, (open_conn driver cfg.dsn opts [] w).1)
        → Balances w (open_write driver cfg opts settings w)
    unfolding open_write
    opened_write-Balances cfg opts settings w (opened write) e h =
        let w' = (open_conn driver cfg.dsn opts [] w).1 in
        rw (e, open_write) (open_read-Balances cfg opts settings write w w' h)
    opened_write-Balances cfg opts settings w (not_opened t) e h = rw (e, open_write) h

    connect-Balances :
        (cfg : Config) (settings : Map Text ℤ) (tls_cfg : Option (Tls P K)) (w : W)
        → Balances w (connect driver cfg settings tls_cfg w)
    unfolding connect
    connect-Balances cfg settings tls_cfg w =
        let opts : ConnOptions P K = record {
          max_open_conns = cfg.max_open_conns;
          username = cfg.username;
          password = cfg.password;
          tls_config = tls_cfg;
        } in
        opened_write-Balances cfg opts settings w (open_conn driver cfg.dsn opts [] w).0 refl
          (open_conn-Opens cfg.dsn opts [] w)

    module _ (fs : Files P K) (whole_seconds : Duration → ℤ) where
      secure-Balances :
          (t : TlsConfig) (connect_with : Option (Tls P K) → Made N × W) (b : Built P K) (w : W)
          → build_tls_config fs t ≡ b
          → ((tls : Option (Tls P K)) → Balances w (connect_with tls))
          → Balances w (secure driver fs whole_seconds t connect_with w)
      unfolding secure
      secure-Balances t connect_with b w e h = elim (Bool-cases (has_tls t)) [
        | inr plain ↦ rw (plain, secure) (h none)
        | inl secured ↦ elim (Built-cases b) [
          | inl (x, e') ↦ rw (secured, secure, e, e') (h (some x))
          | inr (x, e') ↦ rw (secured, secure, e, e') (λ d. refl)
        ]
      ]

      -- With a driver that opens and closes connections as it says, `New` leaks none: if it fails, at
      -- whichever step, the connections that are open afterwards are those that were open before;
      -- if it makes a client, they are so again once the client is closed.
      pub new_balanced : (cfg : Config) (w : W) → Balances w (new driver fs whole_seconds cfg w)
      unfolding new new_with_defaults
      new_balanced cfg w =
          let cfg' = with_defaults cfg in
          let settings = read_settings whole_seconds cfg' in
          secure-Balances cfg'.tls (λ t. connect driver cfg' settings t w)
            (build_tls_config fs cfg'.tls) w refl (λ t. connect-Balances cfg' settings t w)
