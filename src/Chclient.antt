-- ===== src/Chclient.antt =====
-- chclient/client.go: the connections to ClickHouse for writes and for reads, with their options. The
-- driver, the certificate files and the seconds of a duration are parameters: `P` is a pool of
-- certificates, `K` a client certificate, `O` the options of the driver that the code leaves alone,
-- `N` a connection and `W` the state of the driver.
mod TlsSettings
unfoldable pub use TlsSettings.*
pub mod Balanced
pub mod Ignored
pub mod Tests
use chalert.Prelude.{
  ℕ, ◌+◌, ◌%◌, ◌^◌, Bool, true, false, not, ◌&&◌, ◌||◌, List, [], ◌∷◌, ◌++◌, Option, none, some,
  Text, text_Eq, Reply, given, denied, codes, is_empty, Map, insert, ℤ, pos, ltb_ℤ, eqb_ℤ, to_word,
  of_word, if◌then◌else◌,
}
use chalert.Time.{Duration}

pub record Config : Type 0 where
  pub dsn : Text
  pub read_dsn : Text
  pub username : Text
  pub password : Text
  pub tls : TlsConfig
  pub max_query_time : Duration
  pub max_idle_conns : ℤ
  pub max_open_conns : ℤ
  pub max_rows_to_read : ℤ
  pub max_threads : ℤ

-- `clickhouse.Options`.
pub record Options (P K O : Type 0) : Type 0 where
  pub max_open_conns : ℤ
  pub username : Text
  pub password : Text
  pub tls : Option (Tls P K)
  pub settings : Map Text ℤ
  pub others : O

-- The driver: `same` compares connections, and `none` is success.
pub record Driver (P K O N W : Type 0) : Type 0 where
  pub parse_dsn : Text → Reply (Options P K O)
  pub open_with : Options P K O → W → Reply N × W
  pub ping : N → W → Option Text × W
  pub close : N → W → Option Text × W
  pub same : N → N → Bool

pub data OpenError : Type 0 where
  invalid_dsn : Text → OpenError
  opening : Text → OpenError
  ping_failed : Text → OpenError

pub data ClientError : Type 0 where
  building_tls : TlsError → ClientError
  opening_write opening_read : OpenError → ClientError

pub data Opened (N : Type 0) : Type 0 where
  opened : N → Opened N
  not_opened : OpenError → Opened N

pub record Client (N : Type 0) : Type 0 where
  pub write : N
  pub read : N
  pub max_query_time : Duration

pub data Made (N : Type 0) : Type 0 where
  made : Client N → Made N
  not_made : ClientError → Made N

pub record ConnOptions (P K : Type 0) : Type 0 where
  pub max_open_conns : ℤ
  pub username : Text
  pub password : Text
  pub tls_config : Option (Tls P K)

-- The defaults of `New`; the sum wraps around.
with_defaults : Config → Config
with_defaults cfg =
    let time = if eqb_ℤ cfg.max_query_time (pos 0) then pos 30000000000 else cfg.max_query_time in
    let idle = if eqb_ℤ cfg.max_idle_conns (pos 0) then pos 5 else cfg.max_idle_conns in
    let sum = of_word ((to_word idle + 5) % 2 ^ 64) in
    record cfg {
      max_query_time = time;
      max_idle_conns = idle;
      max_open_conns = if eqb_ℤ cfg.max_open_conns (pos 0) then sum else cfg.max_open_conns;
    }

set_positive : Text → ℤ → Map Text ℤ → Map Text ℤ
set_positive name n settings = if ltb_ℤ (pos 0) n then insert name n settings else settings

-- The settings of the connection for reads; `whole_seconds` is `int(d.Seconds())`.
read_settings : (Duration → ℤ) → Config → Map Text ℤ
unfolding set_positive
read_settings whole_seconds cfg = set_positive (codes "max_threads") cfg.max_threads (
    set_positive (codes "max_rows_to_read") cfg.max_rows_to_read
      (set_positive (codes "max_execution_time") (whole_seconds cfg.max_query_time) []))

set_all : Map Text ℤ → Map Text ℤ → Map Text ℤ
set_all [] settings = settings
set_all ((k, v) ∷ rest) settings = set_all rest (insert k v settings)

module _ {P K O : Type 0} where
  override_tls : Option (Tls P K) → Options P K O → Options P K O
  override_tls none o = o
  override_tls (some t) o = record o { tls = some t }

  override_auth : ConnOptions P K → Options P K O → Options P K O
  override_auth opts o =
      if is_empty opts.username
      then o
      else record o { username = opts.username; password = opts.password }

  -- The options of a connection, from those of its DSN.
  conn_options : ConnOptions P K → Map Text ℤ → Options P K O → Options P K O
  unfolding override_auth override_tls set_all
  conn_options opts settings o =
      let o' =
        override_tls opts.tls_config
          (override_auth opts (record o { max_open_conns = opts.max_open_conns })) in
      record o' { settings = set_all settings o'.settings }

module _ {P K O N W : Type 0} (driver : Driver P K O N W) where
  pinged : N → W → Opened N × W
  pinged conn w =
      let (e, w') = driver.ping conn w in
      elim e [
        | none ↦ (opened conn, w')
        | some t ↦ (not_opened (ping_failed t), (driver.close conn w').1)
      ]

  open_and_ping : Options P K O → W → Opened N × W
  unfolding pinged
  open_and_ping o w =
      let (reply, w') = driver.open_with o w in
      elim reply [ denied e ↦ (not_opened (opening e), w') | given conn ↦ pinged conn w' ]

  -- `openConn`.
  open_conn : Text → ConnOptions P K → Map Text ℤ → W → Opened N × W
  unfolding open_and_ping conn_options
  open_conn dsn opts settings w = elim (driver.parse_dsn dsn) [
    | denied e ↦ (not_opened (invalid_dsn e), w)
    | given o ↦ open_and_ping (conn_options opts settings o) w
  ]

  -- The connection for reads: one of its own, which may fail, or that for writes.
  add_read : Duration → N → Opened N × W → Made N × W
  add_read max_query_time write (opened read, w) =
      (made (record { write = write; read = read; max_query_time = max_query_time }), w)
  add_read max_query_time write (not_opened e, w) =
      (not_made (opening_read e), (driver.close write w).1)

  open_read : Config → ConnOptions P K → Map Text ℤ → N → W → Made N × W
  unfolding add_read open_conn
  open_read cfg opts [] write w =
      if is_empty cfg.read_dsn
      then (made (record { write = write; read = write; max_query_time = cfg.max_query_time }), w)
      else add_read cfg.max_query_time write (open_conn cfg.read_dsn opts [] w)
  open_read cfg opts (s ∷ settings) write w =
      let dsn = if is_empty cfg.read_dsn then cfg.dsn else cfg.read_dsn in
      add_read cfg.max_query_time write (open_conn dsn opts (s ∷ settings) w)

  open_write : Config → ConnOptions P K → Map Text ℤ → W → Made N × W
  unfolding open_read open_conn
  open_write cfg opts settings w =
      let (reply, w') = open_conn cfg.dsn opts [] w in
      elim reply [
        | not_opened e ↦ (not_made (opening_write e), w')
        | opened write ↦ open_read cfg opts settings write w'
      ]

  connect : Config → Map Text ℤ → Option (Tls P K) → W → Made N × W
  unfolding open_write
  connect cfg settings tls_cfg w =
      open_write cfg
        (record {
          max_open_conns = cfg.max_open_conns;
          username = cfg.username;
          password = cfg.password;
          tls_config = tls_cfg;
        })
        settings w

  module _ (fs : Files P K) (whole_seconds : Duration → ℤ) where
    -- The TLS configuration is built once, for all connections.
    secure : TlsConfig → (Option (Tls P K) → Made N × W) → W → Made N × W
    unfolding build_tls_config has_tls
    secure t connect_with w =
        if has_tls t
        then elim (build_tls_config fs t) [
          | not_built e ↦ (not_made (building_tls e), w)
          | built tls_cfg ↦ connect_with (some tls_cfg)
        ]
        else connect_with none

    new_with_defaults : Config → W → Made N × W
    unfolding secure connect read_settings
    new_with_defaults cfg w =
        secure cfg.tls (λ t. connect cfg (read_settings whole_seconds cfg) t w) w

    -- `New`.
    unfoldable pub new : Config → W → Made N × W
    unfolding new_with_defaults with_defaults
    new cfg w = new_with_defaults (with_defaults cfg) w

  abbrev add_error : Option Text → List Text → List Text
  add_error none errs = errs
  add_error (some e) errs = errs ++ e ∷ []

  -- `Close`: the errors of the two calls.
  pub close : Client N → W → List Text × W
  close c w =
      let (e, w') = driver.close c.write w in
      let (e', w'') = driver.close c.read w' in
      if driver.same c.read c.write
      then (add_error e [], w')
      else (add_error e' (add_error e []), w'')
