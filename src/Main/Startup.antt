-- ===== src/Main/Startup.antt =====
-- cmd/chalert/main.go: `main` from its flags to where the groups run: the checks of the flags, the dry
-- run, the password file, the connection, the tables, and what of these ends the program. The file
-- system, the driver and what the database answers are parameters: `P` is a pool of certificates, `K` a
-- client certificate, `O` the other options of the driver, `N` a connection, and `W` the state of the
-- database with its driver. The HTTP server, which starts after a dry run would have ended, is left out.
pub mod Strings
pub mod Stages
pub mod Reached
pub mod DryRun
pub mod Clean
mod Tests
use chalert.Prelude.{
  ℕ, Reply, given, denied, Bool, true, false, not, ◌&&◌, List, [], Option, none, some, Text,
  is_empty, length, Map, ℤ, pos, if◌then◌else◌,
}
use chalert.Time.{Time, Duration}
use chalert.Config
use chalert.Config.Identity.{QueryHash, NormalizeError, Result, ok, err, normalize_rule_ids}
use chalert.Config.Files.{FileSystem, FileError, ReadFiles, files_read, not_read, read_files}
use chalert.Config.Parsing.{Yaml, ParseError, Parsed, parsed, parse_error, parse, fingerprint}
use chalert.Rule.Retire.{StateStore}
use chalert.Group.{GroupOptions}
use chalert.StateStore.Tables.{Statement, ensure_tables}
use chalert.Notifier.{AlertManager, new_alert_manager}
use chalert.Chclient
use chalert.Chclient.{TlsConfig, Files, Driver, Client, ClientError, Made, made, not_made, new}
use chalert.Main.{count_rules, parse_external_labels}
use chalert.Main.Reload.{Setup, Running}
use chalert.Main.Process.{start_groups}
use chalert.Main.Startup.Strings.{split, trim_right}

-- The flags that decide how the program starts.
pub record Flags : Type 0 where
  pub rule_paths : Text
  pub evaluation_interval : Duration
  pub clickhouse_dsn : Text
  pub clickhouse_read_dsn : Text
  pub clickhouse_db : Text
  pub clickhouse_user : Text
  pub clickhouse_pass : Text
  pub clickhouse_pass_file : Text
  pub max_query_time : Duration
  pub notifier_urls : Text
  pub external_url : Text
  pub max_rows_to_read : ℤ
  pub max_threads : ℤ
  pub max_idle_conns : ℤ
  pub max_open_conns : ℤ
  pub default_limit : ℤ
  pub dry_run : Bool
  pub external_labels_raw : List Text
  pub tls : TlsConfig

-- The calls of `fatalf`, each of which ends the program.
pub data Fatal : Type 0 where
  rule_required dsn_required invalid_external_label : Fatal
  reading_rules : FileError → Fatal
  parsing_rules : ParseError → Fatal
  reading_password : Text → Fatal
  connecting : ClientError → Fatal
  creating_tables : Text → Fatal
  normalizing : NormalizeError → Fatal

-- How the start ends: with an error, after a dry run with its numbers of groups and rules, or with the
-- client, the notifier and the groups that run.
pub data Launch (F N W : Type 0) : Type 0 where
  exits : Fatal → Launch F N W
  validated : ℕ → ℕ → Launch F N W
  launched : Client N → Option AlertManager → Running F W → Launch F N W

-- The notifier, if a URL is given.
pub notifier_of : Flags → Option AlertManager
unfolding new_alert_manager split
notifier_of f =
    if is_empty f.notifier_urls
    then none
    else some
        (new_alert_manager (record {
          urls = split 44 f.notifier_urls;
          timeout = pos 0;
          external_url = f.external_url;
          username = [];
          password = [];
          bearer_token = [];
        })).0

-- The configuration of the client.
pub client_config : Flags → Text → Chclient.Config
client_config f password = record {
  dsn = f.clickhouse_dsn;
  read_dsn = f.clickhouse_read_dsn;
  username = f.clickhouse_user;
  password = password;
  tls = f.tls;
  max_query_time = f.max_query_time;
  max_idle_conns = f.max_idle_conns;
  max_open_conns = f.max_open_conns;
  max_rows_to_read = f.max_rows_to_read;
  max_threads = f.max_threads;
}

-- What the program calls: files, YAML, the environment, the driver, and the database on a connection.
pub record World (P K O F N W : Type 0) : Type 0 where
  pub fs : FileSystem
  pub yaml : Yaml
  pub fuel : ℕ
  pub getenv : Text → Text
  pub driver : Driver P K O N W
  pub certificates : Files P K
  pub whole_seconds : Duration → ℤ
  pub run_statement : N → Statement → W → Option Text × W
  pub query_hash : N → QueryHash
  pub store_on : N → Text → StateStore F W
  pub duration_string : Duration → Text

module _ {P K O F N W : Type 0} (world : World P K O F N W) (f : Flags) where
  unfoldable pub setup_of : Map Text Text → Client N → Setup F W
  setup_of labels client = record {
    store = some (world.store_on client.write f.clickhouse_db);
    options = record {
      default_interval = f.evaluation_interval;
      external_labels = labels;
      default_limit = f.default_limit;
    };
    yaml = world.yaml;
    getenv = world.getenv;
    fuel = world.fuel;
    query_hash = world.query_hash client.read;
    duration_string = world.duration_string;
  }

  module _ (at : Time) where
    -- With a client and its tables: the identities, the restored alerts and the start of the groups. An
    -- error of `LoadActive` is only logged; the alerts that it returned with it are restored.
    pub normalize_and_launch :
        Map Text Text → Map Text Text → List Config.Group → Client N → W → Launch F N W × W
    unfolding setup_of notifier_of
    normalize_and_launch labels contents groups client w =
        elim (normalize_rule_ids (world.query_hash client.read) groups) [
          | err e ↦ (exits (normalizing e), w)
          | ok groups' ↦
              let (active, warning) = (world.store_on client.write f.clickhouse_db).load_active w in
              let r =
                start_groups (setup_of labels client) at (fingerprint contents) groups' active w in
              (launched client (notifier_of f) r, r.stored)
        ]

    pub create_and_launch :
        Map Text Text → Map Text Text → List Config.Group → Client N → W → Launch F N W × W
    unfolding normalize_and_launch ensure_tables
    create_and_launch labels contents groups client w =
        let (e, w') = ensure_tables (world.run_statement client.write) f.clickhouse_db w in
        elim e [
          | some t ↦ (exits (creating_tables t), w')
          | none ↦ normalize_and_launch labels contents groups client w'
        ]

    pub connect_and_launch :
        Map Text Text → Map Text Text → List Config.Group → Text → W → Launch F N W × W
    unfolding create_and_launch client_config
    connect_and_launch labels contents groups password w =
        let (made_client, w') =
          new world.driver world.certificates world.whole_seconds (client_config f password) w in
        elim made_client [
          | not_made e ↦ (exits (connecting e), w')
          | made client ↦ create_and_launch labels contents groups client w'
        ]

    -- The password of the file takes the place of the flag, without the line ends at its end.
    pub read_password : (Text → W → Launch F N W × W) → W → Launch F N W × W
    unfolding trim_right
    read_password go w =
        if is_empty f.clickhouse_pass_file
        then go f.clickhouse_pass w
        else elim (world.fs.read_file f.clickhouse_pass_file) [
          | denied e ↦ (exits (reading_password e), w)
          | given content ↦ go (trim_right content) w
        ]

    -- With the groups of the files: the end of a dry run.
    with_groups : Map Text Text → Map Text Text → List Config.Group → W → Launch F N W × W
    unfolding read_password connect_and_launch count_rules
    with_groups labels contents groups w =
        if f.dry_run
        then (validated (length groups) (count_rules groups), w)
        else read_password (connect_and_launch labels contents groups) w

    read_rules : Map Text Text → W → Launch F N W × W
    unfolding with_groups split
    read_rules labels w = elim (read_files world.fs (split 59 f.rule_paths)) [
      | not_read e ↦ (exits (reading_rules e), w)
      | files_read contents ↦ elim (parse world.yaml world.fuel world.getenv contents) [
        | parse_error e ↦ (exits (parsing_rules e), w)
        | parsed groups ↦ with_groups labels contents groups w
      ]
    ]

    -- `main`, up to its loop.
    pub launch : W → Launch F N W × W
    unfolding read_rules parse_external_labels
    launch w =
        if is_empty f.rule_paths
        then (exits rule_required, w)
        else if is_empty f.clickhouse_dsn && not f.dry_run
        then (exits dsn_required, w)
        else elim (parse_external_labels f.external_labels_raw) [
          | none ↦ (exits invalid_external_label, w)
          | some labels ↦ read_rules labels w
        ]
