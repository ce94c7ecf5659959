-- ===== src/Main/Startup/Tests.antt =====
-- The start of cmd/chalert/main.go with one rule file, on the small driver of chclient's tests.
use chalert.Prelude.{given, ℕ, false, List, [], ◌∷◌, ◌++◌, none, some, codes, pos}
use chalert.Config
use chalert.Config.Identity.{hashed}
use chalert.Config.Parsing.{Yaml}
use chalert.Rule.Retire.{StateStore}
use chalert.Chclient.{Client}
use chalert.Chclient.Tests.{is_open, driver, driver-IsDriver, files, seconds}
use chalert.Main.Reload.{Running}
use chalert.Main.Startup.{Flags, Launch, launched, World, launch}
use chalert.Main.Startup.Clean.{IsClean, launch-IsClean}

abbrev rule : Config.Rule
rule = record {
  alert = codes "Down";
  expr = codes "SELECT 1";
  for_dur = pos 0;
  labels = [];
  annotations = [];
  keep_firing_for = pos 0;
  record_name = [];
  debug = none;
  id = 0;
}

abbrev group : Config.Group
group = record {
  name = codes "http";
  interval = pos 60;
  rules = rule ∷ [];
  labels = [];
  concurrency = pos 1;
  eval_delay = none;
  limit = none;
  connection = [];
  checksum = [];
  file = [];
}

abbrev yaml : Yaml
yaml = record {
  decode = λ text. record { documents = (group ∷ []) ∷ []; end_error = none };
  marshal = λ g. g.name;
  hex = λ n. [];
}

abbrev store : StateStore ℕ (List ℕ)
store = record {
  save = λ all w. (none, w);
  load_active = λ w. ([], some (codes "no such table"));
  record_history = λ at all w. (none, w);
}

-- The rule file and the password file can be read, and connections after the first time out.
abbrev slow : World Unit Unit Unit ℕ ℕ (List ℕ)
slow = record {
  fs = record {
    glob = λ p. given (p ∷ []);
    is_dir = λ path. given false;
    read_file = λ path. given (codes "secret" ++ 10 ∷ []);
  };
  yaml = yaml;
  fuel = 3;
  getenv = λ name. [];
  driver = driver;
  certificates = files;
  whole_seconds = seconds;
  run_statement = λ c s w. (none, w);
  query_hash = λ c expr. hashed 5;
  store_on = λ c db. store;
  duration_string = λ d. codes "1m0s";
}

abbrev quick : World Unit Unit Unit ℕ ℕ (List ℕ)
quick = record slow { driver = record driver { ping = λ c w. (none, w) } }

abbrev flags : Flags
flags = record {
  rule_paths = codes "a.yaml";
  evaluation_interval = pos 60;
  clickhouse_dsn = codes "clickhouse://db:9000";
  clickhouse_read_dsn = [];
  clickhouse_db = codes "default";
  clickhouse_user = [];
  clickhouse_pass = [];
  clickhouse_pass_file = codes "password";
  max_query_time = pos 0;
  notifier_urls = codes "http://am:9093";
  external_url = [];
  max_rows_to_read = pos 0;
  max_threads = pos 0;
  max_idle_conns = pos 0;
  max_open_conns = pos 0;
  default_limit = pos 0;
  dry_run = false;
  external_labels_raw = codes "env=prod" ∷ [];
  tls = record {
    enabled = false;
    ca_file = [];
    cert_file = [];
    key_file = [];
    server_name = [];
    insecure_skip_verify = false;
  };
}

launch-IsClean_example :
    IsClean slow (pos 100) is_open driver-IsDriver (7 ∷ []) (launch slow flags (pos 100) (7 ∷ []))
launch-IsClean_example = launch-IsClean slow (pos 100) is_open driver-IsDriver flags (7 ∷ [])

abbrev end : Launch ℕ ℕ (List ℕ) × List ℕ
end = launch quick flags (pos 100) []

abbrev no_running : Running ℕ (List ℕ)
no_running = record {
  groups = [];
  retirements = record { unwritten_writes = []; retired_rows_pending = 0 };
  stored = [];
  last_fp = 0;
  reload_errors = 0;
  reload_successes = 0;
  last_reload_success = pos 0;
  last_reload_successful = false;
}

abbrev client_of : Launch ℕ ℕ (List ℕ) → Client ℕ
client_of (launched client notify r) = client
client_of e = record { write = 0; read = 0; max_query_time = pos 0 }

abbrev running_of : Launch ℕ ℕ (List ℕ) → Running ℕ (List ℕ)
running_of (launched client notify r) = r
running_of e = no_running

abbrev no_connection : List ℕ
no_connection = []
