-- ===== src/Chclient/Tests.antt =====
-- The client of chclient/client.go on a small driver, whose second connection never answers.
use chalert.Prelude.{
  given, denied, ℕ, suc, ◌+◌, ◌≤◌, ◌≡◌, refl, Bool, true, false, not, ◌&&◌, ◌||◌, ◌==◌, ==_iff, ltb,
  List, [], ◌∷◌, none, some, codes, ℤ, pos, arith, if◌then◌else◌,
}
use chalert.Time.{Duration}
use chalert.Chclient.{Config, Files, Options, Driver, new}
use chalert.Chclient.Balanced.{IsDriver, Balances, new_balanced}
use chalert.Chclient.Ignored.{idle, idle_limit_ignored}

pub is_open : ℕ → List ℕ → Bool
is_open c [] = false
is_open c (d ∷ w) = c == d || is_open c w

unfoldable pub released : ℕ → List ℕ → List ℕ
released c [] = []
released c (d ∷ w) = let rest = released c w in if c == d then rest else d ∷ rest

unfoldable pub total : List ℕ → ℕ
total [] = 0
total (c ∷ w) = c + total w

abbrev base_options : Options Unit Unit Unit
base_options = record {
  max_open_conns = pos 0;
  username = codes "default";
  password = [];
  tls = none;
  settings = [];
  others = tt;
}

-- A new connection has a number above all that are open.
abbrev pub driver : Driver Unit Unit Unit ℕ (List ℕ)
driver = record {
  parse_dsn = λ dsn. given base_options;
  open_with = λ o w. (given (suc (total w)), suc (total w) ∷ w);
  ping = λ c w. (if ltb 1 c then some (codes "timeout") else none, w);
  close = λ c w. (none, released c w);
  same = ◌==◌;
}

is_open_above : (c : ℕ) (w : List ℕ) → suc (total w) ≤ c → is_open c w ≡ false
unfolding is_open total
is_open_above c [] h = refl
is_open_above c (d ∷ w) h = ground (arith, is_open_above c w (ground (arith, h)), h)

is_open-released : (c d : ℕ) (w : List ℕ) → is_open d (released c w) ≡ not (c == d) && is_open d w
unfolding is_open released
is_open-released c d [] = ground arith
is_open-released c d (e ∷ w) = ground (arith, is_open-released c d w)

pub driver-IsDriver : IsDriver driver is_open
unfolding is_open
driver-IsDriver = record {
  same_iff = ==_iff;
  opens_new = λ o w c e.
      let number : suc (total w) ≡ c = ground (arith, e) in
      is_open_above c w (ground (arith, number));
  opens = λ o w c d e. let number : suc (total w) ≡ c = ground (arith, e) in ground (arith, number);
  fails_to_open = λ o w e d h. absurd (ground (arith, h));
  pings = λ c d w. refl;
  closes = is_open-released;
}

abbrev pub files : Files Unit Unit
files = record {
  read_file = λ path. denied (codes "no such file");
  pool_of_pem = λ pem. none;
  load_key_pair = λ cert key. denied (codes "no such file");
}

abbrev config : Config
config = record {
  dsn = codes "clickhouse://primary:9000";
  read_dsn = codes "clickhouse://replica:9000";
  username = [];
  password = codes "secret";
  tls = record {
    enabled = true;
    ca_file = [];
    cert_file = [];
    key_file = [];
    server_name = [];
    insecure_skip_verify = false;
  };
  max_query_time = pos 0;
  max_idle_conns = pos 0;
  max_open_conns = pos 20;
  max_rows_to_read = pos 0;
  max_threads = pos 0;
}

abbrev pub seconds : Duration → ℤ
seconds d = pos 30

new_balanced_example :
    Balances driver is_open driver-IsDriver (7 ∷ []) (new driver files seconds config (7 ∷ []))
new_balanced_example = new_balanced driver is_open driver-IsDriver files seconds config (7 ∷ [])

idle_limit_ignored_example :
    new driver files seconds (idle (pos 2) config) []
    ≡ new driver files seconds (idle (pos 9) config) []
idle_limit_ignored_example =
    idle_limit_ignored driver files seconds (pos 2) (pos 9) config []
      (λ e. absurd (ground (arith, e)))
