-- ===== src/Main/Startup/Reached.antt =====
-- What a successful start of cmd/chalert/main.go hands to its loop.
use chalert.Prelude.{[], ◌≡◌, List, Text, Map}
use chalert.Time.{Time}
use chalert.Config
use chalert.Config.Identity.{ok, normalize_rule_ids}
use chalert.Config.Parsing.{fingerprint}
use chalert.Chclient.{Client}
use chalert.Main.Reload.{Running}
use chalert.Main.Process.{start_loops, restored_groups, Reachable}
use chalert.Main.Startup.{Flags, Launch, exits, validated, launched, World, setup_of}
use chalert.Main.Startup.Stages.{IsAccepted}

module _ {P K O F N W : Type 0} (world : World P K O F N W) (f : Flags) (at : Time) where
  -- What a start that gets to its loop has done. The options are those of the flags, the alerts those
  -- that the store, on the write connection and the database of the flags, gives back.
  pub record IsStarted (client : Client N) (r : Running F W) (w : W) : Type 0 where
    pub labels : Map Text Text
    pub contents : Map Text Text
    pub parsed_groups : List Config.Group
    pub normalized : List Config.Group
    pub before : W
    pub accepted : IsAccepted world f labels contents parsed_groups
    pub was_normalized :
        normalize_rule_ids (world.query_hash client.read) parsed_groups ≡ ok normalized
    pub running :
        r.groups
        ≡ start_loops (
            restored_groups world.duration_string
              (record {
                default_interval = f.evaluation_interval;
                external_labels = labels;
                default_limit = f.default_limit;
              })
              ((world.store_on client.write f.clickhouse_db).load_active before).0
              normalized
              [])
    pub fingerprinted : r.last_fp ≡ fingerprint contents
    pub reachable : Reachable (setup_of world f labels client) r
    pub stored : w ≡ r.stored

  abbrev Starts : Launch F N W × W → Type 0
  Starts (exits e, w) = Unit
  Starts (validated n m, w) = Unit
  Starts (launched client notify r, w) = IsStarted client r w
