-- ===== src/Main/Startup/Stages.antt =====
-- The stages of the start of cmd/chalert/main.go: what its flags and files must be for it to go on.
use chalert.Prelude.{
  Reply-cases, ◌≡◌, refl, inl, inr, true, false, Bool-cases, not, ◌&&◌, List, length, some,
  Option-cases, Text, is_empty, Map,
}
use chalert.Time.{Time}
use chalert.Config
use chalert.Config.Identity.{NormalizeError, Result, ok, err, normalize_rule_ids}
use chalert.Config.Files.{ReadFiles, files_read, not_read, read_files}
use chalert.Config.Parsing.{Parsed, parsed, parse_error, parse, fingerprint}
use chalert.Chclient.{Client, ClientError, Made, made, not_made, new}
use chalert.StateStore.Tables.{ensure_tables}
use chalert.Main.{count_rules, parse_external_labels}
use chalert.Main.Process.{start_groups}
use chalert.Main.Startup.{
  Flags, Fatal, reading_password, connecting, creating_tables, normalizing, Launch, exits,
  validated, launched, World, setup_of, notifier_of, client_config, connect_and_launch,
  create_and_launch, normalize_and_launch, read_password, with_groups, read_rules, launch,
}
use chalert.Main.Startup.Strings.{split}

module _ {P K O F N W : Type 0} (world : World P K O F N W) (f : Flags) where
  -- The flags for the rules and the labels are there, the files can be read, and they parse.
  pub record IsAccepted (labels contents : Map Text Text) (groups : List Config.Group)
      : Type 0 where
    pub has_paths : is_empty f.rule_paths ≡ false
    pub label_flags : parse_external_labels f.external_labels_raw ≡ some labels
    pub rule_files : read_files world.fs (split 59 f.rule_paths) ≡ files_read contents
    pub rule_groups : parse world.yaml world.fuel world.getenv contents ≡ parsed groups

  module _ (at : Time) where
    pub read_password-ends :
        (w : W) (Q : Launch F N W × W → Type 0) (go : Text → W → Launch F N W × W)
        → ((t : Text) → Q (exits (reading_password t), w))
        → ((password : Text) → Q (go password w))
        → Q (read_password world f at go w)
    unfolding read_password
    read_password-ends w Q go unreadable h = elim (Bool-cases (is_empty f.clickhouse_pass_file)) [
      | inl e ↦ rw (e, read_password) (h f.clickhouse_pass)
      | inr e ↦ elim (Reply-cases (world.fs.read_file f.clickhouse_pass_file)) [
        | inl (content, e') ↦ rw (e, read_password, e') (h _)
        | inr (t, e') ↦ rw (e, read_password, e') (unreadable t)
      ]
    ]

    -- What holds of the ends after the client is asked for holds of all that follows from there.
    module _ (labels contents : Map Text Text) (groups : List Config.Group)
        (Q : Launch F N W × W → Type 0)
        (at_tables : (t : Text) (w : W) → Q (exits (creating_tables t), w))
        (at_identities : (e : NormalizeError) (w : W) → Q (exits (normalizing e), w))
        (at_start : (client : Client N) (groups' : List Config.Group) (w : W)
          → normalize_rule_ids (world.query_hash client.read) groups ≡ ok groups'
          → let r =
              start_groups
                (setup_of world f labels client)
                at
                (fingerprint contents)
                groups'
                ((world.store_on client.write f.clickhouse_db).load_active w).0
                w in
            Q (launched client (notifier_of f) r, r.stored)) where
      normalize_and_launch-ends :
          (client : Client N) (w : W) (n : Result (List Config.Group))
          → normalize_rule_ids (world.query_hash client.read) groups ≡ n
          → Q (normalize_and_launch world f at labels contents groups client w)
      unfolding normalize_and_launch
      normalize_and_launch-ends client w (err e) h =
          rw (h, normalize_and_launch) (at_identities e w)
      normalize_and_launch-ends client w (ok groups') h =
          rw (h, normalize_and_launch) (at_start client groups' w h)

      create_and_launch-ends :
          (client : Client N) (w : W)
          → Q (create_and_launch world f at labels contents groups client w)
      unfolding create_and_launch
      create_and_launch-ends client w =
          let tables = ensure_tables (world.run_statement client.write) f.clickhouse_db w in
          elim (Option-cases tables.0) [
            | inl e ↦ rw (e, create_and_launch) (normalize_and_launch-ends client tables.1 _ refl)
            | inr (t, e) ↦ rw (e, create_and_launch) (at_tables t tables.1)
          ]

      pub connect_and_launch-ends :
          (password : Text) (w : W) (m : Made N)
          → let asked =
              new world.driver world.certificates world.whole_seconds
                (client_config f password)
                w in
            asked.0 ≡ m
            → ((e : ClientError) → asked.0 ≡ not_made e → Q (exits (connecting e), asked.1))
            → Q (connect_and_launch world f at labels contents groups password w)
      unfolding connect_and_launch
      connect_and_launch-ends password w (not_made e) h refused =
          rw (h, connect_and_launch) (refused e h)
      connect_and_launch-ends password w (made client) h refused =
          rw (h, connect_and_launch) (create_and_launch-ends client _)

    -- What holds of an end before the client is made, and of all that follows, holds of the start.
    module _ (w : W) (Q : Launch F N W × W → Type 0) (at_exit : (e : Fatal) → Q (exits e, w)) where
      module _
          (at_dry_run : (labels contents : Map Text Text) (groups : List Config.Group)
            → f.dry_run ≡ true
            → IsAccepted labels contents groups
            → Q (validated (length groups) (count_rules groups), w))
          (after : (labels contents : Map Text Text) (groups : List Config.Group) (password : Text)
            → IsAccepted labels contents groups
            → Q (connect_and_launch world f at labels contents groups password w)) where
        with_groups-ends :
            (labels contents : Map Text Text) (groups : List Config.Group)
            → IsAccepted labels contents groups
            → Q (with_groups world f at labels contents groups w)
        unfolding with_groups
        with_groups-ends labels contents groups a = elim (Bool-cases f.dry_run) [
          | inl e ↦ rw (e, with_groups) (at_dry_run labels contents groups e a)
          | inr e ↦
              rw (e, with_groups)
                (read_password-ends w Q (connect_and_launch world f at labels contents groups)
                  (λ t. at_exit _) (λ password. after labels contents groups password a))
        ]

        parsed-ends :
            (labels contents : Map Text Text) (r : Parsed (List Config.Group))
            → is_empty f.rule_paths ≡ false
            → parse_external_labels f.external_labels_raw ≡ some labels
            → read_files world.fs (split 59 f.rule_paths) ≡ files_read contents
            → parse world.yaml world.fuel world.getenv contents ≡ r
            → Q (read_rules world f at labels w)
        unfolding read_rules
        parsed-ends labels contents (parse_error e) p l h k = rw (h, read_rules, k) (at_exit _)
        parsed-ends labels contents (parsed groups) p l h k =
            rw (h, read_rules, k)
              (with_groups-ends labels contents groups
                (record { has_paths = p; label_flags = l; rule_files = h; rule_groups = k }))

        read_rules-ends :
            (labels : Map Text Text) (r : ReadFiles)
            → is_empty f.rule_paths ≡ false
            → parse_external_labels f.external_labels_raw ≡ some labels
            → read_files world.fs (split 59 f.rule_paths) ≡ r
            → Q (read_rules world f at labels w)
        unfolding read_rules
        read_rules-ends labels (not_read e) p l h = rw (h, read_rules) (at_exit _)
        read_rules-ends labels (files_read contents) p l h =
            parsed-ends labels contents (parse world.yaml world.fuel world.getenv contents) p l h
              refl

        pub launch-ends : Q (launch world f at w)
        unfolding launch
        launch-ends = elim (Bool-cases (is_empty f.rule_paths)) [
          | inl e ↦ rw (e, launch) (at_exit _)
          | inr e ↦ elim (Bool-cases (is_empty f.clickhouse_dsn && not f.dry_run)) [
            | inl d ↦ rw (e, launch, d) (at_exit _)
            | inr d ↦ elim (Option-cases (parse_external_labels f.external_labels_raw)) [
              | inl n ↦ rw (e, launch, d, n) (at_exit _)
              | inr (labels, l) ↦
                  rw (e, launch, d, l)
                    (read_rules-ends labels (read_files world.fs (split 59 f.rule_paths)) e l refl)
            ]
          ]
        ]
