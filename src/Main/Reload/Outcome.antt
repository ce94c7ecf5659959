-- ===== src/Main/Reload/Outcome.antt =====
-- What a reload (cmd/chalert/main.go) leaves, by its outcome.
use chalert.Prelude.{
  none, some, ℕ, ◌≡◌, ◌≢◌, ◌⊎◌, refl, inl, inr, Bool, true, false, not, ◌&&◌, ◌==◌, Bool-cases,
  List, [], Text, Map, lookup, nat_eq, arith,
}
use chalert.Time.{Time}
use chalert.Config
use chalert.Config.Identity.{Result, ok, err, normalize_rule_ids}
use chalert.Config.Parsing.{Parsed, parsed, parse_error, parse, fingerprint}
use chalert.Main.{Live, registry}
use chalert.Main.Groups.Checksums.{target_at, checksum_at, target-reload_groups}
use chalert.Main.Groups.{is_some, is_some-reload_groups}
use chalert.Main.Reload.{
  Snapshot, files, unreadable, Setup, Running, ReloadOutcome, reloaded, unchanged, unreadable_files,
  unparsed, unnormalized, failed_reload, take_groups, normalize_and_take, parse_and_take, reload,
}

reloaded-cases : (o : ReloadOutcome) → (o ≡ reloaded) ⊎ (o ≢ reloaded)
reloaded-cases reloaded = inl refl
reloaded-cases unchanged = inr (λ e. ground (arith, e))
reloaded-cases (unreadable_files x) = inr (λ e. ground (arith, e))
reloaded-cases (unparsed x) = inr (λ e. ground (arith, e))
reloaded-cases (unnormalized x) = inr (λ e. ground (arith, e))

module _ {F W : Type 0} where
  -- Everything but the metrics is as it was.
  pub record IsKept (before after : Running F W) : Type 0 where
    pub same_groups : after.groups ≡ before.groups
    pub same_retirements : after.retirements ≡ before.retirements
    pub same_stored : after.stored ≡ before.stored
    pub same_fingerprint : after.last_fp ≡ before.last_fp

  abbrev Keeps : Running F W → Running F W × ReloadOutcome → Type 0
  Keeps r (after, outcome) = outcome ≢ reloaded → IsKept r after

  failed_reload-Keeps : (r : Running F W) (o : ReloadOutcome) → Keeps r (failed_reload r o)
  failed_reload-Keeps r o ne = record {
    same_groups = refl;
    same_retirements = refl;
    same_stored = refl;
    same_fingerprint = refl;
  }

  module _ (setup : Setup F W) (at : Time) where
    normalize_and_take-Keeps :
        (fp : ℕ) (cfgs : List Config.Group) (r : Running F W) (n : Result (List Config.Group))
        → normalize_rule_ids setup.query_hash cfgs ≡ n
        → Keeps r (normalize_and_take setup at fp cfgs r)
    unfolding normalize_and_take
    normalize_and_take-Keeps fp cfgs r (err e) h =
        rw (h, normalize_and_take) (failed_reload-Keeps r _)
    normalize_and_take-Keeps fp cfgs r (ok cfgs') h =
        rw (h, normalize_and_take) (λ ne. absurd (ne refl))

    parse_and_take-Keeps :
        (fp : ℕ) (contents : Map Text Text) (r : Running F W) (p : Parsed (List Config.Group))
        → parse setup.yaml setup.fuel setup.getenv contents ≡ p
        → Keeps r (parse_and_take setup at fp contents r)
    unfolding parse_and_take
    parse_and_take-Keeps fp contents r (parse_error e) h =
        rw (h, parse_and_take) (failed_reload-Keeps r _)
    parse_and_take-Keeps fp contents r (parsed cfgs) h =
        rw (h, parse_and_take)
          (normalize_and_take-Keeps fp cfgs r (normalize_rule_ids setup.query_hash cfgs) refl)

    reload_keeps :
        (force : Bool) (snapshot : Snapshot) (r : Running F W)
        → (reload setup at force snapshot r).1 ≢ reloaded
        → IsKept r (reload setup at force snapshot r).0
    unfolding reload
    reload_keeps force (unreadable e) r = failed_reload-Keeps r _
    reload_keeps force (files contents) r =
        elim (Bool-cases (not force && fingerprint contents == r.last_fp)) [
          | inl e ↦
              rw (e, reload)
                (λ ne. record {
                  same_groups = refl;
                  same_retirements = refl;
                  same_stored = refl;
                  same_fingerprint = refl;
                })
          | inr e ↦
              rw (e, reload)
                (parse_and_take-Keeps (fingerprint contents) contents r
                  (parse setup.yaml setup.fuel setup.getenv contents) refl)
        ]

    -- What a reload that ends as "reloaded" has done.
    pub record IsTaken (force : Bool) (snapshot : Snapshot) (r after : Running F W) : Type 0 where
      pub contents : Map Text Text
      pub parsed_groups : List Config.Group
      pub normalized : List Config.Group
      pub was_read : snapshot ≡ files contents
      pub needed : (not force && fingerprint contents == r.last_fp) ≡ false
      pub was_parsed : parse setup.yaml setup.fuel setup.getenv contents ≡ parsed parsed_groups
      pub was_normalized : normalize_rule_ids setup.query_hash parsed_groups ≡ ok normalized
      pub fingerprinted : after.last_fp ≡ fingerprint contents
      pub running :
          (id : ℕ)
          → is_some (lookup id after.groups)
            ≡ is_some
                (lookup id (registry {F = F} setup.duration_string setup.options normalized []))
      pub defined :
          (id : ℕ)
          → ((l : Live F) → lookup id r.groups ≡ some l → l.taking ≡ none)
          → target_at id after.groups
            ≡ checksum_at id (registry {F = F} setup.duration_string setup.options normalized [])
      pub reported : after.last_reload_successful ≡ true

    module _ (force : Bool) (contents : Map Text Text) (r : Running F W)
        (needed : (not force && fingerprint contents == r.last_fp) ≡ false) where
      take_groups-IsTaken :
          (cfgs cfgs' : List Config.Group)
          → parse setup.yaml setup.fuel setup.getenv contents ≡ parsed cfgs
          → normalize_rule_ids setup.query_hash cfgs ≡ ok cfgs'
          → IsTaken force (files contents) r (take_groups setup at (fingerprint contents) cfgs' r).0
      unfolding take_groups
      take_groups-IsTaken cfgs cfgs' p n = record {
        contents = contents;
        parsed_groups = cfgs;
        normalized = cfgs';
        was_read = refl;
        needed = needed;
        was_parsed = p;
        was_normalized = n;
        fingerprinted = refl;
        running =
            is_some-reload_groups setup.store at setup.duration_string setup.options cfgs' r.groups
              r.retirements r.stored;
        defined =
            target-reload_groups setup.store at setup.duration_string setup.options cfgs' r.groups
              r.retirements r.stored;
        reported = refl;
      }

      normalize_and_take-IsTaken :
          (cfgs : List Config.Group) (n : Result (List Config.Group))
          → parse setup.yaml setup.fuel setup.getenv contents ≡ parsed cfgs
          → normalize_rule_ids setup.query_hash cfgs ≡ n
          → (normalize_and_take setup at (fingerprint contents) cfgs r).1 ≡ reloaded
          → IsTaken force
              (files contents)
              r
              (normalize_and_take setup at (fingerprint contents) cfgs r).0
      unfolding normalize_and_take
      normalize_and_take-IsTaken cfgs (err e) p h =
          rw (h, normalize_and_take) (λ o. absurd (ground (arith, o)))
      normalize_and_take-IsTaken cfgs (ok cfgs') p h =
          rw (h, normalize_and_take) (λ o. take_groups-IsTaken cfgs cfgs' p h)

      parse_and_take-IsTaken :
          (p : Parsed (List Config.Group))
          → parse setup.yaml setup.fuel setup.getenv contents ≡ p
          → (parse_and_take setup at (fingerprint contents) contents r).1 ≡ reloaded
          → IsTaken force
              (files contents)
              r
              (parse_and_take setup at (fingerprint contents) contents r).0
      unfolding parse_and_take
      parse_and_take-IsTaken (parse_error e) h =
          rw (h, parse_and_take) (λ o. absurd (ground (arith, o)))
      parse_and_take-IsTaken (parsed cfgs) h =
          rw (h, parse_and_take)
            (normalize_and_take-IsTaken cfgs (normalize_rule_ids setup.query_hash cfgs) h refl)

    reload_takes :
        (force : Bool) (snapshot : Snapshot) (r : Running F W)
        → (reload setup at force snapshot r).1 ≡ reloaded
        → IsTaken force snapshot r (reload setup at force snapshot r).0
    unfolding reload
    reload_takes force (unreadable e) r = λ o. absurd (ground (arith, o))
    reload_takes force (files contents) r =
        elim (Bool-cases (not force && fingerprint contents == r.last_fp)) [
          | inl e ↦ rw (e, reload) (λ o. absurd (ground (arith, o)))
          | inr e ↦
              rw (e, reload)
                (parse_and_take-IsTaken force contents r e
                  (parse setup.yaml setup.fuel setup.getenv contents) refl)
        ]

    -- A reload either ends as "reloaded" or changes nothing but the metrics. In the first case the
    -- files could be read, the reload was forced or their fingerprint is not the loaded one, they
    -- parse, and their rules get identities; afterwards the fingerprint is theirs, the metric reports a
    -- success, and a group runs under an identity exactly when the files define a group with that
    -- identity. If the loop of that group had no definition to take, or no group ran under the identity,
    -- then the group has, or comes to with the definition that its loop has received, the checksum
    -- that the files give it. In the second case the groups with their alerts, what waits to be written, the store,
    -- and the fingerprint are as they were.
    pub reload_outcome :
        (force : Bool) (snapshot : Snapshot) (r : Running F W)
        → let (after, outcome) = reload setup at force snapshot r in
          ((outcome ≡ reloaded) × IsTaken force snapshot r after)
          ⊎ ((outcome ≢ reloaded) × IsKept r after)
    reload_outcome force snapshot r = elim (reloaded-cases (reload setup at force snapshot r).1) [
      | inl e ↦ inl (e, reload_takes force snapshot r e)
      | inr ne ↦ inr (ne, reload_keeps force snapshot r ne)
    ]
