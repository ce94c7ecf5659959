-- ===== src/Main/Process/Configured.antt =====
-- Which configuration the program (cmd/chalert/main.go) runs in every state that it reaches.
use chalert.Prelude.{
  Option-cases, ℕ, ◌≡◌, refl, ap, subst, ◌∙◌, inl, inr, Bool, Bool-cases, not, ◌&&◌, ◌==◌, List, [],
  ◌∷◌, some, Text, Map, lookup, insert, lookup-insert, nat_eq, arith,
}
use chalert.Time.{Time, Duration}
use chalert.Config
use chalert.Rule.Instance.{AlertInstance, AlertingRule}
use chalert.Group.{Group, GroupOptions, new_group, restore_state}
use chalert.Group.Eval.{Reading, Run, eval}
use chalert.Group.Eval.Keyed.{eval_changes_rules, checksum-reload_group}
use chalert.Main.{Live, started_loop, finish, registry}
use chalert.Rule.Retire.{Retirements}
use chalert.Main.Reload.{
  Snapshot, files, unreadable, Setup, Running, ReloadOutcome, unnormalized, unparsed,
  unreadable_files, reload, take_groups, normalize_and_take, parse_and_take, failed_reload,
}
use chalert.Config.Identity.{Result, ok, err, normalize_rule_ids}
use chalert.Config.Parsing.{Parsed, parsed, parse_error, parse, fingerprint}
use chalert.Rule.Exec.{Env, ExecError}
use chalert.Main.Process.{
  restored_groups, Startup, started, refused, start_groups, normalize_and_start, start,
  evaluate_group, evaluates, takes, reloads, take_definition, start_loops, Reachable, starts, steps,
}
use chalert.Main.Groups.Checksums.{target, checksum_at, target_at, AllTaken, target-reload_groups}

module _ {F : Type 0} where
  -- The start and a reload make groups with the same identities and checksums of one configuration.
  checksum-restored_groups :
      (duration_string : Duration → Text) (opts : GroupOptions) (active : List (AlertInstance F))
      (cfgs : List Config.Group) (id : ℕ) (groups reg : Map ℕ (Group F))
      → checksum_at id groups ≡ checksum_at id reg
      → checksum_at id (restored_groups duration_string opts active cfgs groups)
        ≡ checksum_at id (registry duration_string opts cfgs reg)
  unfolding restored_groups registry restore_state
  checksum-restored_groups duration_string opts active [] id groups reg h = h
  checksum-restored_groups duration_string opts active (cfg ∷ cfgs) id groups reg h =
      let ng : Group F = new_group duration_string opts cfg in
      let g = restore_state active ng in
      checksum-restored_groups duration_string opts active cfgs id (insert g.id g groups)
        (insert ng.id ng reg)
        (ground (arith, h, lookup-insert ng.id id g groups, lookup-insert ng.id id ng reg))

  target-start_loops :
      (id : ℕ) (groups : Map ℕ (Group F))
      → target_at id (start_loops groups) ≡ checksum_at id groups
  unfolding start_loops lookup
  target-start_loops id [] = refl
  target-start_loops id ((j, g) ∷ groups) = ground (arith, target-start_loops id groups)

module _ {F W : Type 0} (setup : Setup F W) where
  -- The files that the program runs: they parse, their identities are given, the fingerprint is kept,
  -- and the groups that run are theirs by identity, and by checksum once the loops have taken what they
  -- received.
  pub record IsConfigured (r : Running F W) : Type 0 where
    pub contents : Map Text Text
    pub parsed_groups : List Config.Group
    pub normalized : List Config.Group
    pub was_parsed : parse setup.yaml setup.fuel setup.getenv contents ≡ parsed parsed_groups
    pub was_normalized : normalize_rule_ids setup.query_hash parsed_groups ≡ ok normalized
    pub fingerprinted : r.last_fp ≡ fingerprint contents
    pub running :
        (id : ℕ)
        → target_at id r.groups
          ≡ checksum_at id (registry {F = F} setup.duration_string setup.options normalized [])

  -- What keeps the fingerprint and the checksums keeps the configuration.
  kept-IsConfigured :
      (r s : Running F W)
      → s.last_fp ≡ r.last_fp
      → ((id : ℕ) → target_at id s.groups ≡ target_at id r.groups)
      → IsConfigured r
      → IsConfigured s
  kept-IsConfigured r s fp same c = record {
    contents = c.contents;
    parsed_groups = c.parsed_groups;
    normalized = c.normalized;
    was_parsed = c.was_parsed;
    was_normalized = c.was_normalized;
    fingerprinted = fp ∙ c.fingerprinted;
    running = λ id. same id ∙ c.running id;
  }

  abbrev StartsConfigured : Startup F W → Type 0
  StartsConfigured (started r) = IsConfigured r
  StartsConfigured (refused o) = Unit

  module _ (at : Time) (active : List (AlertInstance F)) (w : W) (contents : Map Text Text) where
    normalize_and_start-StartsConfigured :
        (cfgs : List Config.Group) (n : Result (List Config.Group))
        → parse setup.yaml setup.fuel setup.getenv contents ≡ parsed cfgs
        → normalize_rule_ids setup.query_hash cfgs ≡ n
        → StartsConfigured (normalize_and_start setup at (fingerprint contents) cfgs active w)
    unfolding normalize_and_start start_groups
    normalize_and_start-StartsConfigured cfgs (err e) p h = rw (h, normalize_and_start) tt
    normalize_and_start-StartsConfigured cfgs (ok cfgs') p h =
        rw (h, normalize_and_start)
          (record {
            contents = contents;
            parsed_groups = cfgs;
            normalized = cfgs';
            was_parsed = p;
            was_normalized = h;
            fingerprinted = refl;
            running = λ id.
                target-start_loops id
                  (restored_groups setup.duration_string setup.options active cfgs' [])
                ∙ checksum-restored_groups setup.duration_string setup.options active cfgs' id [] []
                    refl;
          })

    start-StartsConfigured :
        (p : Parsed (List Config.Group))
        → parse setup.yaml setup.fuel setup.getenv contents ≡ p
        → StartsConfigured (start setup at (files contents) active w)
    unfolding start
    start-StartsConfigured (parse_error e) h = rw (h, start) tt
    start-StartsConfigured (parsed cfgs) h =
        rw (h, start) (normalize_and_start-StartsConfigured cfgs _ h refl)

  -- A loop that goes on with what it comes to keeps the configuration.
  inserted-IsConfigured :
      (r s : Running F W) (id : ℕ) (l l' : Live F)
      → s.groups ≡ insert id l' r.groups
      → s.last_fp ≡ r.last_fp
      → lookup id r.groups ≡ some l
      → target l' ≡ target l
      → IsConfigured r
      → IsConfigured s
  inserted-IsConfigured r s id l l' groups fp e same c =
      kept-IsConfigured r s fp
        (λ k.
          ground (arith, groups, e, same, (nat_eq.beq_iff id k).0, lookup-insert id k l' r.groups))
        c

  evaluated-IsConfigured :
      (env : Env F) (error_text : ExecError → Text) (clock : AlertingRule F → Reading)
      (arrive : List (Run F) → List (Run F)) (ts at : Time) (id : ℕ) (g : Group F) (r : Running F W)
      → lookup id r.groups ≡ some (started_loop g)
      → IsConfigured r
      → IsConfigured (evaluate_group setup env error_text clock arrive ts at id g r)
  unfolding evaluate_group
  evaluated-IsConfigured env error_text clock arrive ts at id g r e c =
      let (g', retire', w', effects) =
        eval env error_text clock arrive setup.store g r.retirements r.stored ts at in
      let same : g'.checksum ≡ g.checksum =
        ap (λ h. h.checksum)
          (eval_changes_rules env error_text clock arrive setup.store r.retirements r.stored ts at g
            g.rules refl) in
      inserted-IsConfigured r _ id (started_loop g) (started_loop g') refl refl e same c

  finish-target :
      (at : Time) (l : Live F) (retire : Retirements F) (w : W)
      → target (started_loop (finish setup.store at l retire w).0) ≡ target l
  unfolding finish
  finish-target at l retire w = elim (Option-cases l.taking) [
    | inl e ↦ rw (e, finish) refl
    | inr (ng, e) ↦ rw (e, finish) (checksum-reload_group setup.store at l.group ng retire w)
  ]

  taken-IsConfigured :
      (at : Time) (id : ℕ) (l : Live F) (r : Running F W)
      → lookup id r.groups ≡ some l
      → IsConfigured r
      → IsConfigured (take_definition setup at id l r)
  unfolding take_definition
  taken-IsConfigured at id l r e c =
      let (g, retire', w') = finish setup.store at l r.retirements r.stored in
      inserted-IsConfigured r _ id l (started_loop g) refl refl e
        (finish-target at l r.retirements r.stored) c

  module _ (at : Time) (r : Running F W) (taken : AllTaken r.groups) (c : IsConfigured r) where
    failed_reload-IsConfigured : (o : ReloadOutcome) → IsConfigured (failed_reload r o).0
    failed_reload-IsConfigured o = kept-IsConfigured r _ refl (λ id. refl) c

    module _ (contents : Map Text Text) where
      normalize_and_take-IsConfigured :
          (cfgs : List Config.Group) (n : Result (List Config.Group))
          → parse setup.yaml setup.fuel setup.getenv contents ≡ parsed cfgs
          → normalize_rule_ids setup.query_hash cfgs ≡ n
          → IsConfigured (normalize_and_take setup at (fingerprint contents) cfgs r).0
      unfolding normalize_and_take take_groups
      normalize_and_take-IsConfigured cfgs (err e) p h =
          rw (h, normalize_and_take) (failed_reload-IsConfigured (unnormalized e))
      normalize_and_take-IsConfigured cfgs (ok cfgs') p h =
          rw (h, normalize_and_take)
            (record {
              contents = contents;
              parsed_groups = cfgs;
              normalized = cfgs';
              was_parsed = p;
              was_normalized = h;
              fingerprinted = refl;
              running = λ id.
                  target-reload_groups setup.store at setup.duration_string setup.options cfgs'
                    r.groups r.retirements r.stored id (taken id);
            })

      parse_and_take-IsConfigured :
          (p : Parsed (List Config.Group))
          → parse setup.yaml setup.fuel setup.getenv contents ≡ p
          → IsConfigured (parse_and_take setup at (fingerprint contents) contents r).0
      unfolding parse_and_take
      parse_and_take-IsConfigured (parse_error e) h =
          rw (h, parse_and_take) (failed_reload-IsConfigured (unparsed e))
      parse_and_take-IsConfigured (parsed cfgs) h =
          rw (h, parse_and_take) (normalize_and_take-IsConfigured cfgs _ h refl)

    reload-IsConfigured :
        (force : Bool) (snapshot : Snapshot) → IsConfigured (reload setup at force snapshot r).0
    unfolding reload
    reload-IsConfigured force (unreadable e) = failed_reload-IsConfigured (unreadable_files e)
    reload-IsConfigured force (files contents) =
        elim (Bool-cases (not force && fingerprint contents == r.last_fp)) [
          | inl e ↦ rw (e, reload) c
          | inr e ↦ rw (e, reload) (parse_and_take-IsConfigured contents _ refl)
        ]

  -- No reload of a run came while the loop of a group had a definition to take.
  abbrev pub IsPrompt : (r : Running F W) → Reachable setup r → Type 0
  IsPrompt r (starts at snapshot active w _ e) = Unit
  IsPrompt s (steps r _ reached (evaluates env error_text clock arrive ts at id g _ e)) =
      IsPrompt r reached
  IsPrompt s (steps r _ reached (takes at id l _ e)) = IsPrompt r reached
  IsPrompt s (steps r _ reached (reloads at force snapshot _)) =
      AllTaken r.groups × IsPrompt r reached

  -- In every state that the program reaches by a run in which each reload found the loops of all
  -- groups without a definition to take, there are files whose groups parse and get identities, and
  -- whose fingerprint is the one kept for the next check; and the groups that run are exactly those
  -- that these files define, by their identities and by the checksums that they have or come to with
  -- the definition that their loop has received, whatever reloads failed or were skipped since.
  pub Reachable-IsConfigured :
      (r : Running F W) (reached : Reachable setup r) → IsPrompt r reached → IsConfigured r
  unfolding start
  Reachable-IsConfigured r (starts at (unreadable x) active w _ e) p = absurd (ground (arith, e))
  Reachable-IsConfigured r (starts at (files contents) active w _ e) p =
      subst StartsConfigured e (start-StartsConfigured at active w contents _ refl)
  Reachable-IsConfigured s
        (steps r _ reached (evaluates env error_text clock arrive ts at id g _ e)) p =
      evaluated-IsConfigured env error_text clock arrive ts at id g r e
        (Reachable-IsConfigured r reached p)
  Reachable-IsConfigured s (steps r _ reached (takes at id l _ e)) p =
      taken-IsConfigured at id l r e (Reachable-IsConfigured r reached p)
  Reachable-IsConfigured s (steps r _ reached (reloads at force snapshot _)) p =
      reload-IsConfigured at r p.0 (Reachable-IsConfigured r reached p.1) force snapshot
