-- ===== src/Main/Process/Invariant.antt =====
-- What holds of the groups in every state that the program (cmd/chalert/main.go) reaches.
use chalert.Prelude.{
  ℕ, ◌≡◌, refl, subst, ◌∙◌, inl, inr, Bool, Bool-cases, not, ◌&&◌, ◌==◌, List, [], All, some, Text,
  Map, lookup, insert-All, lookup-All, nat_eq,
}
use chalert.Time.{Time}
use chalert.Config
use chalert.Config.Identity.{Result, ok, err, normalize_rule_ids}
use chalert.Config.Parsing.{Parsed, parsed, parse_error, parse, fingerprint}
use chalert.Rule.Instance.{AlertInstance}
use chalert.Rule.Exec.Sound.{IsSound}
use chalert.Group.Eval.{eval}
use chalert.Group.Eval.Keyed.{eval-IsSound, eval-id}
use chalert.Main.Reload.{
  Snapshot, files, unreadable, Setup, Running, take_groups, normalize_and_take, parse_and_take,
  reload,
}
use chalert.Main.Process.{
  Startup, started, refused, start_groups, normalize_and_start, start, evaluate_group,
  take_definition, restored_groups, takes, Step, evaluates, reloads, Reachable, starts, steps,
}
use chalert.Main.{Live, started_loop, finish}
use chalert.Main.Process.Own.{
  IsOwn, AreOwn, restored_groups-AreOwnGroups, start_loops-AreOwn, finish-IsOwn,
  reload_groups-AreOwn,
}

module _ {F W : Type 0} (setup : Setup F W) where
  module _ (at : Time) (active : List (AlertInstance F)) (w : W) where
    start_groups-AreOwn :
        (fp : ℕ) (cfgs : List Config.Group) → AreOwn (start_groups setup at fp cfgs active w).groups
    unfolding start_groups
    start_groups-AreOwn fp cfgs =
        start_loops-AreOwn (restored_groups setup.duration_string setup.options active cfgs [])
          (restored_groups-AreOwnGroups setup.duration_string setup.options active cfgs [] tt)

    -- Where the program starts at all, it starts with such groups.
    abbrev StartsOwn : Startup F W → Type 0
    StartsOwn (started r) = AreOwn r.groups
    StartsOwn (refused o) = Unit

    normalize_and_start-StartsOwn :
        (fp : ℕ) (cfgs : List Config.Group) (n : Result (List Config.Group))
        → normalize_rule_ids setup.query_hash cfgs ≡ n
        → StartsOwn (normalize_and_start setup at fp cfgs active w)
    unfolding normalize_and_start
    normalize_and_start-StartsOwn fp cfgs (err e) h = rw (h, normalize_and_start) tt
    normalize_and_start-StartsOwn fp cfgs (ok cfgs') h =
        rw (h, normalize_and_start) (start_groups-AreOwn fp cfgs')

    parse_and_start-StartsOwn :
        (contents : Map Text Text) (p : Parsed (List Config.Group))
        → parse setup.yaml setup.fuel setup.getenv contents ≡ p
        → StartsOwn (start setup at (files contents) active w)
    unfolding start
    parse_and_start-StartsOwn contents (parse_error e) h = rw (h, start) tt
    parse_and_start-StartsOwn contents (parsed cfgs) h =
        rw (h, start)
          (normalize_and_start-StartsOwn (fingerprint contents) cfgs
            (normalize_rule_ids setup.query_hash cfgs) refl)

    start-StartsOwn : (snapshot : Snapshot) → StartsOwn (start setup at snapshot active w)
    unfolding start
    start-StartsOwn (unreadable e) = tt
    start-StartsOwn (files contents) =
        parse_and_start-StartsOwn contents (parse setup.yaml setup.fuel setup.getenv contents) refl

  module _ (at : Time) (r : Running F W) (h : AreOwn r.groups) where
    normalize_and_take-AreOwn :
        (fp : ℕ) (cfgs : List Config.Group) (n : Result (List Config.Group))
        → normalize_rule_ids setup.query_hash cfgs ≡ n
        → AreOwn (normalize_and_take setup at fp cfgs r).0.groups
    unfolding normalize_and_take take_groups
    normalize_and_take-AreOwn fp cfgs (err e) n = rw (n, normalize_and_take) h
    normalize_and_take-AreOwn fp cfgs (ok cfgs') n =
        rw (n, normalize_and_take)
          (reload_groups-AreOwn setup.store at setup.duration_string setup.options cfgs' r.groups
            r.retirements r.stored h)

    parse_and_take-AreOwn :
        (fp : ℕ) (contents : Map Text Text) (p : Parsed (List Config.Group))
        → parse setup.yaml setup.fuel setup.getenv contents ≡ p
        → AreOwn (parse_and_take setup at fp contents r).0.groups
    unfolding parse_and_take
    parse_and_take-AreOwn fp contents (parse_error e) n = rw (n, parse_and_take) h
    parse_and_take-AreOwn fp contents (parsed cfgs) n =
        rw (n, parse_and_take)
          (normalize_and_take-AreOwn fp cfgs (normalize_rule_ids setup.query_hash cfgs) refl)

    reload-AreOwn :
        (force : Bool) (snapshot : Snapshot) → AreOwn (reload setup at force snapshot r).0.groups
    unfolding reload
    reload-AreOwn force (unreadable e) = h
    reload-AreOwn force (files contents) =
        elim (Bool-cases (not force && fingerprint contents == r.last_fp)) [
          | inl e ↦ rw (e, reload) h
          | inr e ↦
              rw (e, reload)
                (parse_and_take-AreOwn (fingerprint contents) contents
                  (parse setup.yaml setup.fuel setup.getenv contents) refl)
        ]

  Step-AreOwn : (r s : Running F W) → AreOwn r.groups → Step setup r s → AreOwn s.groups
  unfolding evaluate_group take_definition
  Step-AreOwn r s h (evaluates env error_text clock arrive ts at id g _ e) =
      let own = lookup-All IsOwn id (started_loop g) r.groups e h in
      let (g', retire', w', effects) =
        eval env error_text clock arrive setup.store g r.retirements r.stored ts at in
      insert-All IsOwn id (started_loop g') r.groups
        (
          (
            eval-id env error_text clock arrive setup.store r.retirements r.stored ts at g g.rules
                  refl
                ∙ own.0.0,
            eval-IsSound env error_text clock arrive setup.store r.retirements r.stored ts at g
                g.rules refl own.0.1,
          ),
          tt,
        )
        h
  Step-AreOwn r s h (takes at id l _ e) =
      let (g, retire', w') = finish setup.store at l r.retirements r.stored in
      insert-All IsOwn id (started_loop g) r.groups
        (finish-IsOwn setup.store at id l r.retirements r.stored
          (lookup-All IsOwn id l r.groups e h))
        h
  Step-AreOwn r s h (reloads at force snapshot _) = reload-AreOwn at r h force snapshot

  Reachable-AreOwn : (r : Running F W) → Reachable setup r → AreOwn r.groups
  Reachable-AreOwn r (starts at snapshot active w _ e) =
      subst (StartsOwn at active w) e (start-StartsOwn at active w snapshot)
  Reachable-AreOwn s (steps r _ reached step) = Step-AreOwn r s (Reachable-AreOwn r reached) step

  -- In every state that the program reaches, through evaluations, reloads, and the taking of the
  -- definitions that these hand over, in any order, a group runs under its own identity, and each of
  -- its rules holds one alert for each identity, filed under that identity and belonging to the rule,
  -- the restored ones included.
  pub Reachable-groups :
      (r : Running F W) (id : ℕ) (l : Live F)
      → Reachable setup r
      → lookup id r.groups ≡ some l
      → (l.group.id ≡ id) × All IsSound l.group.rules
  Reachable-groups r id l reached e =
      (lookup-All IsOwn id l r.groups e (Reachable-AreOwn r reached)).0
