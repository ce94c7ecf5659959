-- ===== src/Group.antt =====
-- rule/group.go: groups of rules, made from their configuration and changed by a reload. `F` stands
-- for `float64`. A group's evaluation is in Group/Eval, and its loop with its channels in Group/Lifecycle.
pub mod Eval
pub mod Reload
pub mod Merge
pub mod Keyed
pub mod Lifecycle
use chalert.Prelude.{
  ℕ, Bool, true, false, not, ◌==◌, List, [], ◌∷◌, ◌++◌, map, Option, none, some, Text, codes,
  text_Eq, nat_eq, Map, lookup, insert, delete, ℤ, pos, ltb_ℤ, eqb_ℤ, if◌then◌else◌,
}
use chalert.Time.{Duration}
use chalert.Hash.{write, offset_basis}
use chalert.Config
use chalert.Config.{is_alerting}
use chalert.Rule.Instance.{
  AlertState, inactive, pending, firing, AlertInstance, AlertingRule, new_alerting_rule, get_alerts,
  restore,
}

pub record Group (F : Type 0) : Type 0 where
  pub id : ℕ
  pub name : Text
  pub file : Text
  pub rules : List (AlertingRule F)
  pub interval : Duration
  pub concurrency : ℤ
  pub limit : ℤ
  pub eval_delay : Option Duration
  pub labels : Map Text Text
  pub checksum : Text

-- `Retirements` of the options is shared by the groups, and is a state of its own here.
pub record GroupOptions : Type 0 where
  pub default_interval : Duration
  pub external_labels : Map Text Text
  pub default_limit : ℤ

-- A loop that writes all entries of the first map into the second.
pub overwrite : Map Text Text → Map Text Text → Map Text Text
overwrite [] into = into
overwrite ((k, v) ∷ rest) into = overwrite rest (insert k v into)

-- A loop that writes the entries of the first map that the second lacks.
pub fill : Map Text Text → Map Text Text → Map Text Text
fill [] into = into
fill ((k, v) ∷ rest) into =
    fill rest (elim (lookup k into) [ none ↦ insert k v into | some w ↦ into ])

-- The labels of a group's rule: its own, then the group's, then the external ones.
pub effective_labels : Map Text Text → Map Text Text → Map Text Text → Map Text Text
unfolding overwrite fill
effective_labels external group own = fill (overwrite group (overwrite external [])) own

resolved_limit : Option ℤ → ℤ → ℤ
resolved_limit (some n) default_limit = n
resolved_limit none default_limit = if ltb_ℤ (pos 0) default_limit then default_limit else pos 0

-- The identity of a group; `duration_string` is `Duration.String` of package time.
unfoldable pub group_id : (Duration → Text) → Text → Text → Duration → ℕ
group_id duration_string file name interval =
    write (write (write (write offset_basis file) (0xff ∷ [])) name) (duration_string interval)

module _ {F : Type 0} where
  -- The rules of a group: recording rules are skipped.
  pub build_rules :
      Text → Duration → Map Text Text → Map Text Text → List Config.Rule → List (AlertingRule F)
  unfolding effective_labels
  build_rules name interval external group [] = []
  build_rules name interval external group (r ∷ rest) =
      let rules = build_rules name interval external group rest in
      if is_alerting r
      then new_alerting_rule name interval
          (record r { labels = effective_labels external group r.labels })
        ∷ rules
      else rules

  -- `NewGroup`.
  unfoldable pub new_group : (Duration → Text) → GroupOptions → Config.Group → Group F
  unfolding build_rules resolved_limit group_id
  new_group duration_string opts cfg =
      let interval = if eqb_ℤ cfg.interval (pos 0) then opts.default_interval else cfg.interval in
      record {
        id = group_id duration_string cfg.file cfg.name interval;
        name = cfg.name;
        file = cfg.file;
        rules = build_rules cfg.name interval opts.external_labels cfg.labels cfg.rules;
        interval = interval;
        concurrency = if ltb_ℤ cfg.concurrency (pos 1) then pos 1 else cfg.concurrency;
        limit = resolved_limit cfg.limit opts.default_limit;
        eval_delay = cfg.eval_delay;
        labels = cfg.labels;
        checksum = cfg.checksum;
      }

  -- The registry of new rules: a later rule with the same identity takes the place of an earlier one.
  pub register : List (AlertingRule F) → Map ℕ (AlertingRule F) → Map ℕ (AlertingRule F)
  register [] registry = registry
  register (r ∷ rest) registry = register rest (insert r.rule_id r registry)

  -- A rule that goes on, with the definition of the new rule.
  pub redefine : AlertingRule F → AlertingRule F → AlertingRule F
  redefine nr old = record old {
    expr = nr.expr;
    for_dur = nr.for_dur;
    keep_fire = nr.keep_fire;
    labels = nr.labels;
    ann_tpls = nr.ann_tpls;
    debug = nr.debug;
    querier = nr.querier;
  }

  -- The loop over the old rules: those kept, those dropped, and the new rules that are left.
  pub keep_rules :
      List (AlertingRule F)
      → Map ℕ (AlertingRule F)
      → List (AlertingRule F) × List (AlertingRule F) × Map ℕ (AlertingRule F)
  unfolding redefine
  keep_rules [] registry = ([], [], registry)
  keep_rules (old ∷ rest) registry = elim (lookup old.rule_id registry) [
    | some nr ↦
        let (kept, dropped, left) = keep_rules rest (delete nr.rule_id registry) in
        (redefine nr old ∷ kept, dropped, left)
    | none ↦ let (kept, dropped, left) = keep_rules rest registry in (kept, old ∷ dropped, left)
  ]

  -- `updateWith`: the group after a reload, and the rules that it dropped.
  pub update_with : Group F → Group F → Group F × List (AlertingRule F)
  unfolding register keep_rules
  update_with g ng =
      let (kept, dropped, left) = keep_rules g.rules (register ng.rules []) in
      (
        record g {
          rules = kept ++ map (λ p. p.1) left;
          concurrency = ng.concurrency;
          labels = ng.labels;
          limit = ng.limit;
          eval_delay = ng.eval_delay;
          checksum = ng.checksum;
        },
        dropped,
      )

  pub alerts_of_rules : List (AlertingRule F) → List (AlertInstance F)
  alerts_of_rules [] = []
  alerts_of_rules (r ∷ rest) = get_alerts r ++ alerts_of_rules rest

  -- `RestoreState`.
  unfoldable pub restore_state : List (AlertInstance F) → Group F → Group F
  restore_state instances g = record g { rules = map (restore instances) g.rules }

  unfoldable pub has_rule : ℕ → List (AlertingRule F) → Bool
  has_rule id [] = false
  has_rule id (r ∷ rest) = if r.rule_id == id then true else has_rule id rest

  is_claimed : ℕ → List (Group F) → Bool
  unfolding has_rule
  is_claimed id [] = false
  is_claimed id (g ∷ rest) = if has_rule id g.rules then true else is_claimed id rest

  -- `Unclaimed`.
  unfoldable pub unclaimed : List (AlertInstance F) → List (Group F) → List (AlertInstance F)
  unfolding is_claimed
  unclaimed [] groups = []
  unclaimed (inst ∷ rest) groups =
      let out = unclaimed rest groups in
      elim inst.state [
        | firing ↦ if not (is_claimed inst.rule_id groups) then inst ∷ out else out
        | pending ↦ out
        | inactive ↦ out
      ]
