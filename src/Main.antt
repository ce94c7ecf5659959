-- ===== src/Main.antt =====
-- cmd/chalert/main.go: a reload of all groups, the alerts saved at a shutdown, and the helpers for
-- external labels and for the DSN. The start, the reload, the requests for it and the shutdown are in
-- the modules below; signals are left out.
pub mod Groups
pub mod Reload
pub mod Requests
pub mod Process
pub mod Startup
pub mod Shutdown
pub mod Redaction
pub mod ExternalLabels
mod Tests
use chalert.Prelude.{
  ℕ, ◌+◌, ◌==◌, List, [], ◌∷◌, ◌++◌, length, take, drop, Option, none, some, Text, text_eq, text_Eq,
  nat_eq, codes, is_empty, Map, lookup, insert, if◌then◌else◌,
}
use chalert.Time.{Time, Duration}
use chalert.Config
use chalert.Config.Substitution.{index}
use chalert.Rule.Instance.{AlertInstance}
use chalert.Rule.Retire.{StateStore, Retirements, unwritten}
use chalert.Group.{Group, GroupOptions, new_group, alerts_of_rules}
use chalert.Group.Eval.{retire_group, reload_group}

-- A group whose loop runs, and the definition that the loop has received from `UpdateWith` and not yet
-- taken. As the channel has no buffer and only the main loop sends to it, there is at most one.
pub record Live (F : Type 0) : Type 0 where
  pub group : Group F
  pub taking : Option (Group F)

abbrev pub started_loop : {F : Type 0} → Group F → Live F
started_loop g = record { group = g; taking = none }

module _ {F : Type 0} where
  -- The registry of the groups of a configuration: the last of those with one identity stays.
  unfoldable pub registry :
      (Duration → Text) → GroupOptions → List Config.Group → Map ℕ (Group F) → Map ℕ (Group F)
  registry duration_string opts [] groups = groups
  registry duration_string opts (cfg ∷ cfgs) groups =
      let ng : Group F = new_group duration_string opts cfg in
      registry duration_string opts cfgs (insert ng.id ng groups)

  -- The alerts of all groups.
  alerts_of_groups : Map ℕ (Group F) → List (AlertInstance F)
  alerts_of_groups [] = []
  alerts_of_groups ((id, g) ∷ groups) = alerts_of_rules g.rules ++ alerts_of_groups groups

  -- What `persistAllState` saves.
  persisted : Map ℕ (Group F) → Retirements F → List (AlertInstance F)
  unfolding alerts_of_groups
  persisted groups retirements = alerts_of_groups groups ++ unwritten retirements.unwritten_writes

module _ {F W : Type 0} where
  -- `persistAllState`: an error of the store is only logged.
  pub persist_all_state : StateStore F W → Map ℕ (Group F) → Retirements F → W → W
  unfolding persisted
  persist_all_state store groups retirements w = elim (persisted groups retirements) [
    | [] ↦ w
    | a ∷ all ↦ (store.save (a ∷ all) w).1
  ]

  module _ (store : Option (StateStore F W)) (at : Time) where
    -- The loop of a group takes the definition that it has received, if there is one.
    pub finish : Live F → Retirements F → W → Group F × Retirements F × W
    finish l retire w = elim l.taking [
      | none ↦ (l.group, retire, w)
      | some ng ↦ reload_group store at l.group ng retire w
    ]

    -- The loop that stops the groups that are gone, and retires their rules. `Close` waits for the loop
    -- of the group, which takes what it has received before.
    pub stop_removed :
        Map ℕ (Group F) → Map ℕ (Live F) → Retirements F → W → Map ℕ (Live F) × Retirements F × W
    unfolding finish
    stop_removed new_registry [] retire w = ([], retire, w)
    stop_removed new_registry ((id, og) ∷ rest) retire w =
        let (g, closed, closed_w) = finish og retire w in
        let (retire', w') = retire_group store at g closed closed_w in
        let gone = stop_removed new_registry rest retire' w' in
        let (kept, retire'', w'') = stop_removed new_registry rest retire w in
        elim (lookup id new_registry) [ none ↦ gone | some ng ↦ ((id, og) ∷ kept, retire'', w'') ]

    -- The loop that hands the groups whose checksum changed their definitions, and starts the new ones.
    -- `UpdateWith` returns when the loop of the group has received the definition, for which the loop
    -- takes the one received before, but not this one.
    pub update_or_start :
        Map ℕ (Group F) → Map ℕ (Live F) → Retirements F → W → Map ℕ (Live F) × Retirements F × W
    unfolding finish
    update_or_start [] existing retire w = (existing, retire, w)
    update_or_start ((id, ng) ∷ rest) existing retire w = elim (lookup id existing) [
      | none ↦ update_or_start rest (insert id (started_loop ng) existing) retire w
      | some og ↦
          let (g, retire', w') = finish og retire w in
          let changed =
            update_or_start rest (insert id (record { group = g; taking = some ng }) existing)
              retire' w' in
          let same = update_or_start rest existing retire w in
          if text_eq og.group.checksum ng.checksum then same else changed
    ]

    -- `reloadGroups`.
    pub reload_groups :
        (Duration → Text)
        → GroupOptions
        → List Config.Group
        → Map ℕ (Live F)
        → Retirements F
        → W
        → Map ℕ (Live F) × Retirements F × W
    unfolding registry stop_removed update_or_start
    reload_groups duration_string opts cfgs existing retire w =
        let new_registry = registry duration_string opts cfgs [] in
        let (kept, retire', w') = stop_removed new_registry existing retire w in
        update_or_start new_registry kept retire' w'

pub count_rules : List Config.Group → ℕ
count_rules [] = 0
count_rules (g ∷ groups) = length g.rules + count_rules groups

-- The bytes before the first occurrence of a byte, and those after it.
pub cut_at : ℕ → Text → Option (Text × Text)
cut_at c [] = none
cut_at c (d ∷ s) =
    let rest = cut_at c s in
    if d == c then some ([], s) else elim rest [ none ↦ none | some p ↦ some (d ∷ p.0, p.1) ]

-- `parseExternalLabels` at one flag: "Name=value", with a name.
pub parse_label : Text → Option (Text × Text)
unfolding cut_at
parse_label pair = elim (cut_at 61 pair) [
  | none ↦ none
  | some kv ↦ if is_empty kv.0 then none else some kv
]

parse_labels : List Text → Map Text Text → Option (Map Text Text)
unfolding parse_label
parse_labels [] labels = some labels
parse_labels (pair ∷ raw) labels = elim (parse_label pair) [
  | none ↦ none
  | some kv ↦ parse_labels raw (insert kv.0 kv.1 labels)
]

-- `parseExternalLabels`; the nil map of no flags is the empty map.
pub parse_external_labels : List Text → Option (Map Text Text)
unfolding parse_labels
parse_external_labels raw = parse_labels raw []

abbrev prefix_end : Option ℕ → ℕ
prefix_end none = 2
prefix_end (some i) = i + 3

-- `redactDSN`: an "@" at the very start is no user information. Without "://" the index is -1.
pub redact_dsn : Text → Text
unfolding index
redact_dsn dsn = elim (index dsn (codes "@")) [
  | none ↦ dsn
  | some i ↦
      if i == 0
      then dsn
      else take (prefix_end (index dsn (codes "://"))) dsn ++ codes "***@" ++ drop (i + 1) dsn
]
