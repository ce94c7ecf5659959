-- ===== src/Main/Process/Own.antt =====
-- A start and a reload of cmd/chalert/main.go: whose alerts the rules of its groups hold.
use chalert.Prelude.{
  none, some, subst, ℕ, ◌≡◌, refl, ◌∙◌, inl, inr, Bool-cases, List, [], ◌∷◌, All, Option,
  Option-cases, Text, text_eq, Map, lookup, insert, insert-All, lookup-All, nat_eq,
}
use chalert.Time.{Time, Duration}
use chalert.Config
use chalert.Rule.Instance.{AlertInstance}
use chalert.Rule.Exec.Sound.{IsSound}
use chalert.Rule.Retire.{StateStore, Retirements}
use chalert.Group.{Group, GroupOptions, new_group, restore_state}
use chalert.Group.Keyed.{
  new_group-IsSound, restore_state-IsSound, update_with-IsSound, update_with-id,
}
use chalert.Group.Eval.{retire_rules, reload_group}
use chalert.Main.{
  Live, started_loop, finish, registry, stop_removed, update_or_start, reload_groups,
}
use chalert.Main.Process.{restored_groups, start_loops}

module _ {F : Type 0} where
  -- A group stands under its own identity, and the alerts of its rules are their own.
  abbrev IsOwnGroup : ℕ × Group F → Type 0
  IsOwnGroup p = (p.1.id ≡ p.0) × All IsSound p.1.rules

  abbrev AreOwnGroups : Map ℕ (Group F) → Type 0
  AreOwnGroups groups = All IsOwnGroup groups

  abbrev IsSoundDefinition : Option (Group F) → Type 0
  IsSoundDefinition none = Unit
  IsSoundDefinition (some ng) = All IsSound ng.rules

  -- So does a group that runs, also with the definition that its loop has received.
  abbrev pub IsOwn : ℕ × Live F → Type 0
  IsOwn p = IsOwnGroup (p.0, p.1.group) × IsSoundDefinition p.1.taking

  abbrev pub AreOwn : Map ℕ (Live F) → Type 0
  AreOwn groups = All IsOwn groups

  pub restored_groups-AreOwnGroups :
      (duration_string : Duration → Text) (opts : GroupOptions) (active : List (AlertInstance F))
      (cfgs : List Config.Group) (groups : Map ℕ (Group F))
      → AreOwnGroups groups
      → AreOwnGroups (restored_groups duration_string opts active cfgs groups)
  unfolding restored_groups
  restored_groups-AreOwnGroups duration_string opts active [] groups h = h
  restored_groups-AreOwnGroups duration_string opts active (cfg ∷ cfgs) groups h =
      let g : Group F = new_group duration_string opts cfg in
      let g' = restore_state active g in
      restored_groups-AreOwnGroups duration_string opts active cfgs (insert g'.id g' groups) (
        insert-All IsOwnGroup g'.id g' groups
          (refl, restore_state-IsSound active g (new_group-IsSound F duration_string opts cfg)) h)

  registry-AreOwnGroups :
      (duration_string : Duration → Text) (opts : GroupOptions) (cfgs : List Config.Group)
      (groups : Map ℕ (Group F))
      → AreOwnGroups groups
      → AreOwnGroups (registry duration_string opts cfgs groups)
  unfolding registry
  registry-AreOwnGroups duration_string opts [] groups h = h
  registry-AreOwnGroups duration_string opts (cfg ∷ cfgs) groups h =
      let g : Group F = new_group duration_string opts cfg in
      registry-AreOwnGroups duration_string opts cfgs (insert g.id g groups)
        (insert-All IsOwnGroup g.id g groups (refl, new_group-IsSound F duration_string opts cfg) h)

  pub start_loops-AreOwn :
      (groups : Map ℕ (Group F)) → AreOwnGroups groups → AreOwn (start_loops groups)
  unfolding start_loops
  start_loops-AreOwn [] h = tt
  start_loops-AreOwn ((id, g) ∷ groups) h = ((h.0, tt), start_loops-AreOwn groups h.1)

  module _ {W : Type 0} (store : Option (StateStore F W)) (at : Time) where
    pub finish-IsOwn :
        (id : ℕ) (l : Live F) (retire : Retirements F) (w : W)
        → IsOwn (id, l)
        → IsOwn (id, started_loop (finish store at l retire w).0)
    unfolding finish reload_group
    finish-IsOwn id l retire w h = elim (Option-cases l.taking) [
      | inl e ↦ rw (e, finish) ((h.0, tt))
      | inr (ng, e) ↦
          let sound : All IsSound ng.rules = subst IsSoundDefinition e h.1 in
          rw (e, finish)
            ((update_with-id l.group ng ∙ h.0.0, update_with-IsSound l.group ng h.0.1 sound), tt)
    ]

    stop_removed-AreOwn :
        (new_registry : Map ℕ (Group F)) (existing : Map ℕ (Live F)) (retire : Retirements F)
        (w : W)
        → AreOwn existing
        → AreOwn (stop_removed store at new_registry existing retire w).0
    unfolding stop_removed
    stop_removed-AreOwn new_registry [] retire w h = tt
    stop_removed-AreOwn new_registry ((id, og) ∷ rest) retire w h =
        let (g, closed, closed_w) = finish store at og retire w in
        let (retire', w') = retire_rules store at g.rules closed closed_w in
        elim (Option-cases (lookup id new_registry)) [
          | inl e ↦ rw (e, stop_removed) (stop_removed-AreOwn new_registry rest retire' w' h.1)
          | inr (ng, e) ↦
              rw (e, stop_removed) (h.0, stop_removed-AreOwn new_registry rest retire w h.1)
        ]

    update_or_start-AreOwn :
        (new_registry : Map ℕ (Group F)) (existing : Map ℕ (Live F)) (retire : Retirements F)
        (w : W)
        → AreOwnGroups new_registry
        → AreOwn existing
        → AreOwn (update_or_start store at new_registry existing retire w).0
    unfolding update_or_start
    update_or_start-AreOwn [] existing retire w n h = h
    update_or_start-AreOwn ((id, ng) ∷ rest) existing retire w n h =
        elim (Option-cases (lookup id existing)) [
          | inl e ↦
              rw (e, update_or_start)
                (update_or_start-AreOwn rest (insert id (started_loop ng) existing) retire w n.1
                  (insert-All IsOwn id (started_loop ng) existing (n.0, tt) h))
          | inr (og, e) ↦
              let (g, retire', w') = finish store at og retire w in
              let handed : Live F = record { group = g; taking = some ng } in
              let old = finish-IsOwn id og retire w (lookup-All IsOwn id og existing e h) in
              elim (Bool-cases (text_eq og.group.checksum ng.checksum)) [
                | inl same ↦
                    rw (e, update_or_start, same)
                      (update_or_start-AreOwn rest existing retire w n.1 h)
                | inr changed ↦
                    rw (e, update_or_start, changed)
                      (update_or_start-AreOwn rest (insert id handed existing) retire' w' n.1
                        (insert-All IsOwn id handed existing (old.0, n.0.1) h))
              ]
        ]

    pub reload_groups-AreOwn :
        (duration_string : Duration → Text) (opts : GroupOptions) (cfgs : List Config.Group)
        (existing : Map ℕ (Live F)) (retire : Retirements F) (w : W)
        → AreOwn existing
        → AreOwn (reload_groups store at duration_string opts cfgs existing retire w).0
    unfolding reload_groups
    reload_groups-AreOwn duration_string opts cfgs existing retire w h =
        let new_registry : Map ℕ (Group F) = registry duration_string opts cfgs [] in
        let (kept, retire', w') = stop_removed store at new_registry existing retire w in
        update_or_start-AreOwn new_registry kept retire' w'
          (registry-AreOwnGroups duration_string opts cfgs [] tt)
          (stop_removed-AreOwn new_registry existing retire w h)
