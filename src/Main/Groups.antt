-- ===== src/Main/Groups.antt =====
-- Which groups run after a reload (reloadGroups of cmd/chalert/main.go), and which it leaves alone.
pub mod Checksums
use chalert.Prelude.{
  ℕ, ◌≡◌, refl, sym, subst, ◌∙◌, inl, inr, Bool, true, false, Bool-cases, ◌||◌, ◌==◌, List, [], ◌∷◌,
  Option, none, some, Option-cases, Text, text_eq, Map, lookup, insert, lookup-insert,
  insert-IsDistinct, IsDistinct, nat_eq, arith,
}
use chalert.Time.{Time, Duration}
use chalert.Config
use chalert.Rule.Retire.{StateStore, Retirements}
use chalert.Group.{Group, GroupOptions, new_group}
use chalert.Group.Eval.{retire_rules, reload_group}
use chalert.Main.{
  Live, started_loop, finish, registry, stop_removed, update_or_start, reload_groups,
}

abbrev pub is_some : {A : Type 0} → Option A → Bool
is_some none = false
is_some (some a) = true

module _ {F W : Type 0} (store : Option (StateStore F W)) (at : Time) where
  pub lookup-stop_removed :
      (new_registry : Map ℕ (Group F)) (existing : Map ℕ (Live F)) (retire : Retirements F) (w : W)
      (id : ℕ)
      → is_some (lookup id new_registry) ≡ true
      → lookup id (stop_removed store at new_registry existing retire w).0 ≡ lookup id existing
  unfolding stop_removed lookup
  lookup-stop_removed new_registry [] retire w id h = refl
  lookup-stop_removed new_registry ((j, og) ∷ rest) retire w id h =
      let (g, closed, closed_w) = finish store at og retire w in
      let (retire', w') = retire_rules store at g.rules closed closed_w in
      ground (
        arith,
        lookup-stop_removed new_registry rest retire' w' id h,
        lookup-stop_removed new_registry rest retire w id h,
      )

  pub stop_removed_gone :
      (new_registry : Map ℕ (Group F)) (existing : Map ℕ (Live F)) (retire : Retirements F) (w : W)
      (id : ℕ)
      → lookup id new_registry ≡ none
      → lookup id (stop_removed store at new_registry existing retire w).0 ≡ none
  unfolding stop_removed lookup
  stop_removed_gone new_registry [] retire w id h = refl
  stop_removed_gone new_registry ((j, og) ∷ rest) retire w id h =
      let (g, closed, closed_w) = finish store at og retire w in
      let (retire', w') = retire_rules store at g.rules closed closed_w in
      ground (
        arith,
        stop_removed_gone new_registry rest retire' w' id h,
        stop_removed_gone new_registry rest retire w id h,
      )

  is_some-update_or_start :
      (new_registry : Map ℕ (Group F)) (existing : Map ℕ (Live F)) (retire : Retirements F) (w : W)
      (id : ℕ)
      → is_some (lookup id (update_or_start store at new_registry existing retire w).0)
        ≡ is_some (lookup id existing) || is_some (lookup id new_registry)
  unfolding update_or_start lookup
  is_some-update_or_start [] existing retire w id = ground arith
  is_some-update_or_start ((j, ng) ∷ rest) existing retire w id =
      elim (Option-cases (lookup j existing)) [
        | inl e ↦ ground (
          arith,
          e,
          is_some-update_or_start rest (insert j (started_loop ng) existing) retire w id,
          lookup-insert j id (started_loop ng) existing,
        )
        | inr (og, e) ↦
            let (g, retire', w') = finish store at og retire w in
            let handed : Live F = record { group = g; taking = some ng } in
            ground (
              arith,
              e,
              is_some-update_or_start rest (insert j handed existing) retire' w' id,
              is_some-update_or_start rest existing retire w id,
              lookup-insert j id handed existing,
            )
      ]

  pub update_or_start_same :
      (new_registry : Map ℕ (Group F)) (existing : Map ℕ (Live F)) (retire : Retirements F) (w : W)
      (id : ℕ) (og : Live F)
      → lookup id existing ≡ some og
      → ((ng : Group F)
          → lookup id new_registry ≡ some ng
          → text_eq og.group.checksum ng.checksum ≡ true)
      → IsDistinct new_registry
      → lookup id (update_or_start store at new_registry existing retire w).0 ≡ some og
  unfolding update_or_start lookup
  update_or_start_same [] existing retire w id og h same d = h
  update_or_start_same ((j, ng) ∷ rest) existing retire w id og h same d =
      elim (Bool-cases (j == id)) [
        | inl hit ↦
            let key : j ≡ id = (nat_eq.beq_iff j id).0 hit in
            let absent : lookup id rest ≡ none = subst (λ x. lookup x rest ≡ none) key d.0 in
            ground (
              arith,
              hit,
              subst (λ x. lookup x existing ≡ some og) (sym key) h,
              same ng (ground arith),
              update_or_start_same rest existing retire w id og h (λ k e. ground arith) d.1,
            )
        | inr miss ↦
            let later = λ (k : Group F) (e : lookup id rest ≡ some k). same k (ground arith) in
            elim (Option-cases (lookup j existing)) [
              | inl e ↦ ground (
                arith,
                e,
                update_or_start_same rest (insert j (started_loop ng) existing) retire w id og
                    (ground (arith, lookup-insert j id (started_loop ng) existing)) later d.1,
              )
              | inr (old, e) ↦
                  let (g, retire', w') = finish store at old retire w in
                  let handed : Live F = record { group = g; taking = some ng } in
                  ground (
                    arith,
                    e,
                    update_or_start_same rest existing retire w id og h later d.1,
                    update_or_start_same rest (insert j handed existing) retire' w' id og
                        (ground (arith, lookup-insert j id handed existing)) later d.1,
                  )
            ]
      ]

pub registry-IsDistinct :
    {F : Type 0} (duration_string : Duration → Text) (opts : GroupOptions)
    (cfgs : List Config.Group) (groups : Map ℕ (Group F))
    → IsDistinct groups
    → IsDistinct (registry duration_string opts cfgs groups)
unfolding registry
registry-IsDistinct duration_string opts [] groups d = d
registry-IsDistinct duration_string opts (cfg ∷ cfgs) groups d =
    let ng = new_group duration_string opts cfg in
    registry-IsDistinct duration_string opts cfgs (insert ng.id ng groups)
      (insert-IsDistinct ng.id ng groups d)

module _ {F W : Type 0} (store : Option (StateStore F W)) (at : Time) where
  module _ (duration_string : Duration → Text) (opts : GroupOptions)
      (cfgs : List Config.Group) where
    abbrev pub reloaded : Map ℕ (Live F) → Retirements F → W → Map ℕ (Live F)
    reloaded existing retire w =
        (reload_groups store at duration_string opts cfgs existing retire w).0

    -- After a reload a group runs under an identity exactly when the new configuration has a group
    -- with that identity.
    pub is_some-reload_groups :
        (existing : Map ℕ (Live F)) (retire : Retirements F) (w : W) (id : ℕ)
        → is_some (lookup id (reloaded existing retire w))
          ≡ is_some (lookup id (registry {F = F} duration_string opts cfgs []))
    unfolding reload_groups
    is_some-reload_groups existing retire w id =
        let reg : Map ℕ (Group F) = registry duration_string opts cfgs [] in
        let (kept, retire', w') = stop_removed store at reg existing retire w in
        let updated = is_some-update_or_start store at reg kept retire' w' id in
        elim (Option-cases (lookup id reg)) [
          | inl e ↦
              ground (arith, e, updated, stop_removed_gone store at reg existing retire w id e)
          | inr (ng, e) ↦ ground (arith, e, updated)
        ]

    -- A group whose checksum the new configuration did not change runs on as it was, with all the
    -- alerts of its rules.
    pub reload_groups_unchanged :
        (existing : Map ℕ (Live F)) (retire : Retirements F) (w : W) (id : ℕ) (og : Live F)
        (ng : Group F)
        → lookup id existing ≡ some og
        → lookup id (registry duration_string opts cfgs []) ≡ some ng
        → text_eq og.group.checksum ng.checksum ≡ true
        → lookup id (reloaded existing retire w) ≡ some og
    unfolding reload_groups
    reload_groups_unchanged existing retire w id og ng h e same =
        let reg : Map ℕ (Group F) = registry duration_string opts cfgs [] in
        let (kept, retire', w') = stop_removed store at reg existing retire w in
        update_or_start_same store at reg kept retire' w' id og
          (lookup-stop_removed store at reg existing retire w id (ground (arith, e)) ∙ h)
          (λ k f. ground (arith, e, f)) (registry-IsDistinct duration_string opts cfgs [] tt)
