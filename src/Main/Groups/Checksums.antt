-- ===== src/Main/Groups/Checksums.antt =====
-- The checksums of the groups after a reload (reloadGroups of cmd/chalert/main.go).
use chalert.Prelude.{
  ℕ, ◌≡◌, refl, sym, subst, ◌∙◌, inl, inr, Bool-cases, ◌==◌, List, [], ◌∷◌, Option, none, some,
  Option-cases, Text, text_eq_iff, Map, lookup, insert, lookup-insert, then_map, IsDistinct, nat_eq,
  arith,
}
use chalert.Time.{Time, Duration}
use chalert.Config
use chalert.Rule.Retire.{StateStore, Retirements}
use chalert.Group.{Group, GroupOptions}
use chalert.Main.{
  Live, started_loop, finish, registry, stop_removed, update_or_start, reload_groups,
}
use chalert.Main.Groups.{
  lookup-stop_removed, stop_removed_gone, update_or_start_same, registry-IsDistinct,
}

module _ {F : Type 0} where
  -- The checksum that the group of a loop has, once the loop has taken what it received.
  abbrev pub target : Live F → Text
  target l = elim l.taking [ none ↦ l.group.checksum | some ng ↦ ng.checksum ]

  -- The checksum of the group under an identity, and the one that it comes to.
  abbrev pub checksum_at : ℕ → Map ℕ (Group F) → Option Text
  checksum_at id groups = then_map (lookup id groups) (λ g. some g.checksum)

  abbrev pub target_at : ℕ → Map ℕ (Live F) → Option Text
  target_at id groups = then_map (lookup id groups) (λ l. some (target l))

  -- No loop has received a definition that it has not taken.
  abbrev pub AllTaken : Map ℕ (Live F) → Type 0
  AllTaken groups = (id : ℕ) (l : Live F) → lookup id groups ≡ some l → l.taking ≡ none

module _ {F W : Type 0} (store : Option (StateStore F W)) (at : Time) where
  -- What a new registry gives an identity, and otherwise what it had.
  abbrev or_before : Option (Group F) → Option Text → Option Text
  or_before none before = before
  or_before (some ng) before = some ng.checksum

  -- A group whose identity the registry does not have is left as it is.
  update_or_start_absent :
      (reg : Map ℕ (Group F)) (existing : Map ℕ (Live F)) (retire : Retirements F) (w : W) (id : ℕ)
      (l : Live F)
      → lookup id existing ≡ some l
      → lookup id reg ≡ none
      → IsDistinct reg
      → lookup id (update_or_start store at reg existing retire w).0 ≡ some l
  update_or_start_absent reg existing retire w id l h none_there d =
      update_or_start_same store at reg existing retire w id l h
        (λ ng e. absurd (ground (arith, e, none_there))) d

  target-update_or_start :
      (reg : Map ℕ (Group F)) (existing : Map ℕ (Live F)) (retire : Retirements F) (w : W) (id : ℕ)
      → IsDistinct reg
      → ((l : Live F) → lookup id existing ≡ some l → l.taking ≡ none)
      → target_at id (update_or_start store at reg existing retire w).0
        ≡ or_before (lookup id reg) (target_at id existing)
  unfolding update_or_start lookup
  target-update_or_start [] existing retire w id d all = refl
  target-update_or_start ((j, ng) ∷ rest) existing retire w id d all =
      elim (Option-cases (lookup j existing)) [
        | inl e ↦
            let fresh = started_loop ng in
            let here = lookup-insert j id fresh existing in
            elim (Bool-cases (j == id)) [
              | inl hit ↦
                  let key : j ≡ id = (nat_eq.beq_iff j id).0 hit in
                  let absent : lookup id rest ≡ none = subst (λ x. lookup x rest ≡ none) key d.0 in
                  let found =
                    update_or_start_absent rest (insert j fresh existing) retire w id fresh
                      (ground (arith, here, hit)) absent d.1 in
                  rw (e, hit, update_or_start, found) refl
              | inr miss ↦ ground (
                arith,
                e,
                miss,
                here,
                target-update_or_start rest (insert j fresh existing) retire w id d.1
                    (λ l f. all l (ground (arith, f, here, miss))),
              )
            ]
        | inr (og, e) ↦
            let (g, retire', w') = finish store at og retire w in
            let handed : Live F = record { group = g; taking = some ng } in
            let here = lookup-insert j id handed existing in
            elim (Bool-cases (j == id)) [
              | inl hit ↦
                  let key : j ≡ id = (nat_eq.beq_iff j id).0 hit in
                  let absent : lookup id rest ≡ none = subst (λ x. lookup x rest ≡ none) key d.0 in
                  let old : lookup id existing ≡ some og =
                    subst (λ x. lookup x existing ≡ some og) key e in
                  let changed =
                    update_or_start_absent rest (insert j handed existing) retire' w' id handed
                      (ground (arith, here, hit)) absent d.1 in
                  let same = update_or_start_absent rest existing retire w id og old absent d.1 in
                  ground (
                    arith,
                    e,
                    hit,
                    changed,
                    same,
                    all og old,
                    (text_eq_iff og.group.checksum ng.checksum).0,
                  )
              | inr miss ↦ ground (
                arith,
                e,
                miss,
                here,
                target-update_or_start rest (insert j handed existing) retire' w' id d.1
                    (λ l f. all l (ground (arith, f, here, miss))),
                target-update_or_start rest existing retire w id d.1 all,
              )
            ]
      ]

  module _ (duration_string : Duration → Text) (opts : GroupOptions)
      (cfgs : List Config.Group) where
    pub target-reload_groups :
        (existing : Map ℕ (Live F)) (retire : Retirements F) (w : W) (id : ℕ)
        → ((l : Live F) → lookup id existing ≡ some l → l.taking ≡ none)
        → target_at id (reload_groups store at duration_string opts cfgs existing retire w).0
          ≡ checksum_at {F = F} id (registry duration_string opts cfgs [])
    unfolding reload_groups
    target-reload_groups existing retire w id all =
        let reg : Map ℕ (Group F) = registry duration_string opts cfgs [] in
        let (kept, retire', w') = stop_removed store at reg existing retire w in
        let distinct = registry-IsDistinct duration_string opts cfgs [] tt in
        elim (Option-cases (lookup id reg)) [
          | inl e ↦
              let gone = stop_removed_gone store at reg existing retire w id e in
              let updated =
                target-update_or_start reg kept retire' w' id distinct
                  (λ l f. absurd (ground (arith, f, gone))) in
              ground (arith, e, updated, gone)
          | inr (ng, e) ↦
              let still =
                lookup-stop_removed store at reg existing retire w id (ground (arith, e)) in
              let updated =
                target-update_or_start reg kept retire' w' id distinct
                  (λ l f. all l (sym still ∙ f)) in
              ground (arith, e, updated)
        ]
