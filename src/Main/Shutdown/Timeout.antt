-- ===== src/Main/Shutdown/Timeout.antt =====
-- How a shutdown ends (cmd/chalert/main.go), and that its time limit plays no part in that.
use chalert.Prelude.{ℕ, ◌≡◌, ◌⊎◌, refl, inl, inr, Bool, true, Bool-cases, [], ◌∷◌, All, Map, arith}
use chalert.Rule.Retire.{StateStore}
use chalert.Time.{Time}
use chalert.Main.{Live, persist_all_state}
use chalert.Main.Reload.{Running}
use chalert.Main.Shutdown.{hung, stopped, in_time, close_groups, all_end, finish_all, shut_down}

module _ {F : Type 0} (ends : ℕ → Bool) where
  abbrev pub AllEnd : Map ℕ (Live F) → Type 0
  AllEnd groups = All (λ p. ends p.0 ≡ true) groups

  all_end-close_groups : (groups : Map ℕ (Live F)) → all_end ends groups ≡ close_groups ends groups
  unfolding close_groups all_end
  all_end-close_groups [] = refl
  all_end-close_groups ((id, g) ∷ groups) = ground (arith, all_end-close_groups groups)

  closed-AllEnd : (groups : Map ℕ (Live F)) → close_groups ends groups ≡ true → AllEnd groups
  unfolding close_groups
  closed-AllEnd [] h = tt
  closed-AllEnd ((id, g) ∷ groups) h = (ground (arith, h), closed-AllEnd groups (ground (arith, h)))

  AllEnd-closed : (groups : Map ℕ (Live F)) → AllEnd groups → close_groups ends groups ≡ true
  unfolding close_groups
  AllEnd-closed [] h = refl
  AllEnd-closed ((id, g) ∷ groups) h = ground (arith, h.0, AllEnd-closed groups h.1)

  -- A shutdown ends exactly when the loops of all groups end: then it has waited in time, the groups have
  -- taken the definitions that they had received, and it has saved the alerts of all groups and the retired ones that are not written. If a loop does not end, the
  -- shutdown hangs; it never gets to where the time limit would let it go on.
  pub shut_down_ends :
      {W : Type 0} (store : StateStore F W) (at : Time) (r : Running F W)
      → let (groups, retire, w) = finish_all ends store at r.groups r.retirements r.stored in
        (AllEnd r.groups
          × (shut_down ends store at r ≡ stopped in_time (persist_all_state store groups retire w)))
        ⊎ (¬ AllEnd r.groups × (shut_down ends store at r ≡ hung))
  unfolding shut_down
  shut_down_ends store at r = elim (Bool-cases (close_groups ends r.groups)) [
    | inl closed ↦
        inl (
          closed-AllEnd r.groups closed,
          rw (all_end-close_groups r.groups, closed, shut_down) refl,
        )
    | inr open_ ↦ inr (
      (λ all. absurd (ground (arith, AllEnd-closed r.groups all, open_))),
      rw (open_, shut_down) refl,
    )
  ]
