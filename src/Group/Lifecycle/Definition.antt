-- ===== src/Group/Lifecycle/Definition.antt =====
-- Which definition a group has once nothing waits to be taken (rule/group.go), and how two reloads of
-- cmd/chalert/main.go that follow at once can leave it with the first of them.
use mathlib.Core.List.{append_assoc, append-nil}
use chalert.Prelude.{
  ◌≡◌, refl, ap, sym, ◌∙◌, inl, inr, true, false, Bool-cases, List, [], ◌∷◌, ◌++◌, Option, Text,
  text_eq, text_eq_iff, subst,
}
use chalert.Time.{Time}
use chalert.Rule.Retire.{StateStore}
use chalert.Group.{Group, update_with}
use chalert.Group.Eval.{reload_group}
use chalert.Group.Eval.Keyed.{eval_changes_rules}
use chalert.Group.Lifecycle.{
  selecting, updating, Loop, Moment, hand_over, update, Event, begins, ticks, applies, receives,
  sees_done, sees_cancel, closes, cancels, offers, disturbs, Step, Trace, stops, goes, receive_step,
  apply_step,
}
use chalert.Group.Lifecycle.Order.{
  Machine, in_hand, waiting, machine_of, offered_in, reload_next, evaluate_machine, perform, replay,
  replay-Trace,
}

-- The checksum of the definition that is handed over last, or of the group as it is.
abbrev pub last_checksum : {F : Type 0} → Text → List (Group F) → Text
last_checksum checksum [] = checksum
last_checksum checksum (ng ∷ rest) = last_checksum ng.checksum rest

module _ {F W : Type 0} where
  module _ (store : Option (StateStore F W)) where
    -- The checksum once all definitions are taken.
    abbrev final : Machine F W → Text
    final s = last_checksum s.group.checksum s.definitions

    final-evaluate_machine :
        (m : Moment F) (s : Machine F W) → final (evaluate_machine store m s) ≡ final s
    unfolding evaluate_machine
    final-evaluate_machine m s =
        ap (λ g. last_checksum g.checksum s.definitions)
          (eval_changes_rules m.env m.error_text m.clock m.arrive store s.retirements s.stored
            m.tick m.at s.group s.group.rules refl)

    final-reload_next :
        (at : Time) (ds : List (Group F)) (s : Machine F W)
        → s.definitions ≡ ds
        → final (reload_next store at ds s) ≡ final s
    unfolding reload_next reload_group update_with
    final-reload_next at [] s e = refl
    final-reload_next at (ng ∷ rest) s e = rw e refl

    final-perform : (e : Event F W) (s : Machine F W) → final (perform store e s) ≡ final s
    unfolding perform
    final-perform (begins m) s = final-evaluate_machine m s
    final-perform (ticks m) s = final-evaluate_machine m s
    final-perform (applies at) s = final-reload_next at s.definitions s refl
    final-perform receives s = refl
    final-perform sees_done s = refl
    final-perform sees_cancel s = refl
    final-perform closes s = refl
    final-perform cancels s = refl
    final-perform (offers ng) s = refl
    final-perform (disturbs retire w) s = refl

    final-replay : (es : List (Event F W)) (s : Machine F W) → final (replay store es s) ≡ final s
    unfolding replay
    final-replay [] s = refl
    final-replay (e ∷ es) s = final-replay es (perform store e s) ∙ final-perform e s

    -- Once no definition waits and the loop holds none, the group has the checksum of the definition
    -- that was taken last.
    settled_checksum :
        (es : List (Event F W)) (l l' : Loop F W)
        → Trace store es l l'
        → waiting l' ≡ []
        → l'.group.checksum ≡ last_checksum l.group.checksum (waiting l ++ offered_in es)
    settled_checksum es l l' t h =
        ap (last_checksum l'.group.checksum) (sym (append-nil (waiting l') ∙ h))
        ∙ ap final (sym (replay-Trace store es l l' [] t))
        ∙ final-replay es (machine_of (offered_in es ++ []) l)
        ∙ ap (λ os. last_checksum l.group.checksum (waiting l ++ os)) (append-nil (offered_in es))

    pub hand_over_same :
        (ng : Group F) (l : Loop F W)
        → text_eq l.group.checksum ng.checksum ≡ true
        → hand_over ng l ≡ l
    unfolding hand_over
    hand_over_same ng l c = rw c refl

    pub hand_over_changed :
        (ng : Group F) (l : Loop F W)
        → text_eq l.group.checksum ng.checksum ≡ false
        → hand_over ng l ≡ record l { offered = l.offered ++ ng ∷ [] }
    unfolding hand_over
    hand_over_changed ng l c = rw c refl

    -- A reload with a definition reaches a group for which none waits and whose loop holds none: if no
    -- other is handed over after it, then once none waits again the group has the definition's checksum,
    -- whatever evaluations, updates and stops come before that, and in any order.
    pub hand_over_taken :
        (es : List (Event F W)) (ng : Group F) (l l' : Loop F W)
        → waiting l ≡ []
        → Trace store es (hand_over ng l) l'
        → offered_in es ≡ []
        → waiting l' ≡ []
        → l'.group.checksum ≡ ng.checksum
    hand_over_taken es ng l l' h t none_after h' =
        elim (Bool-cases (text_eq l.group.checksum ng.checksum)) [
          | inl c ↦
              let t' = subst (λ k. Trace store es k l') (hand_over_same ng l c) t in
              rw (h, none_after) at (settled_checksum es l l' t' h')
              ∙ (text_eq_iff l.group.checksum ng.checksum).0 c
          | inr c ↦
              let t' = subst (λ k. Trace store es k l') (hand_over_changed ng l c) t in
              rw
                (
                  none_after,
                  append-nil,
                  sym (append_assoc (in_hand l.phase) l.offered (ng ∷ [])),
                  h,
                )
                at (settled_checksum es (record l { offered = l.offered ++ ng ∷ [] }) l' t' h')
        ]

    one : {e : Event F W} {l l' : Loop F W} → Step store e l l' → Trace store (e ∷ []) l l'
    one {e} {l} {l'} s = goes e [] l l' l' s (stops l')

    -- The checksum of a group is read before the loop has applied what it holds. So when a reload hands
    -- over the definition b and the loop has received it, a second reload that goes back to the
    -- definition a, which the group still has, hands over nothing: the group ends with the definition b,
    -- none waits, and the rules of the files are a.
    pub hand_over_lost :
        (at : Time) (a b : Group F) (l : Loop F W)
        → l.phase ≡ selecting
        → l.offered ≡ []
        → l.group.checksum ≡ a.checksum
        → text_eq a.checksum b.checksum ≡ false
        → let received = record (hand_over b l) { phase = updating b; offered = [] } in
          let after = update store at b (hand_over a received) in
          Trace store (receives ∷ []) (hand_over b l) received
          × Trace store (applies at ∷ []) (hand_over a received) after
          × (after.phase ≡ selecting)
          × (waiting after ≡ [])
          × (after.group.checksum ≡ b.checksum)
    unfolding update reload_group update_with
    hand_over_lost at a b l h o e n =
        let n' : text_eq l.group.checksum b.checksum ≡ false = rw e n in
        let same : text_eq l.group.checksum a.checksum ≡ true = (text_eq_iff _ _).1 e in
        rw
          (
            hand_over_changed b l n',
            hand_over_same a (record l { phase = updating b; offered = [] }) same,
          )
          (
            one (receive_step b [] (record l { offered = l.offered ++ b ∷ [] }) h (rw o refl)),
            one (apply_step at b (record l { phase = updating b; offered = [] }) refl),
            refl,
            refl,
            refl,
          )
