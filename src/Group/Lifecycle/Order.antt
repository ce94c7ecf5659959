-- ===== src/Group/Lifecycle/Order.antt =====
-- The life of a group (rule/group.go) as evaluations and updates in the order in which they happen.
use mathlib.Core.List.{append_assoc, append-nil}
use chalert.Prelude.{◌≡◌, refl, ap, inl, inr, Bool-cases, pos, ltb_ℤ, List, [], ◌∷◌, ◌++◌, Option}
use chalert.Time.{Time}
use chalert.Rule.Retire.{StateStore, Retirements}
use chalert.Group.{Group}
use chalert.Group.Eval.{eval, reload_group}
use chalert.Group.Lifecycle.{
  Phase, opening, selecting, returned, crashed, updating, Loop, Moment, opened, evaluate, begin,
  update, Event, begins, ticks, applies, offers, disturbs, Step, begin_step, tick_step,
  receive_step, apply_step, done_step, cancel_step, close_step, cancels_step, offer_step,
  disturb_step, Trace, stops, goes,
}

-- A group without channels: what it is, what it shares, and the definitions that it has still to take.
pub record Machine (F W : Type 0) : Type 0 where
  pub group : Group F
  pub retirements : Retirements F
  pub stored : W
  pub definitions : List (Group F)

abbrev pub in_hand : {F : Type 0} → Phase F → List (Group F)
in_hand opening = []
in_hand selecting = []
in_hand returned = []
in_hand crashed = []
in_hand (updating ng) = ng ∷ []

module _ {F W : Type 0} where
  abbrev pub waiting : Loop F W → List (Group F)
  waiting l = in_hand l.phase ++ l.offered

  abbrev pub machine_of : List (Group F) → Loop F W → Machine F W
  machine_of later l = record {
    group = l.group;
    retirements = l.retirements;
    stored = l.stored;
    definitions = waiting l ++ later;
  }

  abbrev offered_by : Event F W → List (Group F)
  offered_by (offers ng) = ng ∷ []
  offered_by _ = []

  -- The definitions that are handed over, in their order.
  abbrev pub offered_in : List (Event F W) → List (Group F)
  offered_in [] = []
  offered_in (e ∷ es) = offered_by e ++ offered_in es

  module _ (store : Option (StateStore F W)) where
    unfoldable pub reload_next : Time → List (Group F) → Machine F W → Machine F W
    reload_next at [] s = s
    reload_next at (ng ∷ rest) s =
        let (g, retire, w) = reload_group store at s.group ng s.retirements s.stored in
        record { group = g; retirements = retire; stored = w; definitions = rest }

    unfoldable pub evaluate_machine : Moment F → Machine F W → Machine F W
    evaluate_machine m s =
        let (g, retire, w, effects) =
          eval m.env m.error_text m.clock m.arrive store s.group s.retirements s.stored m.tick
            m.at in
        record s { group = g; retirements = retire; stored = w }

    -- An event at the machine: an evaluation, an update with the next definition, or a change of what
    -- it shares.
    unfoldable pub perform : Event F W → Machine F W → Machine F W
    unfolding evaluate_machine reload_next
    perform (begins m) s = evaluate_machine m s
    perform (ticks m) s = evaluate_machine m s
    perform (applies at) s = reload_next at s.definitions s
    perform (disturbs retire w) s = record s { retirements = retire; stored = w }
    perform _ s = s

    unfoldable pub replay : List (Event F W) → Machine F W → Machine F W
    unfolding perform
    replay [] s = s
    replay (e ∷ es) s = replay es (perform e s)

    perform-offers :
        (e : Event F W) (l l' : Loop F W) (later : List (Group F))
        → Step store e l l'
        → perform e (machine_of (offered_by e ++ later) l) ≡ machine_of later l'
    unfolding perform evaluate_machine reload_next evaluate begin update
    perform-offers _ l l' later (begin_step m _ h) =
        elim (Bool-cases (ltb_ℤ (pos 0) l.group.interval)) [
          | inl c ↦ rw (c, h) refl
          | inr c ↦ rw (c, h) refl
        ]
    perform-offers _ l l' later (tick_step m _ h) = rw h refl
    perform-offers _ l l' later (receive_step ng rest _ h o) = rw (h, o) refl
    perform-offers _ l l' later (apply_step at ng _ h) = rw h refl
    perform-offers _ l l' later (done_step _ h d) = rw h refl
    perform-offers _ l l' later (cancel_step _ h d) = rw h refl
    perform-offers _ l l' later (close_step _ h) = refl
    perform-offers _ l l' later (cancels_step _) = refl
    perform-offers _ l l' later (offer_step ng _) =
        ap (λ os. record (machine_of later l) { definitions = os }) (simp append_assoc)
    perform-offers _ l l' later (disturb_step retire w _) = refl

    pub replay-Trace :
        (es : List (Event F W)) (l l' : Loop F W) (later : List (Group F))
        → Trace store es l l'
        → replay es (machine_of (offered_in es ++ later) l) ≡ machine_of later l'
    unfolding replay
    replay-Trace _ l l' later (stops _) = refl
    replay-Trace _ l l' later (goes e es _ l1 _ s t) =
        rw
          (
            append_assoc (offered_by e) (offered_in es) later,
            perform-offers e l l1 (offered_in es ++ later) s,
          )
          (replay-Trace es l1 l' later t)

    -- Whatever happens to a group, in any order, it is what evaluations and updates make of it one after
    -- the other, as they come: each update takes the next of the definitions handed over with
    -- `UpdateWith`, so none is lost, taken twice or overtaken by another, and those that are left are the
    -- one that the loop holds and those whose callers wait.
    pub replay-opened :
        (es : List (Event F W)) (g : Group F) (retire : Retirements F) (w : W) (l : Loop F W)
        → Trace store es (opened g retire w) l
        → replay es
            (record { group = g; retirements = retire; stored = w; definitions = offered_in es })
          ≡ record {
            group = l.group;
            retirements = l.retirements;
            stored = l.stored;
            definitions = waiting l;
          }
    replay-opened es g retire w l t =
        rw (append-nil (offered_in es), append-nil (waiting l)) at
          (replay-Trace es (opened g retire w) l [] t)
