-- ===== src/Group/Lifecycle/Ends.antt =====
-- The end of a group's loop (rule/group.go): that it can always return once the group is closed or the
-- context is cancelled.
use chalert.Prelude.{
  ℕ, ◌≡◌, ◌≢◌, ◌≤◌, refl, inl, inr, true, ◌||◌, Bool-cases, List, [], ◌∷◌, Option, length, pos,
  ltb_ℤ, arith,
}
use chalert.Time.{Time}
use chalert.Rule.Retire.{StateStore}
use chalert.Group.Lifecycle.{
  Phase, opening, selecting, returned, crashed, updating, Loop, Moment, evaluate, begin, update,
  Event, begins, applies, sees_done, sees_cancel, Step, begin_step, apply_step, done_step,
  cancel_step, Trace, stops, goes,
}

module _ {F W : Type 0} (store : Option (StateStore F W)) where
  -- A way for the loop to return: its events, and the loop at their end.
  abbrev CanReturn : ℕ → Loop F W → Type 0
  CanReturn n l =
      (es : List (Event F W)) × (l' : Loop F W) × Trace store es l l'
      × (l'.phase ≡ returned)
      × (length es ≤ n)

  selecting-CanReturn :
      (l : Loop F W) → l.phase ≡ selecting → (l.done_closed || l.cancelled) ≡ true → CanReturn 1 l
  selecting-CanReturn l h stop = elim (Bool-cases l.done_closed) [
    | inl d ↦
        (sees_done ∷ [], _, goes sees_done [] l _ _ (done_step l h d) (stops _), refl, omega arith)
    | inr d ↦ (
      sees_cancel ∷ [],
      _,
      goes sees_cancel [] l _ _ (cancel_step l h (ground (arith, stop, d))) (stops _),
      refl,
      omega arith,
    )
  ]

  after : (e : Event F W) (l l' : Loop F W) → Step store e l l' → CanReturn 1 l' → CanReturn 2 l
  after e l l' s (es, l'', t, r, n) = (e ∷ es, l'', goes e es l l' l'' s t, r, omega (arith, n))

  -- Once a group is closed or the context is cancelled, its loop can return, whatever it stands at: at
  -- once, or after the first evaluation or the update that it has begun, if the interval is positive.
  -- No tick and no further definition has to be taken before.
  pub can_return :
      (m : Moment F) (at : Time) (l : Loop F W) (p : Phase F)
      → l.phase ≡ p
      → p ≢ crashed
      → ltb_ℤ (pos 0) l.group.interval ≡ true
      → (l.done_closed || l.cancelled) ≡ true
      → CanReturn 2 l
  unfolding begin evaluate update
  can_return m at l opening h n i stop =
      after (begins m) l _ (begin_step m l h)
        (selecting-CanReturn (begin store m l) (rw i refl) stop)
  can_return m at l selecting h n i stop =
      let (es, l', t, r, k) = selecting-CanReturn l h stop in (es, l', t, r, omega (arith, k))
  can_return m at l returned h n i stop = ([], l, stops l, h, omega arith)
  can_return m at l crashed h n i stop = absurd (n refl)
  can_return m at l (updating ng) h n i stop =
      after (applies at) l _ (apply_step at ng l h)
        (selecting-CanReturn (update store at ng l) refl stop)
