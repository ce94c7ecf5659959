-- ===== src/Group/Lifecycle/Ticker.antt =====
-- The ticker of a group's loop (rule/group.go): `time.NewTicker` panics for an interval that is not
-- positive, and what of the configuration leads to one.
use chalert.Prelude.{
  ◌≡◌, ◌≢◌, ◌↔◌, refl, ap, sym, inl, inr, Bool, true, false, Bool-cases, List, Option, Text, ℤ, pos,
  ltb_ℤ, eqb_ℤ, arith, if◌then◌else◌,
}
use chalert.Time.{Duration}
use chalert.Config
use chalert.Rule.Retire.{StateStore, Retirements}
use chalert.Group.{Group, GroupOptions, new_group, update_with}
use chalert.Group.Eval.{reload_group}
use chalert.Group.Eval.Keyed.{eval_changes_rules}
use chalert.Group.Lifecycle.{
  Phase, opening, selecting, returned, crashed, updating, Loop, Moment, opened, evaluate, begin,
  update, Event, Step, begin_step, tick_step, receive_step, apply_step, done_step, cancel_step,
  close_step, cancels_step, offer_step, disturb_step, Trace, stops, goes,
}

-- Where a loop can stand, given whether its interval is positive.
abbrev IsPossible : {F : Type 0} → Bool → Phase F → Type 0
IsPossible positive opening = Unit
IsPossible positive crashed = positive ≡ false
IsPossible positive _ = positive ≡ true

IsPossible-iff :
    {F : Type 0} {positive : Bool} (p : Phase F)
    → p ≢ opening
    → IsPossible positive p
    → (p ≡ crashed) ↔ (positive ≡ false)
IsPossible-iff opening n h = absurd (n refl)
IsPossible-iff crashed n h = (λ e. h, λ e. refl)
IsPossible-iff selecting n h = ground (arith, h)
IsPossible-iff returned n h = ground (arith, h)
IsPossible-iff (updating ng) n h = ground (arith, h)

-- The interval that a group gets is not positive only by the default.
interval_iff :
    (i d : ℤ)
    → ltb_ℤ i (pos 0) ≡ false
    → (ltb_ℤ (pos 0) (if eqb_ℤ i (pos 0) then d else i) ≡ false)
      ↔ ((eqb_ℤ i (pos 0) ≡ true) × (ltb_ℤ (pos 0) d ≡ false))
interval_iff i d h = elim (Bool-cases (eqb_ℤ i (pos 0))) [
  | inl c ↦ rw c ((λ e. (refl, e)), (λ p. p.1))
  | inr c ↦ rw c ((λ e. absurd (ground (arith, c, h, e))), (λ p. absurd (ground (arith, p.0))))
]

module _ {F W : Type 0} (store : Option (StateStore F W)) where
  abbrev is_positive : Loop F W → Bool
  is_positive l = ltb_ℤ (pos 0) l.group.interval

  interval-evaluate :
      (m : Moment F) (l : Loop F W) → (evaluate store m l).group.interval ≡ l.group.interval
  unfolding evaluate
  interval-evaluate m l =
      ap (λ g. g.interval)
        (eval_changes_rules m.env m.error_text m.clock m.arrive store l.retirements l.stored m.tick
          m.at l.group l.group.rules refl)

  -- What an event keeps: the interval, and that the loop stands where it can.
  abbrev IsKept : Loop F W → Loop F W → Type 0
  IsKept l l' = (l'.group.interval ≡ l.group.interval) × IsPossible (is_positive l) l'.phase

  Step-IsKept :
      {e : Event F W} (l l' : Loop F W)
      → Step store e l l'
      → IsPossible (is_positive l) l.phase
      → IsKept l l'
  unfolding begin evaluate update reload_group update_with
  Step-IsKept l l' (begin_step m _ h) p = (
    interval-evaluate m l,
    elim (Bool-cases (is_positive l)) [ inl c ↦ rw c refl | inr c ↦ rw c refl ],
  )
  Step-IsKept l l' (tick_step m _ h) p = (interval-evaluate m l, p)
  Step-IsKept l l' (receive_step ng rest _ h o) p = (refl, rw h at p)
  Step-IsKept l l' (apply_step at ng _ h) p = (refl, rw h at p)
  Step-IsKept l l' (done_step _ h d) p = (refl, rw h at p)
  Step-IsKept l l' (cancel_step _ h d) p = (refl, rw h at p)
  Step-IsKept l l' (close_step _ h) p = (refl, p)
  Step-IsKept l l' (cancels_step _) p = (refl, p)
  Step-IsKept l l' (offer_step ng _) p = (refl, p)
  Step-IsKept l l' (disturb_step retire w _) p = (refl, p)

  Trace-IsKept :
      (es : List (Event F W)) (l l' : Loop F W)
      → Trace store es l l'
      → IsPossible (is_positive l) l.phase
      → IsPossible (is_positive l) l'.phase
  Trace-IsKept _ l _ (stops _) p = p
  Trace-IsKept _ l l' (goes e es _ m _ s t) p =
      let (same, q) = Step-IsKept l m s p in rw (sym same) (Trace-IsKept es m l' t (rw same q))

  -- A loop that has begun has panicked exactly if its interval is not positive.
  crashed_iff :
      (es : List (Event F W)) (g : Group F) (retire : Retirements F) (w : W) (l : Loop F W)
      → Trace store es (opened g retire w) l
      → l.phase ≢ opening
      → (l.phase ≡ crashed) ↔ (ltb_ℤ (pos 0) g.interval ≡ false)
  crashed_iff es g retire w l t begun =
      IsPossible-iff l.phase begun (Trace-IsKept es (opened g retire w) l t tt)

  -- A group of the files that validation has let through, whose interval is not negative, crashes the
  -- program by the time its first evaluation is over exactly if the file gives it no interval and the
  -- default of the flags is not positive; with any other interval it never does.
  pub start_panics :
      (es : List (Event F W)) (duration_string : Duration → Text) (opts : GroupOptions)
      (cfg : Config.Group) (retire : Retirements F) (w : W) (l : Loop F W)
      → ltb_ℤ cfg.interval (pos 0) ≡ false
      → Trace store es (opened (new_group duration_string opts cfg) retire w) l
      → l.phase ≢ opening
      → (l.phase ≡ crashed)
        ↔ ((eqb_ℤ cfg.interval (pos 0) ≡ true) × (ltb_ℤ (pos 0) opts.default_interval ≡ false))
  unfolding new_group
  start_panics es duration_string opts cfg retire w l valid t begun =
      let iff = crashed_iff es (new_group duration_string opts cfg) retire w l t begun in
      let chosen = interval_iff cfg.interval opts.default_interval valid in
      (λ e. chosen.0 (iff.0 e), λ h. iff.1 (chosen.1 h))
