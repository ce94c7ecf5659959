-- ===== src/Group/Lifecycle.antt =====
-- rule/group.go: the life of a group: the loop of `Start`, and `Close` and `UpdateWith`, which other
-- goroutines call. The channels are written out: `doneCh` is closed or not, `updateCh` has no buffer, so
-- a caller of `UpdateWith` waits until the loop receives its definition, and `finishedCh` is closed when
-- the loop has returned. What an evaluation does outside the group is left out here.
pub mod Order
pub mod Definition
pub mod Ends
pub mod Ticker
mod Tests
use chalert.Prelude.{
  ◌≡◌, Bool, true, false, List, [], ◌∷◌, ◌++◌, Option, none, some, Text, text_eq, pos, ltb_ℤ,
  if◌then◌else◌,
}
use chalert.Time.{Time}
use chalert.Rule.Instance.{AlertingRule}
use chalert.Rule.Exec.{Env, ExecError}
use chalert.Rule.Retire.{StateStore, Retirements}
use chalert.Group.{Group}
use chalert.Group.Eval.{Reading, Run, eval, reload_group}

-- Where the loop stands: before its first evaluation, in its `select`, or between the receipt of a
-- definition and the update with it; `crashed` is the panic of `NewTicker`,
-- which ends the program.
pub data Phase (F : Type 0) : Type 0 where
  opening selecting returned crashed : Phase F
  updating : Group F → Phase F

-- The retirements and the store are shared with the other groups; `offered` are the definitions whose
-- callers of `UpdateWith` wait.
pub record Loop (F W : Type 0) : Type 0 where
  pub group : Group F
  pub retirements : Retirements F
  pub stored : W
  pub phase : Phase F
  pub done_closed : Bool
  pub cancelled : Bool
  pub offered : List (Group F)

-- What an evaluation finds outside the group: the tick, the clock and the answers of the database.
pub record Moment (F : Type 0) : Type 0 where
  pub env : Env F
  pub error_text : ExecError → Text
  pub clock : AlertingRule F → Reading
  pub arrive : List (Run F) → List (Run F)
  pub tick : Time
  pub at : Time

-- What happens to a group. `select` takes any case that is ready; `disturbs` is what the other groups
-- do to what they share.
pub data Event (F W : Type 0) : Type 0 where
  begins ticks : Moment F → Event F W
  applies : Time → Event F W
  receives sees_done sees_cancel closes cancels : Event F W
  offers : Group F → Event F W
  disturbs : Retirements F → W → Event F W

module _ {F W : Type 0} where
  -- `Start` is called on a group.
  abbrev pub opened : Group F → Retirements F → W → Loop F W
  opened g retire w = record {
    group = g;
    retirements = retire;
    stored = w;
    phase = opening;
    done_closed = false;
    cancelled = false;
    offered = [];
  }

  -- `UpdateWith`: the caller waits with the definition, behind those that wait already.
  abbrev pub send_update : Group F → Loop F W → Loop F W
  send_update ng l = record l { offered = l.offered ++ ng ∷ [] }

  -- `Close` closes the channel, and waits for the loop to return.
  abbrev pub close_done : Loop F W → Loop F W
  close_done l = record l { done_closed = true }

  -- `reloadGroups` of cmd/chalert/main.go at a group that goes on: it hands over a definition whose
  -- checksum is another.
  unfoldable pub hand_over : Group F → Loop F W → Loop F W
  hand_over ng l = if text_eq l.group.checksum ng.checksum then l else send_update ng l

module _ {F W : Type 0} (store : Option (StateStore F W)) where
  unfoldable pub evaluate : Moment F → Loop F W → Loop F W
  evaluate m l =
      let (g, retire, w, effects) =
        eval m.env m.error_text m.clock m.arrive store l.group l.retirements l.stored m.tick m.at in
      record l { group = g; retirements = retire; stored = w }

  -- The first evaluation, and `time.NewTicker` after it, which panics unless the interval is positive.
  unfoldable pub begin : Moment F → Loop F W → Loop F W
  begin m l = record (evaluate m l) {
    phase = if ltb_ℤ (pos 0) l.group.interval then selecting else crashed;
  }

  -- The case of the `select` for an update, once the definition is received.
  unfoldable pub update : Time → Group F → Loop F W → Loop F W
  update at ng l =
      let (g, retire, w) = reload_group store at l.group ng l.retirements l.stored in
      record l { group = g; retirements = retire; stored = w; phase = selecting }

  pub data Step : Event F W → Loop F W → Loop F W → Type 0 where
    begin_step : (m : Moment F) (l : Loop F W) → l.phase ≡ opening → Step (begins m) l (begin m l)
    tick_step :
        (m : Moment F) (l : Loop F W) → l.phase ≡ selecting → Step (ticks m) l (evaluate m l)
    receive_step :
        (ng : Group F) (rest : List (Group F)) (l : Loop F W)
        → l.phase ≡ selecting
        → l.offered ≡ ng ∷ rest
        → Step receives l (record l { phase = updating ng; offered = rest })
    apply_step :
        (at : Time) (ng : Group F) (l : Loop F W)
        → l.phase ≡ updating ng
        → Step (applies at) l (update at ng l)
    done_step :
        (l : Loop F W)
        → l.phase ≡ selecting
        → l.done_closed ≡ true
        → Step sees_done l (record l { phase = returned })
    cancel_step :
        (l : Loop F W)
        → l.phase ≡ selecting
        → l.cancelled ≡ true
        → Step sees_cancel l (record l { phase = returned })
    -- A second call of `Close` would panic, and is no step.
    close_step : (l : Loop F W) → l.done_closed ≡ false → Step closes l (close_done l)
    cancels_step : (l : Loop F W) → Step cancels l (record l { cancelled = true })
    offer_step : (ng : Group F) (l : Loop F W) → Step (offers ng) l (send_update ng l)
    disturb_step :
        (retire : Retirements F) (w : W) (l : Loop F W)
        → Step (disturbs retire w) l (record l { retirements = retire; stored = w })

  -- The events in their order.
  pub data Trace : List (Event F W) → Loop F W → Loop F W → Type 0 where
    stops : (l : Loop F W) → Trace [] l l
    goes :
        (e : Event F W) (es : List (Event F W)) (l l' l'' : Loop F W)
        → Step e l l'
        → Trace es l' l''
        → Trace (e ∷ es) l l''
