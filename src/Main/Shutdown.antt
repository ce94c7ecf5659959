-- ===== src/Main/Shutdown.antt =====
-- cmd/chalert/main.go: what a signal to stop does. `ends` says for the group that runs under an
-- identity whether its loop ever ends once it is closed and the context is cancelled: `Close` of
-- rule/group.go returns only then. Shutting the HTTP server down is left out.
pub mod Timeout
use chalert.Prelude.{some, ℕ, Bool, true, false, ◌&&◌, List, [], ◌∷◌, Text, Map, if◌then◌else◌}
use chalert.Time.{Time}
use chalert.Rule.Retire.{StateStore, Retirements}
use chalert.Group.{Group}
use chalert.Main.{Live, finish, persist_all_state}
use chalert.Main.Reload.{Running}

-- The two cases of the `select` on `done` and on the time limit.
pub data Wait : Type 0 where
  in_time timed_out : Wait

-- The program stops, with the state of the store, or waits for ever.
pub data Shutdown (W : Type 0) : Type 0 where
  hung : Shutdown W
  stopped : Wait → W → Shutdown W

-- Whether the wait group comes to its end: all loops do. Given that they do, they do in time.
abbrev wait_for_groups : Bool → Wait
wait_for_groups true = in_time
wait_for_groups false = timed_out

module _ {F : Type 0} (ends : ℕ → Bool) where
  -- The loop that closes the groups, and whether it comes to its end.
  close_groups : Map ℕ (Live F) → Bool
  close_groups [] = true
  close_groups ((id, g) ∷ groups) =
      let rest = close_groups groups in if ends id then rest else false

  all_end : Map ℕ (Live F) → Bool
  all_end [] = true
  all_end ((id, g) ∷ groups) = ends id && all_end groups

  -- Before they end, the loops take the definitions that they have received.
  pub finish_all :
      {W : Type 0}
      → StateStore F W
      → Time
      → Map ℕ (Live F)
      → Retirements F
      → W
      → Map ℕ (Group F) × Retirements F × W
  unfolding finish
  finish_all store at [] retire w = ([], retire, w)
  finish_all store at ((id, l) ∷ groups) retire w =
      let (g, retire', w') = finish (some store) at l retire w in
      let (rest, retire'', w'') = finish_all store at groups retire' w' in
      ((id, g) ∷ rest, retire'', w'')

  pub shut_down : {W : Type 0} → StateStore F W → Time → Running F W → Shutdown W
  unfolding close_groups all_end finish_all
  shut_down store at r =
      let (groups, retirements, stored) = finish_all store at r.groups r.retirements r.stored in
      if close_groups r.groups
      then stopped (wait_for_groups (all_end r.groups))
          (persist_all_state store groups retirements stored)
      else hung
