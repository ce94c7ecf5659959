-- ===== src/Notifier/Payload.antt =====
-- What notifier/alertmanager.go promises Alertmanager about a firing alert, and when `Send` succeeds.
use chalert.Prelude.{
  ℕ, zero, suc, ◌*◌, ◌≤◌, ◌<◌, ◌+ℤ◌, +ℤ_parts, ◌≡◌, ◌↔◌, ◌⊎◌, refl, inl, inr, Bool, List, [], ◌∷◌,
  All, Option, none, some, Option-cases, Text, ℤ, pos, negsuc, ◌≤ℤ◌, ◌<ℤ◌, ltb_ℤ, arith, true,
  if◌then◌else◌,
}
use chalert.Time.{Time, minute, add}
use chalert.Rule.Instance.{firing, AlertInstance}
use chalert.Notifier.{
  AlertManager, AmAlert, am_alert, delta, four_times, build_payload, send_errors, send_to, send,
  Request, Response,
}

four_times_pos : (n : ℕ) → n ≤ 2305843009213693951 → four_times (pos n) ≡ pos (4 * n)
four_times_pos n h = ground arith

lt-add : (t : ℤ) (n : ℕ) → 0 < n → t <ℤ (t +ℤ pos n)
lt-add t n h = omega (arith, +ℤ_parts t (pos n))

delta_positive :
    {F : Type 0} (a : AlertInstance F)
    → a.evaluation_interval ≤ℤ pos 2305843009213693951
    → (n : ℕ) × (delta a ≡ pos n) × (0 < n)
unfolding delta
delta_positive a small = delta_cases a.evaluation_interval small
  where
    delta_cases :
        (d : ℤ)
        → d ≤ℤ pos 2305843009213693951
        → (n : ℕ) × ((if ltb_ℤ (pos 0) d then four_times d else four_times minute) ≡ pos n)
          × (0 < n)
    delta_cases (pos zero) h = (240000000000, refl, ground arith)
    delta_cases (pos (suc n)) h =
        (4 * suc n, ground (arith, four_times_pos (suc n) (omega arith)), omega arith)
    delta_cases (negsuc n) h = (240000000000, ground arith, ground arith)

pub ends_at-am_alert :
    {F : Type 0} (am : AlertManager) (now : Time) (a : AlertInstance F) (aa : AmAlert)
    → a.state ≡ firing
    → ltb_ℤ (pos 0) a.evaluation_interval ≡ true
    → am_alert am now a ≡ some aa
    → aa.ends_at ≡ add now (four_times a.evaluation_interval)
unfolding am_alert delta
ends_at-am_alert am now a aa s i e = ground (arith, s, i, e)

-- The end of a firing alert lies after the time at which the payload is made, as long as four
-- times the evaluation interval fits an `int64`.
pub am_alert_firing :
    {F : Type 0} (am : AlertManager) (now : Time) (a : AlertInstance F) (aa : AmAlert)
    → a.state ≡ firing
    → a.evaluation_interval ≤ℤ pos 2305843009213693951
    → am_alert am now a ≡ some aa
    → now <ℤ aa.ends_at
unfolding am_alert delta
am_alert_firing am now a aa s small e =
    let (n, d, p) = delta_positive a small in ground (arith, lt-add now n p, d, s, e)

send_errors-none :
    (send_one : Text → Option Text) (urls : List Text)
    → (send_errors send_one urls ≡ []) ↔ All (λ u. send_one u ≡ none) urls
unfolding send_errors
send_errors-none send_one [] = ground arith
send_errors-none send_one (u ∷ us) = elim (Option-cases (send_one u)) [
  | inl e ↦ ground (arith, send_errors-none send_one us)
  | inr (t, e) ↦ ground (arith, send_errors-none send_one us)
]

-- `Send` succeeds exactly when there is nothing to send or nowhere to send it, or when the payload
-- is built and no target gives an error.
pub send_succeeds_iff :
    {F : Type 0} (marshal : List AmAlert → Bool × Text) (client : Request → Response)
    (http_error : ℕ → Text → Text) (am : AlertManager) (now : Time)
    (alerts : List (AlertInstance F))
    → let (ok, payload) = marshal (build_payload am now alerts) in
      (send marshal client http_error am now alerts ≡ none) ↔ (
        (alerts ≡ [])
        ⊎ ((am.urls ≡ [])
            ⊎ ((ok ≡ true) × All (λ u. send_to client http_error am payload u ≡ none) am.urls)))
unfolding send
send_succeeds_iff marshal client http_error am now [] = ground arith
send_succeeds_iff marshal client http_error am now (a ∷ alerts) =
    let (ok, payload) = marshal (build_payload am now (a ∷ alerts)) in
    ground (arith, send_errors-none (send_to client http_error am payload) am.urls)
