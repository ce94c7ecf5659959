-- ===== src/Web.antt =====
-- web/httpserver.go: the server's state and its handlers for health, readiness and reload. The routes
-- are those of `http.ServeMux`; the metrics and the version answers are left out. `Q` is the state that
-- the registered reload trigger changes.
use chalert.Prelude.{ℕ, Bool, false, Option, none, some, Text, codes, if◌then◌else◌}

pub record Response : Type 0 where
  pub status : ℕ
  pub body : Text

pub record Server (Q : Type 0) : Type 0 where
  pub ready : Bool
  pub reload_fn : Option (Q → Q)

abbrev pub ok_response : Text → Response
ok_response body = record { status = 200; body = body }

abbrev pub accepted_response : Text → Response
accepted_response body = record { status = 202; body = body }

abbrev pub unavailable_response : Text → Response
unavailable_response body = record { status = 503; body = body }

module _ {Q : Type 0} where
  -- `New`.
  unfoldable pub new_server : Server Q
  new_server = record { ready = false; reload_fn = none }

  unfoldable pub set_ready : Bool → Server Q → Server Q
  set_ready ready s = record s { ready = ready }

  unfoldable pub set_reload_func : (Q → Q) → Server Q → Server Q
  set_reload_func fn s = record s { reload_fn = some fn }

  unfoldable pub handle_reload : Server Q → Q → Response × Q
  handle_reload s q = elim s.reload_fn [
    | none ↦ (unavailable_response (codes "reload not available"), q)
    | some fn ↦ (accepted_response (codes "reload scheduled"), fn q)
  ]

  unfoldable handle_health : Server Q → Response
  handle_health s = ok_response (codes "ok")

  unfoldable pub handle_ready : Server Q → Response
  handle_ready s =
      if s.ready then ok_response (codes "ready") else unavailable_response (codes "not ready")
