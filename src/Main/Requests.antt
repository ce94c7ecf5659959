-- ===== src/Main/Requests.antt =====
-- cmd/chalert/main.go: the requests for a reload over HTTP, which wait in a channel of capacity one
-- until the main loop takes one, and how the server of web/httpserver.go is opened and closed to them.
pub mod Served
use chalert.Prelude.{ℕ, ◌+◌, ◌-◌, ◌==◌, Bool, true, false, List, [], ◌∷◌, ltb, if◌then◌else◌}
use chalert.Web.{
  Response, Server, new_server, set_ready, set_reload_func, handle_reload, handle_ready,
}

-- A send that does not block, on a channel with `queued` values of `capacity`.
offer : ℕ → ℕ → ℕ
offer capacity queued = if ltb queued capacity then queued + 1 else queued

abbrev pub capacity : ℕ
capacity = 1

-- The function that `main` registers with `SetReloadFunc`.
request_reload : ℕ → ℕ
unfolding offer
request_reload queued = offer capacity queued

-- The server, the requests that wait, those answered with 202, the forced reloads that the loop has
-- run for them, and whether the loop goes on.
pub record Frontend : Type 0 where
  pub server : Server ℕ
  pub queued : ℕ
  pub accepted : ℕ
  pub reloads : ℕ
  pub looping : Bool

-- What can happen: a POST to /-/reload, and an iteration of the loop that finds what it waits for;
-- `main` registers the reload function and becomes ready before the loop; a signal ends the loop, and
-- the requests that wait then are lost.
pub data Event : Type 0 where
  posted : Event
  loop_takes : Event
  becomes_ready : Event
  registers : Event
  shuts_down : Event

unfoldable pub initial : Frontend
unfolding new_server
initial = record { server = new_server; queued = 0; accepted = 0; reloads = 0; looping = true }

pub post_reload : Frontend → Frontend
unfolding handle_reload
post_reload s =
    let (response, queued) = handle_reload s.server s.queued in
    record s {
      queued = queued;
      accepted = if response.status == 202 then s.accepted + 1 else s.accepted;
    }

-- The case of the loop's `select` for the requests; it is not taken while none waits.
take_request : Frontend → Frontend
take_request s =
    if ltb 0 s.queued then record s { queued = s.queued - 1; reloads = s.reloads + 1 } else s

-- An iteration of the loop, until it has ended.
iterate : Frontend → Frontend
unfolding take_request
iterate s = let taken = take_request s in if s.looping then taken else s

unfoldable pub handle : Event → Frontend → Frontend
unfolding post_reload iterate set_ready set_reload_func request_reload
handle posted s = post_reload s
handle loop_takes s = iterate s
handle becomes_ready s = record s { server = set_ready true s.server }
handle registers s = record s { server = set_reload_func request_reload s.server }
handle shuts_down s = record s { server = set_ready false s.server; looping = false }

abbrev pub handle_all : List Event → Frontend → Frontend
handle_all [] s = s
handle_all (e ∷ es) s = handle_all es (handle e s)
