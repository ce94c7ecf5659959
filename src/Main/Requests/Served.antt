-- ===== src/Main/Requests/Served.antt =====
-- No reload that was requested over HTTP is lost, and requests that wait together share one
-- (cmd/chalert/main.go, web/httpserver.go).
use chalert.Prelude.{
  true, ◌⊎◌, ℕ, ◌+◌, ◌≤◌, ◌<◌, ◌≡◌, refl, ap, List, [], ◌∷◌, Option, none, some, arith,
}
use chalert.Web.{handle_reload, set_ready, set_reload_func, new_server}
use chalert.Main.Requests.{
  Frontend, Event, posted, loop_takes, becomes_ready, registers, shuts_down, offer, request_reload,
  initial, post_reload, take_request, iterate, handle, handle_all,
}

-- The reload function of the server, if any, is the one that `main` registers.
abbrev IsMain : Option (ℕ → ℕ) → Type 0
IsMain none = Unit
IsMain (some fn) = fn ≡ request_reload

record IsCounted (s : Frontend) : Type 0 where
  main_fn : IsMain s.server.reload_fn
  one_waits : s.queued ≤ 1
  shared : s.reloads + s.queued ≤ s.accepted

-- What a request adds, whichever function the server calls.
post_reload-IsCounted :
    (s : Frontend) (fn : Option (ℕ → ℕ))
    → s.server.reload_fn ≡ fn
    → IsMain fn
    → IsCounted s
    → IsCounted (post_reload s)
unfolding post_reload handle_reload request_reload offer
post_reload-IsCounted s none e m c =
    rw (e, post_reload, handle_reload)
      (record { main_fn = m; one_waits = c.one_waits; shared = c.shared })
post_reload-IsCounted s (some fn) e m c =
    let sent : fn s.queued ≡ request_reload s.queued = ap (λ f. f s.queued) m in
    rw (e, post_reload, handle_reload)
      (record {
        main_fn = m;
        one_waits = ground (arith, sent, c.one_waits);
        shared = ground (arith, sent, c.shared);
      })

handle-IsCounted : (e : Event) (s : Frontend) → IsCounted s → IsCounted (handle e s)
unfolding handle iterate take_request set_ready set_reload_func
handle-IsCounted posted s c = post_reload-IsCounted s s.server.reload_fn refl c.main_fn c
handle-IsCounted loop_takes s c = record {
  main_fn = ground (arith, c.main_fn);
  one_waits = ground (arith, c.one_waits);
  shared = ground (arith, c.one_waits, c.shared);
}
handle-IsCounted becomes_ready s c = record {
  main_fn = c.main_fn;
  one_waits = c.one_waits;
  shared = c.shared;
}
handle-IsCounted registers s c = record {
  main_fn = refl;
  one_waits = c.one_waits;
  shared = c.shared;
}
handle-IsCounted shuts_down s c = record {
  main_fn = c.main_fn;
  one_waits = c.one_waits;
  shared = c.shared;
}

handle_all-IsCounted : (es : List Event) (s : Frontend) → IsCounted s → IsCounted (handle_all es s)
handle_all-IsCounted [] s c = c
handle_all-IsCounted (e ∷ es) s c = handle_all-IsCounted es (handle e s) (handle-IsCounted e s c)

initial-IsCounted : IsCounted initial
unfolding initial new_server
initial-IsCounted = record { main_fn = tt; one_waits = ground arith; shared = ground arith }

-- What a request is answered.
abbrev answer_status : Frontend → ℕ
answer_status s = (handle_reload s.server s.queued).0.status

-- From `n` on the loop has run a reload, or one waits for it.
abbrev HasServed : ℕ → Frontend → Type 0
HasServed n s = (n < s.reloads) ⊎ ((n ≤ s.reloads) × (0 < s.queued))

post_reload-HasServed :
    (n : ℕ) (s : Frontend) (fn : Option (ℕ → ℕ))
    → s.server.reload_fn ≡ fn
    → IsMain fn
    → HasServed n s
    → HasServed n (post_reload s)
unfolding post_reload handle_reload request_reload offer
post_reload-HasServed n s none e m h = rw (e, post_reload, handle_reload) (ground (arith, h))
post_reload-HasServed n s (some fn) e m h =
    let sent : fn s.queued ≡ request_reload s.queued = ap (λ f. f s.queued) m in
    rw (e, post_reload, handle_reload) (ground (arith, sent, h))

handle-HasServed :
    (e : Event) (n : ℕ) (s : Frontend) → IsCounted s → HasServed n s → HasServed n (handle e s)
unfolding handle iterate take_request
handle-HasServed posted n s c h = post_reload-HasServed n s s.server.reload_fn refl c.main_fn h
handle-HasServed loop_takes n s c h = ground (arith, h)
handle-HasServed becomes_ready n s c h = h
handle-HasServed registers n s c h = h
handle-HasServed shuts_down n s c h = h

handle_all-HasServed :
    (es : List Event) (n : ℕ) (s : Frontend)
    → IsCounted s
    → HasServed n s
    → HasServed n (handle_all es s)
handle_all-HasServed [] n s c h = h
handle_all-HasServed (e ∷ es) n s c h =
    handle_all-HasServed es n (handle e s) (handle-IsCounted e s c) (handle-HasServed e n s c h)

accepted-HasServed :
    (s : Frontend) (fn : Option (ℕ → ℕ))
    → s.server.reload_fn ≡ fn
    → IsMain fn
    → answer_status s ≡ 202
    → HasServed s.reloads (post_reload s)
unfolding post_reload handle_reload request_reload offer
accepted-HasServed s none e m = rw (e, handle_reload) (λ h. absurd (ground (arith, h)))
accepted-HasServed s (some fn) e m =
    let sent : fn s.queued ≡ request_reload s.queued = ap (λ f. f s.queued) m in
    rw (e, post_reload, handle_reload) (λ h. ground (arith, sent))

-- An iteration of a loop that goes on runs what waits.
iterate-HasServed :
    (n : ℕ) (s : Frontend) → s.looping ≡ true → HasServed n s → n < (handle loop_takes s).reloads
unfolding handle iterate take_request
iterate-HasServed n s l h = ground (arith, l, h)

-- A request that is answered with 202 is served: take whatever happens after it, up to an iteration in
-- which the loop looks at the requests and before which no signal has ended the loop. After that
-- iteration the loop has run a forced reload that began after the request. The requests that wait
-- together share one reload: those run and waiting are at most as many as the requests accepted, and at
-- most one waits.
pub requests_served :
    (before later : List Event)
    → let s = handle_all before initial in
      let t = handle_all later (post_reload s) in
      answer_status s ≡ 202
      → t.looping ≡ true
      → let u = handle loop_takes t in
        (s.reloads < u.reloads) × (u.reloads + u.queued ≤ u.accepted) × (u.queued ≤ 1)
requests_served before later h l =
    let s = handle_all before initial in
    let c = handle_all-IsCounted before initial initial-IsCounted in
    let posted_c = post_reload-IsCounted s s.server.reload_fn refl c.main_fn c in
    let t = handle_all later (post_reload s) in
    let waits = accepted-HasServed s s.server.reload_fn refl c.main_fn h in
    let counted =
      handle-IsCounted loop_takes t (handle_all-IsCounted later (post_reload s) posted_c) in
    (
      iterate-HasServed s.reloads t l
          (handle_all-HasServed later s.reloads (post_reload s) posted_c waits),
      counted.shared,
      counted.one_waits,
    )
