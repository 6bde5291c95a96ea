-- ===== src/Drain/Examples.antt =====
-- Two requests, a drain and a late request (backend/app/core/drain.py).
use world_of_seeds.Prelude.{◌+◌, ◌<◌, ◌≡◌, refl, true, false, arith, ◌==◌}
use world_of_seeds.Drain.{
  RequestDrain, new_drain, begin, leave, http, websocket, receive, begins, arrives, finishes, Run,
  nothing, then_step, finished,
}
use world_of_seeds.Drain.Closing.{IsSettled, run-IsSettled, drain_closes}

abbrev busy : RequestDrain
busy = record { draining = true; active = 2; closed = false }

some_request : 0 < (receive websocket busy).0.active
unfolding receive
some_request = omega arith

-- A late request is refused, and one of the two comes to its end.
abbrev one_left : Run busy (leave (receive websocket busy).0)
one_left = then_step (then_step nothing (arrives websocket)) (finishes some_request)

drain_closes_example :
    (finished one_left + (leave (receive websocket busy).0).active ≡ busy.active)
    × ((leave (receive websocket busy).0).closed ≡ (finished one_left == busy.active))
drain_closes_example = drain_closes one_left refl refl

abbrev started : Run new_drain (begin (receive (http "/") new_drain).0)
started = then_step (then_step nothing (arrives (http "/"))) begins

run-IsSettled_example : IsSettled (begin (receive (http "/") new_drain).0)
run-IsSettled_example = run-IsSettled started
