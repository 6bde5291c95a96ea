-- ===== src/Drain/Closing.antt =====
-- backend/app/core/drain.py: the drain comes to its end with the last request.
use world_of_seeds.Prelude.{◌+◌, ◌≡◌, refl, true, arith, ◌==◌}
use world_of_seeds.Drain.{
  RequestDrain, new_drain, begin, enter, leave, receive, Step, begins, arrives, finishes, Run,
  nothing, then_step, finished, ends, ends,
}

-- The event is set exactly where no request is in flight.
abbrev pub IsSettled : RequestDrain → Type 0
IsSettled d = d.closed ≡ (d.active == 0)

step-IsSettled : {d e : RequestDrain} → Step d e → IsSettled d → IsSettled e
unfolding begin enter leave receive
step-IsSettled begins h = h
step-IsSettled (arrives scope) h = ground arith
step-IsSettled (finishes some_request) h = ground (arith, some_request)

-- In every run from the start of the process the event `_closed` is set exactly where no request is in
-- flight.
pub run-IsSettled : {d : RequestDrain} → Run new_drain d → IsSettled d
run-IsSettled nothing = refl
run-IsSettled (then_step run step) = step-IsSettled step (run-IsSettled run)

step_draining :
    {d e : RequestDrain} (step : Step d e)
    → d.draining ≡ true
    → (e.draining ≡ true) × (ends step + e.active ≡ d.active)
unfolding begin enter leave receive
step_draining begins h = (refl, omega arith)
step_draining (arrives scope) h = (ground (arith, h), ground (arith, h))
step_draining (finishes some_request) h = (h, omega (arith, some_request))

run_draining :
    {start e : RequestDrain} (run : Run start e)
    → start.draining ≡ true
    → IsSettled start
    → (e.draining ≡ true) × (finished run + e.active ≡ start.active) × IsSettled e
unfolding finished
run_draining nothing h settled = (h, omega arith, settled)
run_draining (then_step run step) h settled =
    let (draining, counted, still) = run_draining run h settled in
    let (goes_on, fewer) = step_draining step draining in
    (goes_on, omega (arith, counted, fewer), step-IsSettled step still)

-- Once the drain has begun, whatever happens, the requests that came to their end and those in flight are
-- together the ones that were in flight at the beginning, and the event `_closed` is set exactly when as
-- many have come to their end as there were.
pub drain_closes :
    {start e : RequestDrain} (run : Run start e)
    → start.draining ≡ true
    → IsSettled start
    → (finished run + e.active ≡ start.active) × (e.closed ≡ (finished run == start.active))
drain_closes run h settled =
    let (draining, counted, still) = run_draining run h settled in
    (counted, ground (arith, counted, still))
