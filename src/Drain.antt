-- ===== src/Drain.antt =====
-- backend/app/core/drain.py: the requests in flight, and the answers of the middleware while the process
-- drains. The event `_closed` is a flag.
pub mod Closing
mod Examples
use world_of_seeds.Prelude.{
  if_ind, ℕ, zero, suc, ◌+◌, ◌-◌, ◌*◌, ◌/◌, ◌%◌, ◌^◌, ◌≤◌, ◌<◌, min, max, String, ◌≡◌, refl, sym,
  ap, subst, ◌∙◌, ◌≢◌, ◌↔◌, ◌⊎◌, inl, inr, Bool, true, false, not, ◌&&◌, ◌||◌, Option, none, some,
  List, [], ◌∷◌, ◌++◌, map, head?, arith, str_eq, eq_iff, ltb, leb, ◌==◌, if◌then◌else◌, between,
  is_some, is_number, leb→le, le→leb, ==_iff, ==_refl, Bool-cases, Option-cases, ℤ, pos, negsuc,
  is_positive, is_natural, shift, length, take, drop, where_rows, count_rows, any, all, sum_of, All,
  length-append, length-take-le, length-where_rows-le, All-append, All-if, All-if_of,
  All-where_rows_test, All_both, All-where_rows, All-take, All_imp, All_of_mem, All_at,
  mem_of_mem-where_rows, mem-where_rows, contains, Result, ok, err, ◌>>=◌, ◌>>◌, guard, OnOk,
  Returns, Returns-bind, Returns→OnOk, Returns-if, OnOk-if, OnOk-bind, OnOk-guard, OnOk-check,
  OnOk-always, OnOk-imp, OnErr, OnErr-bind, OnErr-guard, OnErr-if, OnErr-map, OnOk_at, >>=-eq-ok,
}
use mathlib.Core.List.{Memᴰ}
use world_of_seeds.Prelude.Sorting.{
  lex_le, lex_le_refl, lex_le_total, lex_le_trans, insert_by, sort_by, IsLeast, IsSorted,
  All-insert_by, All-sort_by, length-insert_by, length-sort_by, sort_by-IsSorted, mem-sort_by,
}
use world_of_seeds.Prelude.Dict.{Dict, get, get_or, put, get-put, get_or-put}

pub record RequestDrain : Type 0 where
  pub draining : Bool
  pub active : ℕ
  pub closed : Bool

abbrev pub new_drain : RequestDrain
new_drain = record { draining = false; active = 0; closed = true }

unfoldable pub begin : RequestDrain → RequestDrain
begin d = record d { draining = true }

unfoldable pub enter : RequestDrain → RequestDrain
enter d = record d { active = d.active + 1; closed = false }

-- `leave` follows an `enter`, so the counter does not go below zero.
unfoldable pub leave : RequestDrain → RequestDrain
leave d = record d { active = d.active - 1; closed = d.active - 1 == 0 || d.closed }

-- `scope["type"]`, with the path of an HTTP request.
pub data RequestScope : Type 0 where
  http : String → RequestScope
  websocket lifespan : RequestScope

-- What the middleware does with a scope: `forwarded` calls the application without counting, `entered`
-- counts the request until it leaves, the others answer it.
pub data DrainAnswer : Type 0 where
  forwarded entered websocket_closed live unavailable : DrainAnswer

abbrev is_counted : RequestScope → Bool
is_counted lifespan = false
is_counted _ = true

abbrev refusal : RequestScope → DrainAnswer
refusal websocket = websocket_closed
refusal lifespan = forwarded
refusal (http path) = if str_eq path "/api/v1/health/live" then live else unavailable

-- `RequestDrainMiddleware.__call__`, up to the application.
unfoldable pub receive : RequestScope → RequestDrain → RequestDrain × DrainAnswer
unfolding enter
receive scope d =
    if not (is_counted scope)
    then (d, forwarded)
    else if d.draining
    then (d, refusal scope)
    else (enter d, entered)

-- One event: the drain begins, a scope arrives, or a counted request comes to its end.
pub data Step : RequestDrain → RequestDrain → Type 0 where
  begins : {d : RequestDrain} → Step d (begin d)
  arrives : {d : RequestDrain} (scope : RequestScope) → Step d (receive scope d).0
  finishes : {d : RequestDrain} → 0 < d.active → Step d (leave d)

-- A sequence of events, the last one first.
pub data Run (start : RequestDrain) : RequestDrain → Type 0 where
  nothing : Run start start
  then_step : {d e : RequestDrain} → Run start d → Step d e → Run start e

abbrev pub ends : {d e : RequestDrain} → Step d e → ℕ
ends begins = 0
ends (arrives scope) = 0
ends (finishes h) = 1

-- How many requests have come to their end.
unfoldable pub finished : {start d : RequestDrain} → Run start d → ℕ
finished nothing = 0
finished (then_step run step) = finished run + ends step
