-- ===== src/Api/Tests.antt =====
-- Small runs of protoneo/api, and the theorems at them.
use protoneo.Prelude.{
  ℕ, ◌+◌, String, ◌≡◌, refl, inl, true, false, some, List, [], ◌∷◌, arith, get_last?,
}
use protoneo.Api.Control.Steps.{
  Op, advances, pauses, resumes, gate_wait, pause_wait, wakes, Trace, apply, run, Shut, run-Shut,
  run_wakes, run_cancelled,
}
use protoneo.Api.Events.{BusEvent, Bus, new, plain, tails, subscribe}
use protoneo.Api.Events.Bounds.{emits, resets, subscribes, calls, IsBounded, bus-IsBounded}
use protoneo.Api.Events.Replay.{subscribe_replays}
use protoneo.Api.Control

abbrev paused_start : Trace
paused_start = record {
  control = record Control.new { auto_advance = false };
  passed = 0;
  released = 0;
}

abbrev cancelled_start : Trace
cancelled_start = record {
  control = record Control.new { cancelled = true };
  passed = 0;
  released = 0;
}

-- Two calls of `advance` before a wait let one wait pass; the next one blocks.
advances_merge :
    (run (advances ∷ advances ∷ pause_wait ∷ pause_wait ∷ []) paused_start).control.blocked ≡ 1
unfolding run
advances_merge = refl

-- One `advance` lets the waits of two coroutines pass.
advance_wakes_two :
    (run (pause_wait ∷ pause_wait ∷ advances ∷ wakes ∷ wakes ∷ []) paused_start).passed ≡ 2
unfolding run
advance_wakes_two = refl

-- The first of the two waits again before the second goes on, which then shows the pipeline as not
-- paused while the first is blocked.
abbrev crossed : Trace
crossed = run (pause_wait ∷ pause_wait ∷ advances ∷ wakes ∷ pause_wait ∷ wakes ∷ []) paused_start

shown_as_running : (crossed.control.paused ≡ false) × (crossed.control.blocked ≡ 1)
unfolding run
shown_as_running = (refl, refl)

run_cancelled_example :
    ((run (gate_wait ∷ resumes ∷ pause_wait ∷ []) cancelled_start).control.cancelled ≡ true)
    × ((run (gate_wait ∷ resumes ∷ pause_wait ∷ []) cancelled_start).passed ≡ 0)
run_cancelled_example = run_cancelled (gate_wait ∷ resumes ∷ pause_wait ∷ []) cancelled_start refl

abbrev two_waits : List Op
two_waits = pause_wait ∷ pause_wait ∷ advances ∷ wakes ∷ wakes ∷ []

run-Shut_example : Shut (run (pause_wait ∷ pauses ∷ []) paused_start).control
run-Shut_example = run-Shut (pause_wait ∷ pauses ∷ []) paused_start (inl refl)

run_wakes_example :
    ((apply resumes (run (pause_wait ∷ gate_wait ∷ []) paused_start)).control.blocked ≡ 0)
    × ((apply resumes (run (pause_wait ∷ gate_wait ∷ []) paused_start)).control.woken
        ≡ (run (pause_wait ∷ gate_wait ∷ []) paused_start).control.woken
          + (run (pause_wait ∷ gate_wait ∷ []) paused_start).control.blocked)
run_wakes_example = run_wakes (pause_wait ∷ gate_wait ∷ []) paused_start resumes (inl refl) refl

abbrev token : String → List ℕ → BusEvent
token agent chunk = record { event_type = "token"; agent_id = agent; chunk = chunk }

bus-IsBounded_example : IsBounded (
    calls
      (subscribes 1 ∷ emits (plain "phase_start") ∷ emits (token "ada" (104 ∷ [])) ∷ resets ∷ [])
      (new 2 1))
bus-IsBounded_example =
    bus-IsBounded 2 1
      (subscribes 1 ∷ emits (plain "phase_start") ∷ emits (token "ada" (104 ∷ [])) ∷ resets ∷ [])

abbrev busy : Bus
busy = record {
  history_limit = 4;
  subscriber_limit = 2;
  history = plain "phase_start" ∷ plain "round_start" ∷ [];
  subscribers = [];
  streams = ("ada", (104 ∷ []) ∷ (105 ∷ []) ∷ []) ∷ [];
  finished = false;
}

subscribe_replays_example :
    get_last? (subscribe 7 busy).subscribers
    ≡ some (record { ident = 7; queue = plain "round_start" ∷ token "ada" (104 ∷ 105 ∷ []) ∷ [] })
unfolding tails
subscribe_replays_example = subscribe_replays 7 busy (omega arith)
