-- ===== src/Api/Control.antt =====
-- PipelineControl of protoneo/api/pipeline_control.py. Any number of coroutines may wait at its gate at
-- once: those of a parallel phase do. A wait takes two steps: `wait_for_gate` or `wait_if_paused` up to
-- `await self._gate.wait()`, and `wake` from there on. `blocked` counts the coroutines that wait at the
-- gate, `woken` those whose wait the gate has ended and which have not yet gone on.
pub mod Steps
use protoneo.Prelude.{
  ℕ, ◌+◌, ◌-◌, String, Bool, true, false, not, ◌&&◌, ◌||◌, List, [], ◌∷◌, ◌++◌, if◌then◌else◌, any,
  ◌==◌,
}

pub record Control : Type 0 where
  pub auto_advance : Bool
  pub skip_gate : Bool
  pub current_stage : String
  pub current_step : String
  pub completed_stages : List String
  pub gate : Bool
  pub paused : Bool
  pub cancelled : Bool
  pub advance_pending : Bool
  pub blocked : ℕ
  pub woken : ℕ

abbrev pub new : Control
new = record {
  auto_advance = true;
  skip_gate = false;
  current_stage = "";
  current_step = "";
  completed_stages = [];
  gate = true;
  paused = false;
  cancelled = false;
  advance_pending = false;
  blocked = 0;
  woken = 0;
}

unfoldable pub enter_stage : String → Control → Control
enter_stage stage c = record c { current_stage = stage; current_step = "" }

unfoldable pub enter_step : String → Control → Control
enter_step step c = record c { current_step = step }

unfoldable pub stage_done : String → Control → Control
stage_done stage c = record c {
  completed_stages =
      if any (λ s. s == stage) c.completed_stages
      then c.completed_stages
      else c.completed_stages ++ stage ∷ [];
  current_step = "";
}

-- What a coroutine does next: it goes on, it ends with CancelledError, or it stays at the gate.
pub data Next : Type 0 where
  passes raises blocks : Next

-- `self._gate.clear(); self.paused = True; await self._gate.wait()`
abbrev shut : Control → Next × Control
shut c = (blocks, record c { gate = false; paused = true; blocked = c.blocked + 1 })

unfoldable pub wait_for_gate : Control → Next × Control
wait_for_gate c =
    if c.cancelled
    then (raises, c)
    else if c.skip_gate || c.advance_pending
    then (passes, record c { advance_pending = false })
    else shut c

unfoldable pub wait_if_paused : Control → Next × Control
wait_if_paused c =
    if not c.auto_advance
    then (if c.advance_pending && not c.cancelled
        then (passes, record c { advance_pending = false })
        else shut c)
    else if c.cancelled
    then (raises, c)
    else (passes, c)

-- What follows `await self._gate.wait()` in both waits.
unfoldable pub wake : Control → Next × Control
wake c = (
  (if c.cancelled then raises else passes),
  record c { paused = false; advance_pending = false; woken = c.woken - 1 },
)

-- `asyncio.Event.set`: only where the gate was shut does it wake those that wait.
unfoldable pub set_gate : Control → Control
set_gate c =
    if c.gate then c else record c { gate = true; woken = c.woken + c.blocked; blocked = 0 }

unfoldable pub advance : Control → Control
advance c = set_gate (record c { advance_pending = true; paused = false })

unfoldable pub pause : Control → Control
pause c = record c { auto_advance = false; paused = true; gate = false }

unfoldable pub resume : Control → Control
resume c = set_gate (record c { auto_advance = true; paused = false })

-- `self._task.cancel()` delivers the CancelledError at the waits that the gate wakes anyway.
unfoldable pub cancel : Control → Control
cancel c = set_gate (record c { cancelled = true; paused = false })
