-- ===== src/Api/Control/Steps.antt =====
-- The interleavings of the coroutines of a pipeline and its user over PipelineControl, as steps
-- (protoneo/api/pipeline_control.py).
use protoneo.Prelude.{
  ℕ, ◌+◌, ◌≤◌, String, ◌≡◌, refl, ◌∙◌, ◌⊎◌, Bool, true, false, List, [], ◌∷◌, arith, ltb,
  if◌then◌else◌,
}
use protoneo.Api.Control.{
  Control, enter_stage, enter_step, stage_done, Next, passes, raises, blocks, wait_for_gate,
  wait_if_paused, wake, set_gate, advance, pause, resume, cancel,
}

-- What the user does, and what the pipeline's coroutines do; any of them may come to a wait, and any
-- that is woken may be the next to go on.
pub data Op : Type 0 where
  advances pauses resumes cancels : Op
  gate_wait pause_wait wakes : Op
  stage step finish : String → Op

-- The state; the waits that came to their end without an exception; and, summed over the calls of
-- `advance`, one for the call and one for each coroutine that was blocked at it.
pub record Trace : Type 0 where
  pub control : Control
  pub passed : ℕ
  pub released : ℕ

abbrev one_if_passes : Next → ℕ
one_if_passes passes = 1
one_if_passes raises = 0
one_if_passes blocks = 0

abbrev waited : Trace → Next × Control → Trace
waited t (next, c) = record t { control = c; passed = t.passed + one_if_passes next }

unfoldable pub apply : Op → Trace → Trace
unfolding advance pause resume cancel wait_for_gate wait_if_paused wake set_gate enter_stage
    enter_step stage_done
apply advances t = record t {
  control = advance t.control;
  released = t.released + (1 + t.control.blocked);
}
apply pauses t = record t { control = pause t.control }
apply resumes t = record t { control = resume t.control }
apply cancels t = record t { control = cancel t.control }
apply gate_wait t = waited t (wait_for_gate t.control)
apply pause_wait t = waited t (wait_if_paused t.control)
apply wakes t = if ltb 0 t.control.woken then waited t (wake t.control) else t
apply (stage s) t = record t { control = enter_stage s t.control }
apply (step s) t = record t { control = enter_step s t.control }
apply (finish s) t = record t { control = stage_done s t.control }

unfoldable pub run : List Op → Trace → Trace
unfolding apply
run [] t = t
run (op ∷ ops) t = run ops (apply op t)

-- While a coroutine waits at the gate, the gate is shut, so that the next `set()` wakes it.
abbrev pub Shut : Control → Type 0
Shut c = (c.blocked ≡ 0) ⊎ (c.gate ≡ false)

apply-Shut : (op : Op) (t : Trace) → Shut t.control → Shut (apply op t).control
unfolding apply
apply-Shut advances t h = ground arith
apply-Shut _ t h = ground arith

-- From a state in which the gate is shut or no coroutine waits at it, every interleaving of the user
-- and of any number of coroutines leads to such a state.
pub run-Shut : (ops : List Op) (t : Trace) → Shut t.control → Shut (run ops t).control
unfolding run
run-Shut [] t h = h
run-Shut (op ∷ ops) t h = run-Shut ops (apply op t) (apply-Shut op t h)

abbrev pub sets_gate : Op → Bool
sets_gate advances = true
sets_gate resumes = true
sets_gate cancels = true
sets_gate _ = false

woken_all :
    (op : Op) (t : Trace)
    → sets_gate op ≡ true
    → Shut t.control
    → ((apply op t).control.blocked ≡ 0)
      × ((apply op t).control.woken ≡ t.control.woken + t.control.blocked)
unfolding apply
woken_all op t e h = ground arith

-- No wake-up is lost: after any interleaving from a state in which the gate is shut or no coroutine
-- waits at it, `advance`, `resume` and `cancel` wake every coroutine that waits at the gate.
pub run_wakes :
    (ops : List Op) (t : Trace) (op : Op)
    → Shut t.control
    → sets_gate op ≡ true
    → ((apply op (run ops t)).control.blocked ≡ 0)
      × ((apply op (run ops t)).control.woken
          ≡ (run ops t).control.woken + (run ops t).control.blocked)
run_wakes ops t op h e = woken_all op (run ops t) e (run-Shut ops t h)

-- `cancelled` is never taken back, and no wait passes any more.
record Dead (t u : Trace) : Type 0 where
  cancelled : u.control.cancelled ≡ true
  passed : u.passed ≡ t.passed

apply-Dead : (op : Op) (t : Trace) → t.control.cancelled ≡ true → Dead t (apply op t)
unfolding apply
apply-Dead advances t h = ground arith
apply-Dead _ t h = ground arith

-- Once a pipeline is cancelled, it stays cancelled and no wait of it passes, whatever the user and
-- the pipeline do.
pub run_cancelled :
    (ops : List Op) (t : Trace)
    → t.control.cancelled ≡ true
    → ((run ops t).control.cancelled ≡ true) × ((run ops t).passed ≡ t.passed)
unfolding run
run_cancelled [] t h = (h, refl)
run_cancelled (op ∷ ops) t h =
    let d = apply-Dead op t h in
    let r = run_cancelled ops (apply op t) d.cancelled in (r.0, r.1 ∙ d.passed)

abbrev pub is_resume : Op → Bool
is_resume resumes = true
is_resume _ = false

-- The waits that may pass without a further `advance`.
abbrev pub ready : Control → ℕ
ready c = if c.cancelled then 0 else ((if c.advance_pending then 1 else 0) + c.woken)

-- Single stepping: the waits that passed and that may pass were released by calls of `advance`.
pub record Stepping (t : Trace) : Type 0 where
  pub manual : t.control.auto_advance ≡ false
  pub gated : t.control.skip_gate ≡ false
  pub paid : t.passed + ready t.control ≤ t.released
