-- ===== src/Deliberation/Attempts/Contract.antt =====
-- What a turn of `_run_agent` promises: retries are bounded, and only a validated answer comes out.
use protoneo.Prelude.{ℕ, zero, suc, ◌+◌, ◌≤◌, String, ◌≡◌, refl, ◌∙◌, inl, inr, arith, Bool-cases}
use protoneo.Agents.{Agent}
use protoneo.Session.Context.{Context}
use protoneo.Deliberation.Types.{Mode, Rules, Verdict, valid, invalid, Policy, Reply, answer, World}
use protoneo.Deliberation.Exec.{Run, cancelled_error, Result, ok, err, Exec, and_then}
use protoneo.Deliberation.Attempts.{
  Item, accepted, failure, Outcome, good, bad, stopped, judge, noted, attempt_once, conclude,
  attempts_from, run_agent,
}

-- A turn writes events and counts calls, and leaves all else alone.
pub record Untouched (s t : Run) : Type 0 where
  pub context : t.context ≡ s.context
  pub result : t.result ≡ s.result
  pub saved : t.saved ≡ s.saved

pub Untouched-trans : {s t u : Run} → Untouched s t → Untouched t u → Untouched s u
Untouched-trans v w = record {
  context = w.context ∙ v.context;
  result = w.result ∙ v.result;
  saved = w.saved ∙ v.saved;
}

module _ (world : World) (policy : Policy) (rules : Rules) (agent : Agent) where
  noted-Untouched :
      (attempt : ℕ) (e : String) (s : Run)
      → Untouched s (noted world policy rules agent attempt e s)
  unfolding noted
  noted-Untouched attempt e s = ground arith

  noted-calls :
      (attempt : ℕ) (e : String) (s : Run)
      → (noted world policy rules agent attempt e s).calls ≡ s.calls
  unfolding noted
  noted-calls attempt e s = ground arith

  module _ (content : String) (round : ℕ) (phase : String) (mode : Mode) (context : Context) where
    -- What holds after attempts number `attempt` to `max_attempts`, by how they end.
    abbrev pub Ends : ℕ → Run → Result Item → Run → Type 0
    Ends attempt s (ok (accepted m o)) t =
        (policy.validate_output o.content phase mode agent context ≡ valid o.structured)
        × (m.content ≡ o.content)
        × (o.agent_id ≡ agent.agent_id)
        × (o.round ≡ round)
        × (attempt ≤ o.attempts)
        × (o.attempts ≤ rules.max_attempts)
        × (t.calls + attempt ≡ s.calls + o.attempts + 1)
    Ends attempt s (ok (failure f)) t =
        (f.agent_id ≡ agent.agent_id)
        × (f.round ≡ round)
        × (t.calls + attempt ≡ s.calls + rules.max_attempts + 1)
    Ends attempt s (err e) t =
        (e ≡ cancelled_error) × (t.calls + attempt ≤ s.calls + rules.max_attempts + 1)

    abbrev pub Good : ℕ → Run → Result Item × Run → Type 0
    Good attempt s (r, t) = Ends attempt s r t × Untouched s t

    -- What an attempt leaves: one more call, unless the hook cancelled it.
    abbrev Tried : Run → Result Outcome → Run → Type 0
    Tried s (ok (good text structured)) t =
        (policy.validate_output text phase mode agent context ≡ valid structured)
        × (t.calls ≡ s.calls + 1)
    Tried s (ok _) t = t.calls ≡ s.calls + 1
    Tried s (err e) t = (e ≡ cancelled_error) × (t.calls ≡ s.calls)

    abbrev loop : (left attempt : ℕ) (prompt error : String) → Exec Item
    loop = attempts_from world policy rules agent content round phase mode context

    abbrev once : (attempt : ℕ) (prompt : String) → Exec Outcome
    once = attempt_once world policy rules agent content round phase mode context

    abbrev finish : (retry : String → Exec Item) (attempt : ℕ) → Outcome → Exec Item
    finish = conclude world policy rules agent content round phase mode context

    judge-Tried :
        (s t : Run) (reply : Reply)
        → t.calls ≡ s.calls + 1
        → Tried s (ok (judge world policy rules agent phase mode context reply)) t
    unfolding judge
    judge-Tried s t (answer text) h =
        checked (policy.validate_output text phase mode agent context) refl
      where
        checked :
            (v : Verdict)
            → policy.validate_output text phase mode agent context ≡ v
            → Tried s
                (ok (elim v [
                  | valid structured ↦ good text structured
                  | invalid e ↦ bad (world.sanitize e)
                ]))
                t
        checked (valid structured) e = (e, h)
        checked (invalid e) _ = h
    judge-Tried s t _ h = h

    attempt_once-Tried :
        (attempt : ℕ) (prompt : String) (s : Run)
        → Tried s (once attempt prompt s).0 (once attempt prompt s).1
          × Untouched s (once attempt prompt s).1
    unfolding attempt_once
    attempt_once-Tried attempt prompt s = elim (Bool-cases (world.interrupts s.calls)) [
      | inl e ↦ rw e ((refl, refl), record { context = refl; result = refl; saved = refl })
      | inr e ↦
          rw e (judge-Tried s _ _ refl, record { context = refl; result = refl; saved = refl })
    ]

    -- A retry that starts where a failed attempt stopped.
    widen :
        (attempt : ℕ) (s t : Run) (r : Result Item) (u : Run)
        → t.calls ≡ s.calls + 1
        → Untouched s t
        → Good (attempt + 1) t (r, u)
        → Good attempt s (r, u)
    widen attempt s t (ok (accepted m o)) u c v (h, w) = (ground arith, Untouched-trans v w)
    widen attempt s t (ok (failure f)) u c v (h, w) = (ground arith, Untouched-trans v w)
    widen attempt s t (err e) u c v (h, w) = (ground arith, Untouched-trans v w)

    conclude-Good :
        (retry : String → Exec Item) (attempt : ℕ) (s t : Run) (o : Outcome)
        → attempt ≤ rules.max_attempts
        → Tried s (ok o) t
        → Untouched s t
        → ((e : String) (u : Run) → Good (attempt + 1) u (retry e u))
        → Good attempt s (finish retry attempt o t)
    unfolding conclude
    conclude-Good retry attempt s t (good text structured) le tried u k = ground arith
    conclude-Good retry attempt s t stopped le tried u k = ground arith
    conclude-Good retry attempt s t (bad e) le tried u k =
        widen attempt s (noted world policy rules agent attempt e t) _ _
          (omega (arith, noted-calls attempt e t)) (Untouched-trans u (noted-Untouched attempt e t))
          (k e (noted world policy rules agent attempt e t))

    after_attempt :
        (retry : String → Exec Item) (attempt : ℕ) (s : Run) (r : Result Outcome) (t : Run)
        → attempt ≤ rules.max_attempts
        → Tried s r t × Untouched s t
        → ((e : String) (u : Run) → Good (attempt + 1) u (retry e u))
        → Good attempt s (and_then r (finish retry attempt) t)
    after_attempt retry attempt s (ok o) t le (tried, u) k =
        conclude-Good retry attempt s t o le tried u k
    after_attempt retry attempt s (err e) t le (tried, u) k = ((tried.0, omega arith), u)

    attempts_from-Good :
        (left attempt : ℕ) (prompt error : String) (s : Run)
        → attempt + left ≡ rules.max_attempts + 1
        → Good attempt s (loop left attempt prompt error s)
    unfolding attempts_from
    attempts_from-Good zero attempt prompt error s h = ground arith
    attempts_from-Good (suc left) attempt prompt error s h =
        after_attempt _ attempt s (once attempt prompt s).0 (once attempt prompt s).1 (omega arith)
          (attempt_once-Tried attempt prompt s)
          (λ e u. attempts_from-Good left (attempt + 1) _ e u (omega arith))

    -- A turn leaves the context and the phase result alone. If it ends in an answer, the policy
    -- accepted exactly that answer within the allowed attempts, and one call was made for each
    -- attempt; if it ends in a failure, all allowed attempts were made; if it raises, it was
    -- cancelled, after at most the allowed number of calls.
    pub run_agent-Good :
        (s : Run) → Good 1 s (run_agent world policy rules agent content round phase mode context s)
    unfolding run_agent
    run_agent-Good s = attempts_from-Good rules.max_attempts 1 _ _ s (omega arith)
