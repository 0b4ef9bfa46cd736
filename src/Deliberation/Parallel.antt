-- ===== src/Deliberation/Parallel.antt =====
-- ParallelPattern of protoneo/deliberation/patterns.py: all agents answer from the same context, and
-- their answers are committed in the order in which the tasks complete. That order is the event
-- loop's choice, `schedule`; each task is one step here, since turns share no more than the events
-- and the count of calls.
pub mod Sorted
pub mod Gathered
use protoneo.Prelude.{
  ℕ, ◌+◌, String, Bool, true, false, not, Option, none, some, List, [], ◌∷◌, leb, if◌then◌else◌,
  keep, any, all, ◌==◌,
}
use protoneo.Agents.{Message, AgentOutput, Agent}
use protoneo.Session.Context.{Context}
use protoneo.Deliberation.Types.{Rules, PhaseResult, Policy, World}
use protoneo.Deliberation.Exec.{Run, key_error, Result, ok, err, Exec, ◌>>=◌, ◌>>◌, modify}
use protoneo.Deliberation.Attempts.{Item, accepted, failure, run_agent}
use protoneo.Deliberation.Commit.{commit, add_failed}

-- `{agent.agent_id: i for i, agent in enumerate(agents)}.get(id)`: the last index counts.
unfoldable pub last_index : String → List Agent → ℕ → Option ℕ
last_index id [] i = none
last_index id (a ∷ agents) i = elim (last_index id agents (i + 1)) [
  | some j ↦ some j
  | none ↦ if a.agent_id == id then some i else none
]

abbrev pub known : Option ℕ → Bool
known none = false
known (some i) = true

abbrev pub index_or_zero : Option ℕ → ℕ
index_or_zero none = 0
index_or_zero (some i) = i

-- A stable sort by a key, as `list.sort(key=...)`.
unfoldable pub insert_by {ℓ} : {A : Type ℓ} → (A → ℕ) → A → List A → List A
insert_by key x [] = x ∷ []
insert_by key x (y ∷ ys) =
    let rest = insert_by key x ys in if leb (key x) (key y) then x ∷ y ∷ ys else y ∷ rest

unfoldable pub sort_by {ℓ} : {A : Type ℓ} → (A → ℕ) → List A → List A
unfolding insert_by
sort_by key [] = []
sort_by key (x ∷ xs) = insert_by key x (sort_by key xs)

unfoldable pub output_index : List Agent → AgentOutput → Option ℕ
unfolding last_index
output_index agents o = last_index o.agent_id agents 0

-- A message without an agent has no index.
unfoldable pub message_index : List Agent → Message → Option ℕ
unfolding last_index
message_index agents m = elim m.agent_id [ some id ↦ last_index id agents 0 | none ↦ none ]

abbrev pub rank : List Agent → AgentOutput → ℕ
rank agents o = index_or_zero (output_index agents o)

-- The two sorts of the `finally`; an agent that does not take part raises KeyError.
unfoldable pub arrange : List Agent → Exec Unit
unfolding output_index message_index sort_by
arrange agents s =
    let p = s.result in
    let sorted = record p { outputs = sort_by (rank agents) p.outputs } in
    if not (all (λ o. known (output_index agents o)) p.outputs)
    then (err (key_error "output"), s)
    else if not (all (λ m. known (message_index agents m)) p.messages)
    then (err (key_error "message"), record s { result = sorted })
    else (
      ok tt,
      record s {
        result = record sorted {
          messages = sort_by (λ m. index_or_zero (message_index agents m)) p.messages;
        };
      },
    )

-- An exception of the `finally` takes the place of the body's.
abbrev pub with_finally : Result (Unit {0}) → Result (Unit {0}) × Run → Result (Unit {0}) × Run
with_finally r (ok _, s) = (r, s)
with_finally r (err e, s) = (err e, s)

module _ (world : World) (policy : Policy) (rules : Rules) where
  unfoldable pub gather : Item → Exec Unit
  unfolding add_failed commit
  gather (failure f) = modify (add_failed f)
  gather (accepted m o) = commit m o

  -- `for task in asyncio.as_completed(tasks)`, where every task runs on the snapshot.
  unfoldable pub complete_all : (snapshot : Context) (prompt : String) → List Agent → Exec Unit
  unfolding run_agent gather
  complete_all snapshot prompt [] s = (ok tt, s)
  complete_all snapshot prompt (a ∷ agents) s =
      ((run_agent world policy rules a prompt 0 s.result.phase_name s.result.mode snapshot
            >>= gather)
          >> complete_all snapshot prompt agents)
        s

  -- The agents that have no output yet get a task.
  abbrev pub to_run : List Agent → PhaseResult → List Agent
  to_run agents p = keep (λ a. not (any (λ o. o.agent_id == a.agent_id) p.outputs)) agents

  -- ParallelPattern.execute
  unfoldable pub parallel_execute :
      (schedule : List Agent → List Agent) → List Agent → String → Exec Unit
  unfolding complete_all arrange
  parallel_execute schedule agents prompt s =
      let (r, t) =
        complete_all s.context prompt (schedule (to_run agents s.result))
          (record s { result = record s.result { failed_agents = [] } }) in
      with_finally r (arrange agents t)
