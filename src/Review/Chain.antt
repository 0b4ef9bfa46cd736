-- ===== src/Review/Chain.antt =====
-- The discussion turns of one reviewer among those of the others, by apps/paper_review/deliberation.py
-- and SessionContext.add_output of protoneo/deliberation/session.py.
use protoneo.Prelude.{
  ℕ, suc, String, ◌≡◌, sym, ap, ◌∙◌, subst, true, false, not, some, List, [], ◌∷◌, ◌++◌, arith,
  if-true, if-false, ◌==◌, eq_iff,
}
use protoneo.Review.{
  Host, Whole, same_whole, Profile, accepted, field_at, fields_of, score_of, is_flag,
  validate_output,
}
use protoneo.Json.{obj, Fields}
use protoneo.Agents.{AgentOutput}
use protoneo.Session.Context.{Context, add_output, outputs_under, outputs_under-append_under}
use protoneo.Review.Stances.{stance_score, stance}
use protoneo.Review.Answers.{validate_output-parsed}
use protoneo.Review.Verdicts.{validate_output-Verdict}
use protoneo.Review.Held.{Holds, check_last_score-held, spoken, reviewed}

module _ (host : Host) (p : Profile) (a : String) where
  -- A session in which the answers `fs` of the reviewer are accepted, one after another.
  pub data Discussed : Context → List Fields → Type 0 where
    ended : {c : Context} → Discussed c []
    spoke :
        {c : Context} {fs : List Fields} (o : AgentOutput) (given : Fields) (n : ℕ)
        → validate_output host p o.content o.phase true (outputs_under a c.agent_outputs)
          ≡ accepted given
        → o.agent_id ≡ a
        → o.structured ≡ some (obj given)
        → o.round ≡ suc n
        → Discussed (add_output o c) fs
        → Discussed c (given ∷ fs)
    heard :
        {c : Context} {fs : List Fields} (o : AgentOutput)
        → (o.agent_id == a) ≡ false
        → Discussed (add_output o c) fs
        → Discussed c fs

-- Each answer starts from the score where the one before it ended, and says whether it moved.
pub data Follows (p : Profile) : Whole → List Fields → Type 0 where
  stays : {s : Whole} → Follows p s []
  moves :
      {s t : Whole} {f : Fields} {fs : List Fields}
      → score_of p (stance_score "previous_score" f) ≡ accepted s
      → score_of p (stance_score "current_score" f) ≡ accepted t
      → is_flag (not (same_whole s t)) (field_at "changed" (fields_of (field_at "stance_change" f)))
        ≡ true
      → Follows p t fs
      → Follows p s (f ∷ fs)

-- `add_output` of a reviewer, and of another agent
pub outputs_of_author :
    (a : String) (o : AgentOutput) (c : Context)
    → o.agent_id ≡ a
    → outputs_under a (add_output o c).agent_outputs ≡ outputs_under a c.agent_outputs ++ o ∷ []
unfolding add_output
outputs_of_author a o c mine =
    outputs_under-append_under o.agent_id a o c.agent_outputs
    ∙ if-true (o.agent_id == a) _ _ (ground (arith, mine, eq_iff o.agent_id a))

pub outputs_of_others :
    (a : String) (o : AgentOutput) (c : Context)
    → (o.agent_id == a) ≡ false
    → outputs_under a (add_output o c).agent_outputs ≡ outputs_under a c.agent_outputs
unfolding add_output
outputs_of_others a o c other =
    outputs_under-append_under o.agent_id a o c.agent_outputs ∙ if-false (o.agent_id == a) _ _ other

module _ (p : Profile) where
  -- In a session a reviewer who holds the score `s` goes on from it.
  pub chain-Follows :
      (host : Host) (a : String) (s : Whole) (c : Context) (fs : List Fields)
      → Holds p s (outputs_under a c.agent_outputs)
      → Discussed host p a c fs
      → Follows p s fs
  chain-Follows host a s c [] held ended = stays
  chain-Follows host a s c fs held (spoke o given n ok mine there is_turn rest) =
      let prior = outputs_under a c.agent_outputs in
      let r = validate_output-parsed host p o.content o.phase true prior given ok in
      let said = stance host p prior r.0 given r.1.1 in
      let from : said.previous ≡ s =
        check_last_score-held p said.previous s prior said.held.0 held said.held.1 in
      let after = spoken p prior o r.0 given n said there is_turn in
      moves
        (ap (λ g. score_of p (stance_score "previous_score" g)) said.same
          ∙ said.was
          ∙ ap accepted from)
        (ap (λ g. score_of p (stance_score "current_score" g)) said.same ∙ said.is_now)
        (ap (λ g. is_flag (not (same_whole s said.current)) (stance_score "changed" g)) said.same
          ∙ ap (λ n. is_flag (not (same_whole n said.current)) (stance_score "changed" r.0))
              (sym from)
          ∙ said.flagged)
        (chain-Follows host a said.current (add_output o c) _
          (subst (Holds p said.current) (sym (outputs_of_author a o c mine)) after) rest)
  chain-Follows host a s c fs held (heard o other rest) =
      chain-Follows host a s (add_output o c) fs
        (subst (Holds p s) (sym (outputs_of_others a o c other)) held) rest

  -- When a reviewer's review is accepted and then, among the outputs of other agents, its answers in
  -- the discussion, the first answer starts from the review's score, each next one from the score
  -- where the one before it ended, and each says that it changed exactly when its two scores differ.
  pub review_chain-Follows :
      (host : Host) (a phase_name : String) (c : Context) (o : AgentOutput) (given : Fields)
      (fs : List Fields)
      (ok : validate_output host p o.content phase_name false (outputs_under a c.agent_outputs)
        ≡ accepted given)
      → o.agent_id ≡ a
      → o.structured ≡ some (obj given)
      → o.round ≡ 0
      → Discussed host p a (add_output o c) fs
      → (s : Whole) × ((score_of p (field_at "overall_merit" given) ≡ accepted s) × Follows p s fs)
  review_chain-Follows host a phase_name c o given fs ok mine there is_review discussed =
      let prior = outputs_under a c.agent_outputs in
      let verdict = validate_output-Verdict host p o.content phase_name prior given ok in
      let held =
        reviewed p host (phase_name == "meta_review") prior o given verdict there is_review in
      (
        verdict.score,
        (
          verdict.merit,
          chain-Follows host a verdict.score (add_output o c) fs
              (subst (Holds p verdict.score) (sym (outputs_of_author a o c mine)) held) discussed,
        ),
      )
