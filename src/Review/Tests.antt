-- ===== src/Review/Tests.antt =====
-- A review and a turn in the discussion, by apps/paper_review/deliberation.py.
use protoneo.Prelude.{
  ℕ, String, ◌≡◌, refl, true, false, not, Option, none, some, [], ◌∷◌, ◌=ℕ◌, if◌then◌else◌, ◌==◌,
}
use protoneo.Review.{
  Host, Whole, natural, minus, Profile, not_the_last_score, scores_differ, accepted, rejected,
  ◌>>=◌, field_at, score_of, or_value, payload_of, held_score, check_last_score, newest_first,
  all_texts, validate_discussion, check_label, check_meta, validate_review, validate_output,
}
use protoneo.Json.{nonnegative, Json, bool, num, str, arr, obj, nil, cons, Fields, end, field}
use protoneo.Agents.{AgentOutput}
use protoneo.Session.Context.{Context, new, append_under, add_output, outputs_under}
use protoneo.Review.Verdicts.{Verdict, validate_output-Verdict}
use protoneo.Review.Chain.{ended, spoke, heard, Follows, review_chain-Follows}

abbrev rating : ℕ → String → Json
rating n label = obj (field "score" (num (nonnegative n)) (field "label" (str label) end))

abbrev closing : Fields
closing = field "strengths" (arr nil) (
    field "weaknesses" (arr nil) (
      field "questions_for_authors" (arr (cons (str "Which workloads?") nil))
        (field "revision_actions" (arr nil) end)))

abbrev review : Fields
review =
    field "overall_merit" (rating 2 "Weak reject")
      (field "summary" (str "A storage system.") closing)

abbrev verdict : Fields
verdict =
    field "comments_for_authors" (str "Add a baseline.")
      (field "final_recommendation" (rating 2 "Weak reject") review)

abbrev split : Fields
split =
    field "comments_for_authors" (str "Add a baseline.")
      (field "final_recommendation" (rating 3 "Accept") review)

abbrev moved : (previous current : ℕ) → Json
moved previous current = obj (
    field "changed" (bool (not (previous =ℕ current))) (
      field "previous_score" (num (nonnegative previous)) (
        field "current_score" (num (nonnegative current))
          (field "reason" (str "The rebuttal has the measurement.") end))))

abbrev turn : (previous current : ℕ) → Fields
turn previous current = field "stance_change" (moved previous current) (
    field "strongest_agreement" (obj end) (
      field "strongest_disagreement" (obj end) (
        field "evidence_correction" (obj end) (
          field "include_in_final_review" (obj end)
            (field "exclude_from_final_review" (obj end) end)))))

abbrev label_text : Option Json → String
label_text (some (str s)) = s
label_text _ = ""

abbrev answer_in : String → Option Fields
answer_in content =
    if content == "review"
    then some review
    else if content == "verdict"
    then some verdict
    else if content == "split"
    then some split
    else if content == "up"
    then some (turn 2 3)
    else if content == "again"
    then some (turn 3 3)
    else none

abbrev host : Host
host = record {
  is_blank = λ s. s == "";
  folded_label = label_text;
  folded = λ s. s;
  parse = answer_in;
}

abbrev venue_label : Whole → String
venue_label (minus n) = ""
venue_label (natural n) = if n =ℕ 2 then "Weak reject" else if n =ℕ 3 then "Accept" else ""

abbrev venue : Profile
venue = record { minimum = minus 0; maximum = natural 5; merit_label = venue_label }

abbrev output : (agent_id content : String) → (round : ℕ) → Fields → AgentOutput
output agent_id content round given = record {
  agent_id = agent_id;
  agent_role = "reviewer";
  content = content;
  structured = some (obj given);
  phase = "independent_review";
  attempts = 1;
  round = round;
  deliberation_turn = 0;
}

abbrev before : Context
before = new "s1"

abbrev reviewed_context : Context
reviewed_context = add_output (output "r1" "review" 0 review) before

review_accepted :
    validate_output host venue "review" "independent_review" false [] ≡ accepted review
unfolding validate_output validate_review validate_discussion check_label check_meta score_of
    field_at or_value all_texts ◌>>=◌
review_accepted = refl

split_rejected : validate_output host venue "split" "meta_review" false [] ≡ rejected scores_differ
unfolding validate_output validate_review validate_discussion check_label check_meta score_of
    field_at or_value all_texts ◌>>=◌
split_rejected = refl

verdict_accepted : validate_output host venue "verdict" "meta_review" false [] ≡ accepted verdict
unfolding validate_output validate_review validate_discussion check_label check_meta score_of
    field_at or_value all_texts ◌>>=◌
verdict_accepted = refl

validate_output-Verdict_example : Verdict host venue true verdict
validate_output-Verdict_example =
    validate_output-Verdict host venue "verdict" "meta_review" [] verdict verdict_accepted

abbrev up_output : AgentOutput
up_output = output "r1" "up" 1 (turn 2 3)

abbrev other_output : AgentOutput
other_output = output "r2" "again" 1 (turn 3 3)

up_accepted :
    validate_output host venue "up" "independent_review" true
      (outputs_under "r1" (add_output other_output reviewed_context).agent_outputs)
    ≡ accepted (turn 2 3)
unfolding validate_output validate_review validate_discussion score_of field_at or_value ◌>>=◌
    newest_first check_last_score held_score payload_of add_output append_under outputs_under
up_accepted = refl

again_rejected :
    validate_output host venue "again" "independent_review" true
      (outputs_under "r1" reviewed_context.agent_outputs)
    ≡ rejected not_the_last_score
unfolding validate_output validate_review validate_discussion score_of field_at or_value ◌>>=◌
    newest_first check_last_score held_score payload_of add_output append_under outputs_under
again_rejected = refl

review_chain-Follows_example :
    (s : Whole) × ((score_of venue (field_at "overall_merit" review) ≡ accepted s)
      × Follows venue s (turn 2 3 ∷ []))
unfolding outputs_under
review_chain-Follows_example =
    review_chain-Follows venue host "r1" "independent_review" before (output "r1" "review" 0 review)
      review (turn 2 3 ∷ []) review_accepted refl refl refl
      (heard other_output refl (spoke up_output (turn 2 3) 0 up_accepted refl refl refl ended))
