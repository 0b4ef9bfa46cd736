-- ===== src/Review/Held.antt =====
-- The score of a reviewer's newest output, which apps/paper_review/deliberation.py compares with.
use protoneo.Prelude.{
  ℕ, suc, String, ◌≡◌, refl, sym, ap, ◌∙◌, Bool, true, Option, none, some, List, [], ◌∷◌, ◌++◌,
  arith, if-false,
}
use protoneo.Review.{
  Host, Whole, same_whole, Profile, not_the_last_score, Checked, accepted, ◌>>=◌, require, field_at,
  is_dict, fields_of, is_none, score_of, or_value, payload_of, discussed_score, payload_score,
  held_score, compared, check_last_score, newest_first,
}
use protoneo.Json.{Json, obj, Fields, end, field}
use protoneo.Review.Scores.{
  passed, required, accepted_inj, same_whole-eq, scored-there, value_there,
}
use protoneo.Agents.{AgentOutput}
use protoneo.Review.Stances.{stance_score, Stance}
use protoneo.Review.Verdicts.{Verdict}

pub newest_first-append :
    (os : List AgentOutput) (o : AgentOutput) → newest_first (os ++ o ∷ []) ≡ o ∷ newest_first os
unfolding newest_first
newest_first-append [] o = refl
newest_first-append (x ∷ os) o = ap (λ l. l ++ x ∷ []) (newest_first-append os o)

-- The newest output of the reviewer has the score `s`.
pub record Holds (p : Profile) (s : Whole) (outputs : List AgentOutput) : Type 0 where
  pub newest : AgentOutput
  pub older : List AgentOutput
  pub value : Json
  pub first : newest_first outputs ≡ newest ∷ older
  pub score : held_score newest ≡ some (some value)
  pub is_score : score_of p (some value) ≡ accepted s

module _ (p : Profile) where
  pub compared_last :
      (previous s : Whole) (value : Json) (older : Checked Bool) (b : Bool)
      → score_of p (some value) ≡ accepted s
      → compared p previous (some (some value)) older ≡ accepted b
      → previous ≡ s
  compared_last previous s value older b is h =
      let k : (score_of p (some value)
            >>= (λ last. require (same_whole last previous) not_the_last_score))
          ≡ accepted b =
        sym (if-false (is_none (some value)) older _ (scored-there p value s is)) ∙ h in
      let r = passed _ _ b k in
      let same : s ≡ r.0 = accepted_inj s r.0 (sym is ∙ r.1.0) in
      let e = required _ not_the_last_score b r.1.1 in sym (same ∙ same_whole-eq r.0 previous e)

  pub check_last_score-held :
      (previous s : Whole) (outputs : List AgentOutput) (b : Bool)
      → Holds p s outputs
      → check_last_score p previous (newest_first outputs) ≡ accepted b
      → previous ≡ s
  unfolding check_last_score
  check_last_score-held previous s outputs b held h =
      compared_last previous s held.value (check_last_score p previous held.older) b held.is_score (
        sym (ap (λ v. compared p previous v (check_last_score p previous held.older)) held.score)
        ∙ sym (ap (check_last_score p previous) held.first)
        ∙ h)

  pub discussed_score-dict :
      (x : Option Json)
      → is_dict x ≡ true
      → discussed_score x ≡ some (field_at "current_score" (fields_of x))
  discussed_score-dict none e = ground (arith, e)
  discussed_score-dict (some (obj fs)) e = refl
  discussed_score-dict (some v) e = ground (arith, e)

  pub payload_of-there :
      (g : Fields) (key : String) (value : Json)
      → field_at key g ≡ some value
      → payload_of (some (obj g)) ≡ some g
  unfolding payload_of or_value field_at
  payload_of-there end key value e = ground (arith, e)
  payload_of-there (field k v fs) key value e = refl

  pub payload_of-answer :
      (g : Fields)
      → is_dict (field_at "stance_change" g) ≡ true
      → payload_of (some (obj g)) ≡ some g
  unfolding payload_of or_value field_at
  payload_of-answer end e = ground (arith, e)
  payload_of-answer (field k v fs) e = refl

  -- An accepted answer is a score that its author holds from then on.
  pub spoken :
      (prior : List AgentOutput) (o : AgentOutput) (parsed given : Fields) (n : ℕ)
      (said : Stance p prior parsed given)
      → o.structured ≡ some (obj given)
      → o.round ≡ suc n
      → Holds p said.current (prior ++ o ∷ [])
  unfolding held_score
  spoken prior o parsed given n said there is_turn =
      let is_given : is_dict (field_at "stance_change" given) ≡ true =
        ap (λ g. is_dict (field_at "stance_change" g)) said.same ∙ said.delta in
      let is_now : score_of p (stance_score "current_score" given) ≡ accepted said.current =
        ap (λ g. score_of p (stance_score "current_score" g)) said.same ∙ said.is_now in
      let v = value_there p (stance_score "current_score" given) said.current is_now in
      record {
        newest = o;
        older = newest_first prior;
        value = v.0;
        first = newest_first-append prior o;
        score =
            ap (λ r. payload_score r (payload_of o.structured)) is_turn
            ∙ ap (λ x. payload_score (suc n) (payload_of x)) there
            ∙ ap (payload_score (suc n)) (payload_of-answer given is_given)
            ∙ discussed_score-dict (field_at "stance_change" given) is_given
            ∙ ap some v.1;
        is_score = sym (ap (score_of p) v.1) ∙ is_now;
      }

  -- So is the score of an accepted review.
  pub reviewed :
      (host : Host) (meta : Bool) (prior : List AgentOutput) (o : AgentOutput) (given : Fields)
      (verdict : Verdict host p meta given)
      → o.structured ≡ some (obj given)
      → o.round ≡ 0
      → Holds p verdict.score (prior ++ o ∷ [])
  unfolding held_score
  reviewed host meta prior o given verdict there is_review =
      let v = value_there p (field_at "overall_merit" given) verdict.score verdict.merit in
      record {
        newest = o;
        older = newest_first prior;
        value = v.0;
        first = newest_first-append prior o;
        score =
            ap (λ r. payload_score r (payload_of o.structured)) is_review
            ∙ ap (λ x. payload_score 0 (payload_of x)) there
            ∙ ap (payload_score 0) (payload_of-there given "overall_merit" v.0 v.1)
            ∙ ap some v.1;
        is_score = sym (ap (score_of p) v.1) ∙ verdict.merit;
      }
