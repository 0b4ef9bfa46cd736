-- ===== src/Review.antt =====
-- PaperReviewPolicy of apps/paper_review/deliberation.py: which answers of reviewers are accepted.
-- A rejection is a ValueError, told apart by its message; where the code would raise another exception
-- it `crashes`. The instructions to the reviewers are text.
pub mod Answers
pub mod Chain
pub mod Held
pub mod Readiness
pub mod Scores
pub mod Stances
mod Tests
pub mod Verdicts
use protoneo.Prelude.{
  ℕ, zero, suc, String, Bool, true, false, not, ◌&&◌, ◌||◌, Option, none, some, List, [], ◌∷◌, ◌++◌,
  leb, ◌=ℕ◌, if◌then◌else◌, any, all, ◌==◌, is_some,
}
use protoneo.Json.{
  nonnegative, negative, Json, null, bool, num, str, arr, obj, Items, nil, cons, Fields, end, field,
}
use protoneo.Agents.{AgentOutput}

-- What the policy takes from the language and from the answers' parser: `not text.strip()`,
-- `str(value).strip().casefold()` of a label and of a text, and `extract_json_object`.
pub record Host : Type 0 where
  pub is_blank : String → Bool
  pub folded_label : Option Json → String
  pub folded : String → String
  pub parse : String → Option Fields

-- An integer; `minus n` is -(n + 1), as in Json.
pub data Whole : Type 0 where
  natural minus : ℕ → Whole

abbrev pub same_whole : Whole → Whole → Bool
same_whole (natural a) (natural b) = a =ℕ b
same_whole (minus a) (minus b) = a =ℕ b
same_whole _ _ = false

abbrev pub at_most : Whole → Whole → Bool
at_most (natural a) (natural b) = leb a b
at_most (natural a) (minus b) = false
at_most (minus a) (natural b) = true
at_most (minus a) (minus b) = leb b a

-- The merit scale, and `merit_labels`; an absent label is empty.
pub record Profile : Type 0 where
  pub minimum : Whole
  pub maximum : Whole
  pub merit_label : Whole → String

pub data Complaint : Type 0 where
  no_answer not_an_object no_delta bad_score wrong_change not_the_last_score no_reason : Complaint
  merit_not_object wrong_label no_summary not_an_array question_not_text : Complaint
  rating_not_object no_comments scores_differ crashes : Complaint

pub data Checked (A : Type 0) : Type 0 where
  accepted : A → Checked A
  rejected : Complaint → Checked A

infixr 20 ◌>>=◌
unfoldable pub ◌>>=◌ : {A B : Type 0} → Checked A → (A → Checked B) → Checked B
accepted a >>= f = f a
rejected c >>= f = rejected c

-- `if not b: raise`
abbrev pub require : Bool → Complaint → Checked Bool
require true c = accepted true
require false c = rejected c

-- `d.get(key)`
unfoldable pub field_at : String → Fields → Option Json
field_at key end = none
field_at key (field k v fs) = let rest = field_at key fs in if k == key then some v else rest

abbrev pub is_dict : Option Json → Bool
is_dict (some (obj fs)) = true
is_dict _ = false

abbrev pub is_list : Option Json → Bool
is_list (some (arr js)) = true
is_list _ = false

abbrev pub fields_of : Option Json → Fields
fields_of (some (obj fs)) = fs
fields_of _ = end

-- Absent and null are both None.
abbrev pub is_none : Option Json → Bool
is_none none = true
is_none (some null) = true
is_none _ = false

-- `_score`: of an object its field "score" counts.
abbrev pub whole_in : Option Json → Option Whole
whole_in (some (num (nonnegative n))) = some (natural n)
whole_in (some (num (negative n))) = some (minus n)
whole_in _ = none

abbrev pub within : (minimum maximum : Whole) → Option Whole → Checked Whole
within minimum maximum none = rejected bad_score
within minimum maximum (some n) =
    if at_most minimum n && at_most n maximum then accepted n else rejected bad_score

abbrev pub integer_in : (minimum maximum : Whole) → Option Json → Checked Whole
integer_in minimum maximum value = within minimum maximum (whole_in value)

unfoldable pub score_of : Profile → Option Json → Checked Whole
score_of p (some (obj fs)) = integer_in p.minimum p.maximum (field_at "score" fs)
score_of p value = integer_in p.minimum p.maximum value

-- `type(b) is bool and b == expected`
abbrev pub is_flag : Bool → Option Json → Bool
is_flag true (some (bool b)) = b
is_flag false (some (bool b)) = not b
is_flag expected _ = false

abbrev pub text_with : (String → Bool) → Option Json → Bool
text_with good (some (str s)) = good s
text_with good _ = false

abbrev delta_fields : List String
delta_fields =
    "stance_change" ∷ "strongest_agreement" ∷ "strongest_disagreement" ∷ "evidence_correction"
    ∷ "include_in_final_review" ∷ "exclude_from_final_review" ∷ []

abbrev has_items : Items → Bool
has_items nil = false
has_items (cons j js) = true

abbrev has_fields : Fields → Bool
has_fields end = false
has_fields (field k v fs) = true

-- `a or b` on values of JSON
unfoldable pub or_value : Option Json → Option Json → Option Json
or_value none other = other
or_value (some null) other = other
or_value (some (bool b)) other = if b then some (bool b) else other
or_value (some (num (nonnegative n))) other = if n =ℕ 0 then other else some (num (nonnegative n))
or_value (some (num n)) other = some (num n)
or_value (some (str s)) other = if s == "" then other else some (str s)
or_value (some (arr js)) other = if has_items js then some (arr js) else other
or_value (some (obj fs)) other = if has_fields fs then some (obj fs) else other

-- `output.structured or {}`, and the score that it holds; none where `.get` is not there.
abbrev pub fields_if : Option Json → Option Fields
fields_if (some (obj fs)) = some fs
fields_if _ = none

unfoldable pub payload_of : Option Json → Option Fields
payload_of structured = fields_if (or_value structured (some (obj end)))

abbrev pub discussed_score : Option Json → Option (Option Json)
discussed_score none = some none
discussed_score (some (obj fs)) = some (field_at "current_score" fs)
discussed_score (some v) = none

abbrev pub payload_score : (round : ℕ) → Option Fields → Option (Option Json)
payload_score round none = none
payload_score zero (some fs) = some (field_at "overall_merit" fs)
payload_score (suc n) (some fs) = discussed_score (field_at "stance_change" fs)

unfoldable pub held_score : AgentOutput → Option (Option Json)
held_score o = payload_score o.round (payload_of o.structured)

module _ (p : Profile) where
  abbrev pub compared :
      (previous : Whole) → Option (Option Json) → (older : Checked Bool) → Checked Bool
  compared previous none older = rejected crashes
  compared previous (some value) older =
      if is_none value
      then older
      else do last ← score_of p value; require (same_whole last previous) not_the_last_score

  -- The newest output with a score has the score `previous`; `outputs` is the newest first.
  unfoldable pub check_last_score : (previous : Whole) → (outputs : List AgentOutput) → Checked Bool
  check_last_score previous [] = accepted true
  check_last_score previous (o ∷ outputs) =
      compared previous (held_score o) (check_last_score previous outputs)

-- `reversed(outputs)`
unfoldable pub newest_first : List AgentOutput → List AgentOutput
newest_first [] = []
newest_first (o ∷ os) = newest_first os ++ o ∷ []

unfoldable pub all_texts : Items → Bool
all_texts nil = true
all_texts (cons (str s) js) = all_texts js
all_texts (cons _ js) = false

abbrev pub texts_in : Option Json → Bool
texts_in (some (arr js)) = all_texts js
texts_in _ = true

abbrev pub summary_fields : List String
summary_fields = "summary" ∷ "paper_summary" ∷ "panel_summary" ∷ []

abbrev pub list_fields : List String
list_fields = "strengths" ∷ "weaknesses" ∷ "questions_for_authors" ∷ "revision_actions" ∷ []

abbrev dict_fields : List String
dict_fields = "confidence" ∷ "expertise" ∷ "overall_merit" ∷ []

module _ (host : Host) (p : Profile) where
  unfoldable pub validate_discussion : (prior : List AgentOutput) → Fields → Checked Fields
  validate_discussion prior parsed =
      let stance = fields_of (field_at "stance_change" parsed) in
      do
        _ ← require (all (λ k. is_dict (field_at k parsed)) delta_fields) no_delta
        previous ← score_of p (field_at "previous_score" stance)
        current ← score_of p (field_at "current_score" stance)
        _ ←
            require (is_flag (not (same_whole previous current)) (field_at "changed" stance))
              wrong_change
        _ ← check_last_score p previous (newest_first prior)
        _ ← require (text_with (λ s. not (host.is_blank s)) (field_at "reason" stance)) no_reason
        accepted parsed

  -- The venue's label of a rating that is an object.
  unfoldable pub check_label : Option Json → Checked Bool
  check_label (some (obj rating)) = do
    n ← score_of p (some (obj rating))
    require
        (p.merit_label n == ""
          || host.folded_label (field_at "label" rating) == host.folded (p.merit_label n))
        wrong_label
  check_label rating = accepted true

  unfoldable pub check_meta : (score : Whole) → Fields → Checked Bool
  check_meta score parsed = do
    _ ←
        require (text_with (λ s. not (host.is_blank s)) (field_at "comments_for_authors" parsed))
          no_comments
    final ← score_of p (field_at "final_recommendation" parsed)
    require (same_whole final score) scores_differ

  abbrev is_dict_if_there : Fields → String → Bool
  is_dict_if_there parsed key = not (is_some (field_at key parsed)) || is_dict (field_at key parsed)

  unfoldable pub validate_review : (meta : Bool) → Fields → Checked Fields
  validate_review meta parsed = do
    score ←
        score_of p
          (or_value (field_at "overall_merit" parsed) (field_at "final_recommendation" parsed))
    _ ← require (is_dict (field_at "overall_merit" parsed)) merit_not_object
    _ ← check_label (field_at "overall_merit" parsed)
    _ ← check_label (field_at "final_recommendation" parsed)
    _ ←
        require
          (any (λ k. text_with (λ s. not (host.is_blank s)) (field_at k parsed)) summary_fields)
          no_summary
    _ ← require (all (λ k. is_list (field_at k parsed)) list_fields) not_an_array
    _ ← require (texts_in (field_at "questions_for_authors" parsed)) question_not_text
    _ ← require (all (is_dict_if_there parsed) dict_fields) rating_not_object
    _ ← if meta then check_meta score parsed else accepted true
    accepted parsed

  -- An answer in the discussion, or a review; `phase_name` and the agent's outputs decide the rest.
  unfoldable pub validate_output :
      (content phase_name : String)
      → (discussion : Bool) → (prior : List AgentOutput) → Checked Fields
  validate_output content phase_name discussion prior =
      if host.is_blank content then rejected no_answer else elim (host.parse content) [
        | none ↦ rejected not_an_object
        | some parsed ↦
            if discussion
            then validate_discussion prior parsed
            else validate_review (phase_name == "meta_review") parsed
      ]
