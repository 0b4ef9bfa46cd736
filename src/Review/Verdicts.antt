-- ===== src/Review/Verdicts.antt =====
-- What an accepted review says, by apps/paper_review/deliberation.py.
use protoneo.Prelude.{
  String, ◌≡◌, refl, sym, ap, ◌∙◌, subst, Bool, true, false, not, ◌||◌, Option, none, some, List,
  arith, if-true, any, all, ◌==◌,
}
use protoneo.Review.{
  Host, Whole, at_most, Profile, merit_not_object, wrong_label, no_summary, not_an_array,
  question_not_text, no_comments, scores_differ, accepted, field_at, is_dict, is_list, fields_of,
  score_of, text_with, or_value, texts_in, summary_fields, list_fields, check_label, check_meta,
  validate_review, validate_output,
}
use protoneo.Json.{Json, obj, Fields, end, field}
use protoneo.Review.Scores.{passed, required, accepted_inj, same_whole-eq, score_of-bounds}
use protoneo.Agents.{AgentOutput}
use protoneo.Review.Answers.{validate_output-parsed}

module _ (host : Host) (p : Profile) where
  abbrev pub says : (key : String) → Fields → Bool
  says key given = text_with (λ s. not (host.is_blank s)) (field_at key given)

  -- The label of a rating is the one that the venue has for its score, where it has one.
  abbrev pub labelled : Whole → Option Json → Bool
  labelled n rating =
      p.merit_label n == ""
      || host.folded_label (field_at "label" (fields_of rating)) == host.folded (p.merit_label n)

  pub record Verdict (meta : Bool) (given : Fields) : Type 0 where
    pub score : Whole
    pub is_object : is_dict (field_at "overall_merit" given) ≡ true
    pub merit : score_of p (field_at "overall_merit" given) ≡ accepted score
    pub on_scale : (at_most p.minimum score ≡ true) × (at_most score p.maximum ≡ true)
    pub by_venue : labelled score (field_at "overall_merit" given) ≡ true
    pub summarised : any (λ k. says k given) summary_fields ≡ true
    pub listed : all (λ k. is_list (field_at k given)) list_fields ≡ true
    pub questions : texts_in (field_at "questions_for_authors" given) ≡ true
    pub concluded :
        meta ≡ true
        → (score_of p (field_at "final_recommendation" given) ≡ accepted score)
          × (says "comments_for_authors" given ≡ true)

  pub check_label-dict :
      (rating : Option Json) (b : Bool)
      → is_dict rating ≡ true
      → check_label host p rating ≡ accepted b
      → (n : Whole) × ((score_of p rating ≡ accepted n) × (labelled n rating ≡ true))
  unfolding check_label
  check_label-dict (some (obj fs)) b e h =
      let r = passed _ _ b h in (r.0, (r.1.0, required _ wrong_label b r.1.1))
  check_label-dict none b e h = ground (arith, e)
  check_label-dict (some v) b e h = ground (arith, e)

  pub or_value-scored :
      (rating other : Option Json) (n : Whole)
      → is_dict rating ≡ true
      → score_of p rating ≡ accepted n
      → or_value rating other ≡ rating
  unfolding or_value score_of field_at
  or_value-scored (some (obj end)) other n e h = ground (arith, h)
  or_value-scored (some (obj (field k v fs))) other n e h = refl
  or_value-scored none other n e h = ground (arith, e)
  or_value-scored (some v) other n e h = ground (arith, e)

  pub check_meta-concluded :
      (score : Whole) (parsed : Fields) (b : Bool)
      → check_meta host p score parsed ≡ accepted b
      → (score_of p (field_at "final_recommendation" parsed) ≡ accepted score)
        × (says "comments_for_authors" parsed ≡ true)
  unfolding check_meta
  check_meta-concluded score parsed b h =
      let a = passed _ _ b h in
      let f = passed _ _ b a.1.1 in
      let same = required _ scores_differ b f.1.1 in
      (f.1.0 ∙ ap accepted (same_whole-eq _ _ same), required _ no_comments a.0 a.1.0)

  pub validate_review-Verdict :
      (meta : Bool) (parsed given : Fields)
      → validate_review host p meta parsed ≡ accepted given
      → Verdict meta given
  unfolding validate_review
  validate_review-Verdict meta parsed given h =
      let first = passed _ _ given h in
      let dict = passed _ _ given first.1.1 in
      let label = passed _ _ given dict.1.1 in
      let final_label = passed _ _ given label.1.1 in
      let summary = passed _ _ given final_label.1.1 in
      let lists = passed _ _ given summary.1.1 in
      let texts = passed _ _ given lists.1.1 in
      let dicts = passed _ _ given texts.1.1 in
      let last = passed _ _ given dicts.1.1 in
      let is_rating = required _ merit_not_object dict.0 dict.1.0 in
      let rating = field_at "overall_merit" parsed in
      let rated = check_label-dict rating label.0 is_rating label.1.0 in
      let agree : rated.0 ≡ first.0 = accepted_inj rated.0 first.0 (
        sym rated.1.0
        ∙ sym (
            ap (score_of p) (
              or_value-scored rating (field_at "final_recommendation" parsed) rated.0 is_rating
                rated.1.0))
        ∙ first.1.0) in
      subst (Verdict meta) (accepted_inj parsed given last.1.1) record {
        score = rated.0;
        is_object = is_rating;
        merit = rated.1.0;
        on_scale = score_of-bounds p rating rated.0 rated.1.0;
        by_venue = rated.1.1;
        summarised = required _ no_summary summary.0 summary.1.0;
        listed = required _ not_an_array lists.0 lists.1.0;
        questions = required _ question_not_text texts.0 texts.1.0;
        concluded = λ is_meta.
            let closing =
              check_meta-concluded first.0 parsed last.0
                (sym (if-true meta _ _ is_meta) ∙ last.1.0) in
            (closing.0 ∙ ap accepted (sym agree), closing.1);
      }

  -- An accepted review has an object overall_merit, whose score is on the venue's scale and whose label
  -- is the venue's where it has one, a summary that is not blank, the four lists, and only texts among
  -- the questions. In the phase meta_review its final recommendation has the same score, and its
  -- comments for the authors are not blank.
  pub validate_output-Verdict :
      (content phase_name : String) (prior : List AgentOutput) (given : Fields)
      → validate_output host p content phase_name false prior ≡ accepted given
      → Verdict (phase_name == "meta_review") given
  validate_output-Verdict content phase_name prior given h =
      let r = validate_output-parsed host p content phase_name false prior given h in
      validate_review-Verdict (phase_name == "meta_review") r.0 given r.1.1
