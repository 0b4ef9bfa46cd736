-- ===== src/Review/Stances.antt =====
-- The scores that a reviewer holds through a discussion, by apps/paper_review/deliberation.py.
use protoneo.Prelude.{String, ◌≡◌, sym, Bool, true, not, Option, List, arith}
use protoneo.Review.{
  Host, Whole, same_whole, Profile, no_delta, wrong_change, accepted, field_at, is_dict, fields_of,
  score_of, is_flag, check_last_score, newest_first, validate_discussion,
}
use protoneo.Json.{Json, Fields}
use protoneo.Review.Scores.{passed, required, accepted_inj}
use protoneo.Agents.{AgentOutput}

abbrev pub stance_score : String → Fields → Option Json
stance_score key parsed = field_at key (fields_of (field_at "stance_change" parsed))

module _ (p : Profile) (prior : List AgentOutput) (parsed given : Fields) where
  -- What an accepted answer in the discussion says.
  pub record Stance : Type 0 where
    pub previous : Whole
    pub current : Whole
    pub was : score_of p (stance_score "previous_score" parsed) ≡ accepted previous
    pub is_now : score_of p (stance_score "current_score" parsed) ≡ accepted current
    pub flagged :
        is_flag
          (not (same_whole previous current))
          (field_at "changed" (fields_of (field_at "stance_change" parsed)))
        ≡ true
    pub held : (b : Bool) × (check_last_score p previous (newest_first prior) ≡ accepted b)
    pub delta : is_dict (field_at "stance_change" parsed) ≡ true
    pub same : given ≡ parsed

module _ (host : Host) (p : Profile) (prior : List AgentOutput) (parsed given : Fields)
    (h : validate_discussion host p prior parsed ≡ accepted given) where
  pub stance : Stance p prior parsed given
  unfolding validate_discussion
  stance =
      let a = passed _ _ given h in
      let b = passed _ _ given a.1.1 in
      let c = passed _ _ given b.1.1 in
      let d = passed _ _ given c.1.1 in
      let e = passed _ _ given d.1.1 in
      let f = passed _ _ given e.1.1 in
      let all_dicts = required _ no_delta a.0 a.1.0 in
      record {
        previous = b.0;
        current = c.0;
        was = b.1.0;
        is_now = c.1.0;
        flagged = required _ wrong_change d.0 d.1.0;
        held = (e.0, e.1.0);
        delta = ground (arith, all_dicts);
        same = sym (accepted_inj parsed given f.1.1);
      }
