-- ===== src/Review/Answers.antt =====
-- The answers that validate_output of apps/paper_review/deliberation.py takes up for their checks.
use protoneo.Prelude.{
  String, ◌≡◌, inl, inr, Bool, some, List, arith, if◌then◌else◌, Bool-cases, Option-cases, ◌==◌,
}
use protoneo.Json.{Fields}
use protoneo.Agents.{AgentOutput}
use protoneo.Review.{
  Host, Profile, Checked, accepted, validate_discussion, validate_review, validate_output,
}

module _ (host : Host) (p : Profile) where
  -- The checks of a turn in the discussion, and of a review.
  abbrev pub checks : (phase_name : String) → Bool → List AgentOutput → Fields → Checked Fields
  checks phase_name discussion prior parsed =
      if discussion
      then validate_discussion host p prior parsed
      else validate_review host p (phase_name == "meta_review") parsed

  pub validate_output-parsed :
      (content phase_name : String) (discussion : Bool) (prior : List AgentOutput) (given : Fields)
      → validate_output host p content phase_name discussion prior ≡ accepted given
      → (parsed : Fields) × ((host.parse content ≡ some parsed)
          × (checks phase_name discussion prior parsed ≡ accepted given))
  unfolding validate_output
  validate_output-parsed content phase_name discussion prior given h =
      elim (Bool-cases (host.is_blank content)) [
        | inl e ↦ let bad = rw e at h in ground (arith, bad)
        | inr e ↦
            let k = rw e at h in
            elim (Option-cases (host.parse content)) [
              | inl none_there ↦ let bad = rw none_there at k in ground (arith, bad)
              | inr (parsed, there) ↦ let now = rw there at k in (parsed, (there, now))
            ]
      ]
