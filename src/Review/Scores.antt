-- ===== src/Review/Scores.antt =====
-- How an accepted answer of apps/paper_review/deliberation.py passed its checks.
use protoneo.Prelude.{
  ◌≡◌, refl, sym, ap, ◌∙◌, subst, inl, inr, Bool, true, false, ◌&&◌, Option, none, some, arith,
  Bool-cases, if-true, if-false,
}
use protoneo.Review.{
  Whole, natural, minus, same_whole, at_most, Profile, Complaint, bad_score, Checked, accepted,
  rejected, ◌>>=◌, require, field_at, is_none, whole_in, within, integer_in, score_of,
}
use protoneo.Json.{Json, null, bool, num, str, arr, obj}

-- What went through a step went through the one before it.
pub passed :
    {A B : Type 0} (m : Checked A) (f : A → Checked B) (b : B)
    → (m >>= f) ≡ accepted b
    → (a : A) × ((m ≡ accepted a) × (f a ≡ accepted b))
unfolding ◌>>=◌
passed (accepted a) f b h = (a, (refl, h))
passed (rejected c) f b h = ground (arith, h)

pub required : (b : Bool) (c : Complaint) (x : Bool) → require b c ≡ accepted x → b ≡ true
required true c x h = refl
required false c x h = ground (arith, h)

abbrev accepted_value : {A : Type 0} → A → Checked A → A
accepted_value d (accepted a) = a
accepted_value d (rejected c) = d

pub accepted_inj : {A : Type 0} (a b : A) → accepted a ≡ accepted b → a ≡ b
accepted_inj a b h = ap (accepted_value a) h

pub same_whole-eq : (a b : Whole) → same_whole a b ≡ true → a ≡ b
same_whole-eq (natural a) (natural b) h = ap natural (ground (arith, h))
same_whole-eq (natural a) (minus b) h = ground (arith, h)
same_whole-eq (minus a) (natural b) h = ground (arith, h)
same_whole-eq (minus a) (minus b) h = ap minus (ground (arith, h))

both_true : (b c : Bool) → (b && c) ≡ true → (b ≡ true) × (c ≡ true)
both_true true c h = (refl, h)
both_true false c h = ground (arith, h)

within-bounds :
    (low high : Whole) (value : Option Whole) (n : Whole)
    → within low high value ≡ accepted n
    → (at_most low n ≡ true) × (at_most n high ≡ true)
within-bounds low high none n h = ground (arith, h)
within-bounds low high (some k) n h = elim (Bool-cases (at_most low k && at_most k high)) [
  | inl e ↦
      let same : k ≡ n = accepted_inj k n (sym (if-true _ _ _ e) ∙ h) in
      subst (λ m. (at_most low m ≡ true) × (at_most m high ≡ true)) same (both_true _ _ e)
  | inr e ↦
      let bad : rejected bad_score ≡ accepted n = sym (if-false _ _ _ e) ∙ h in ground (arith, bad)
]

pub integer_in-bounds :
    (low high : Whole) (value : Option Json) (n : Whole)
    → integer_in low high value ≡ accepted n
    → (at_most low n ≡ true) × (at_most n high ≡ true)
integer_in-bounds low high value n h = within-bounds low high (whole_in value) n h

-- A score is on the scale.
pub score_of-bounds :
    (p : Profile) (value : Option Json) (n : Whole)
    → score_of p value ≡ accepted n
    → (at_most p.minimum n ≡ true) × (at_most n p.maximum ≡ true)
unfolding score_of
score_of-bounds p none n h = ground (arith, h)
score_of-bounds p (some null) n h = ground (arith, h)
score_of-bounds p (some (bool b)) n h = ground (arith, h)
score_of-bounds p (some (num k)) n h = integer_in-bounds p.minimum p.maximum (some (num k)) n h
score_of-bounds p (some (str s)) n h = ground (arith, h)
score_of-bounds p (some (arr js)) n h = ground (arith, h)
score_of-bounds p (some (obj fs)) n h =
    integer_in-bounds p.minimum p.maximum (field_at "score" fs) n h

-- What has a score is not None.
pub scored-there :
    (p : Profile) (value : Json) (n : Whole)
    → score_of p (some value) ≡ accepted n
    → is_none (some value) ≡ false
unfolding score_of
scored-there p null n h = ground (arith, h)
scored-there p (bool b) n h = refl
scored-there p (num k) n h = refl
scored-there p (str s) n h = refl
scored-there p (arr js) n h = refl
scored-there p (obj fs) n h = refl

pub value_there :
    (p : Profile) (x : Option Json) (n : Whole)
    → score_of p x ≡ accepted n
    → (value : Json) × (x ≡ some value)
unfolding score_of
value_there p none n h = ground (arith, h)
value_there p (some value) n h = (value, refl)
