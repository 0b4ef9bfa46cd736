-- ===== src/Api/Events/Replay.antt =====
-- What a late subscriber of the bus in protoneo/api/events.py reads.
use protoneo.Prelude.{
  ℕ, zero, suc, ◌+◌, ◌-◌, ◌≤◌, ◌<◌, ◌≡◌, refl, sym, ap, ◌∙◌, inl, inr, some, List, [], ◌∷◌, ◌++◌,
  append-nil, append_assoc, arith, zero-add, leb, leb→le, not_leb→lt, Bool-cases, length, drop,
  get_last?, length-append, length-drop,
}
use protoneo.Api.Events.{BusEvent, Bus, enqueue, enqueue_all, tails, subscribe}

-- The last `n` elements.
abbrev pub last_of {ℓ} : {A : Type ℓ} → ℕ → List A → List A
last_of n xs = drop (length xs - n) xs

drop-append {ℓ} :
    {A : Type ℓ} (n : ℕ) (xs ys : List A) → n ≤ length xs → drop n (xs ++ ys) ≡ drop n xs ++ ys
drop-append zero xs ys h = refl
drop-append (suc n) [] ys h = absurd (omega arith)
drop-append (suc n) (x ∷ xs) ys h = drop-append n xs ys (omega arith)

drop-nil {ℓ} : {A : Type ℓ} (n : ℕ) → drop {A = A} n [] ≡ []
drop-nil zero = refl
drop-nil (suc n) = refl

drop-drop {ℓ} : {A : Type ℓ} (m n : ℕ) (xs : List A) → drop m (drop n xs) ≡ drop (n + m) xs
drop-drop m zero xs = rw zero-add
drop-drop m (suc n) [] = drop-nil m ∙ sym (drop-nil (suc n + m))
drop-drop m (suc n) (x ∷ xs) =
    drop-drop m n xs
    ∙ ap (λ k. drop k (x ∷ xs)) (let e : suc (n + m) ≡ suc n + m = omega arith in e)

-- Each `enqueue` keeps the newest events that fit.
enqueue-last_of :
    (limit : ℕ) (es : List BusEvent) (e : BusEvent)
    → 0 < limit
    → enqueue limit (last_of limit es) e ≡ last_of limit (es ++ e ∷ [])
unfolding enqueue
enqueue-last_of limit es e pos = elim (Bool-cases (leb limit (length (last_of limit es)))) [
  | inl full ↦ rw full (
      ap (λ q. q ++ e ∷ []) (drop-drop 1 k es)
      ∙ sym (drop-append (k + 1) es (e ∷ []) (omega (arith, leb→le _ _ full, length-drop k es)))
      ∙ ap (λ j. drop j (es ++ e ∷ []))
          (omega (arith, leb→le _ _ full, length-drop k es, length-append es (e ∷ []))))
  | inr free ↦ rw free (
      ap (λ j. drop j es ++ e ∷ []) (few (not_leb→lt _ _ free) (length-drop k es))
      ∙ ap (λ j. drop j (es ++ e ∷ []))
          (few_more (not_leb→lt _ _ free) (length-drop k es) (length-append es (e ∷ []))))
]
  where
    k : ℕ
    k = length es - limit

    few : length (last_of limit es) < limit → length (drop k es) ≡ length es - k → k ≡ 0
    few h l = omega arith

    few_more :
        length (last_of limit es) < limit
        → length (drop k es) ≡ length es - k
        → length (es ++ e ∷ []) ≡ length es + 1
        → 0 ≡ length (es ++ e ∷ []) - limit
    few_more h l m = omega arith

enqueue_all-last_of :
    (limit : ℕ) (seen es : List BusEvent)
    → 0 < limit
    → enqueue_all limit (last_of limit seen) es ≡ last_of limit (seen ++ es)
unfolding enqueue_all
enqueue_all-last_of limit seen [] pos = ap (last_of limit) (sym (append-nil seen))
enqueue_all-last_of limit seen (e ∷ es) pos = rw (enqueue-last_of limit seen e pos) (
    enqueue_all-last_of limit (seen ++ e ∷ []) es pos
    ∙ ap (last_of limit) (append_assoc seen (e ∷ []) es))

get_last?-snoc {ℓ} : {A : Type ℓ} (xs : List A) (x : A) → get_last? (xs ++ x ∷ []) ≡ some x
get_last?-snoc [] x = refl
get_last?-snoc (y ∷ []) x = refl
get_last?-snoc (y ∷ z ∷ xs) x = get_last?-snoc (z ∷ xs) x

from_empty :
    (limit : ℕ) (es : List BusEvent) → 0 < limit → enqueue_all limit [] es ≡ last_of limit es
from_empty limit es pos =
    ap (λ q. enqueue_all limit q es) (sym (drop-nil (0 - limit)))
    ∙ enqueue_all-last_of limit [] es pos

-- A new subscriber stands last, and its queue holds the newest events that fit of the history
-- followed by the tails of the unfinished streams, in that order.
pub subscribe_replays :
    (ident : ℕ) (b : Bus)
    → 0 < b.subscriber_limit
    → get_last? (subscribe ident b).subscribers
      ≡ some (record {
        ident = ident;
        queue = last_of b.subscriber_limit (b.history ++ tails b.streams);
      })
unfolding subscribe
subscribe_replays ident b pos =
    get_last?-snoc b.subscribers _
    ∙ ap (λ q. some (record { ident = ident; queue = q }))
        (ap (λ q. enqueue_all b.subscriber_limit q (tails b.streams))
            (from_empty b.subscriber_limit b.history pos)
          ∙ enqueue_all-last_of b.subscriber_limit b.history (tails b.streams) pos)
