-- ===== src/Api/Events/Bounds.antt =====
-- The bus of protoneo/api/events.py holds a bounded number of events, whatever is sent over it.
use protoneo.Prelude.{
  ℕ, ◌-◌, ◌≤◌, ◌<◌, String, inl, inr, Bool, true, false, List, [], ◌∷◌, ◌++◌, map, arith, leb, ◌=ℕ◌,
  if◌then◌else◌, leb→le, Bool-cases, length, take, drop, All, length-append, length-take,
  length-drop, All-append, All-drop, ◌==◌,
}
use protoneo.Api.Events.{
  BusEvent, Subscriber, Bus, new, append_bounded, enqueue, deliver, stream_append, stream_pop,
  ends_turn, ends_session, remember, finish, emit, plain, cleared, reset, enqueue_all, tails,
  subscribe, unsubscribed, unsubscribe,
}

-- A client of the bus makes these calls, in any order.
pub data Call : Type 0 where
  emits : BusEvent → Call
  resets : Call
  subscribes unsubscribes : ℕ → Call

unfoldable pub call : Call → Bus → Bus
call (emits e) = emit e
call resets = reset
call (subscribes n) = subscribe n
call (unsubscribes n) = unsubscribe n

unfoldable pub calls : List Call → Bus → Bus
unfolding call
calls [] b = b
calls (c ∷ cs) b = calls cs (call c b)

abbrev pub Fits : ℕ → Subscriber → Type 0
Fits limit s = length s.queue ≤ limit

abbrev pub StreamFits : String × List (List ℕ) → Type 0
StreamFits (agent, chunks) = (length chunks ≤ 512) × All (λ c. length c ≤ 4096) chunks

pub record IsBounded (b : Bus) : Type 0 where
  pub room : 0 < b.subscriber_limit
  pub history : length b.history ≤ b.history_limit
  pub queues : All (Fits b.subscriber_limit) b.subscribers
  pub streams : All StreamFits b.streams

length-append_bounded {ℓ} :
    {A : Type ℓ} (limit : ℕ) (xs : List A) (x : A) → length (append_bounded limit xs x) ≤ limit
unfolding append_bounded
length-append_bounded limit xs x =
    omega (arith, length-drop (length (xs ++ x ∷ []) - limit) (xs ++ x ∷ []))

length-enqueue :
    (limit : ℕ) (q : List BusEvent) (e : BusEvent)
    → 0 < limit
    → length q ≤ limit
    → length (enqueue limit q e) ≤ limit
unfolding enqueue
length-enqueue limit q e pos h = elim (Bool-cases (leb limit (length q))) [
  | inl full ↦ rw full (
      omega
        (arith, length-append (drop 1 q) (e ∷ []), length-drop 1 q, leb→le limit (length q) full))
  | inr free ↦ rw free (ground (arith, length-append q (e ∷ [])))
]

deliver-Fits :
    (limit : ℕ) (e : BusEvent) (ss : List Subscriber)
    → 0 < limit
    → All (Fits limit) ss
    → All (Fits limit) (deliver limit e ss)
unfolding deliver
deliver-Fits limit e [] pos h = tt
deliver-Fits limit e (s ∷ ss) pos h =
    (length-enqueue limit s.queue e pos h.0, deliver-Fits limit e ss pos h.1)

append_bounded-All {ℓ κ} :
    {A : Type ℓ} (P : A → Type κ) (limit : ℕ) (xs : List A) (x : A)
    → All P xs
    → P x
    → All P (append_bounded limit xs x)
unfolding append_bounded
append_bounded-All P limit xs x h hx =
    All-drop P (length (xs ++ x ∷ []) - limit) (xs ++ x ∷ []) (All-append P xs (x ∷ []) h (hx, tt))

stream_append-Fits :
    (agent : String) (chunk : List ℕ) (ss : List (String × List (List ℕ)))
    → All StreamFits ss
    → All StreamFits (stream_append agent chunk ss)
unfolding stream_append
stream_append-Fits agent chunk [] h = (
  (
    length-append_bounded 512 [] (take 4096 chunk),
    append_bounded-All (λ c. length c ≤ 4096) 512 [] (take 4096 chunk) tt
        (omega (arith, length-take 4096 chunk)),
  ),
  tt,
)
stream_append-Fits agent chunk ((a, chunks) ∷ ss) h =
    branch (a == agent) _ _
      (
        (
          length-append_bounded 512 chunks (take 4096 chunk),
          append_bounded-All (λ c. length c ≤ 4096) 512 chunks (take 4096 chunk) h.0.1
              (omega (arith, length-take 4096 chunk)),
        ),
        h.1,
      )
      (h.0, stream_append-Fits agent chunk ss h.1)
  where
    branch :
        (t : Bool) (xs ys : List (String × List (List ℕ)))
        → All StreamFits xs
        → All StreamFits ys
        → All StreamFits (if t then xs else ys)
    branch true xs ys hx hy = hx
    branch false xs ys hx hy = hy

stream_pop-Fits :
    (agent : String) (ss : List (String × List (List ℕ)))
    → All StreamFits ss
    → All StreamFits (stream_pop agent ss)
unfolding stream_pop
stream_pop-Fits agent [] h = tt
stream_pop-Fits agent ((a, chunks) ∷ ss) h = elim (Bool-cases (a == agent)) [
  | inl e ↦ rw e h.1
  | inr e ↦ rw e (h.0, stream_pop-Fits agent ss h.1)
]

remember-IsBounded : (e : BusEvent) (b : Bus) → IsBounded b → IsBounded (remember e b)
unfolding remember
remember-IsBounded e b h = elim (Bool-cases (e.event_type == "token")) [
  | inl t ↦ rw t (record {
    room = h.room;
    history = h.history;
    queues = h.queues;
    streams = stream_append-Fits e.agent_id e.chunk b.streams h.streams;
  })
  | inr t ↦ rw t (record {
    room = h.room;
    history = length-append_bounded b.history_limit b.history e;
    queues = h.queues;
    streams = popped (ends_turn e.event_type);
  })
]
  where
    popped : (t : Bool) → All StreamFits (if t then stream_pop e.agent_id b.streams else b.streams)
    popped true = stream_pop-Fits e.agent_id b.streams h.streams
    popped false = h.streams

finish-IsBounded : (e : BusEvent) (b : Bus) → IsBounded b → IsBounded (finish e b)
unfolding finish
finish-IsBounded e b h = elim (Bool-cases (ends_session e.event_type)) [
  | inl t ↦ rw t (record { room = h.room; history = h.history; queues = h.queues; streams = tt })
  | inr t ↦ rw t h
]

emit-IsBounded : (e : BusEvent) (b : Bus) → IsBounded b → IsBounded (emit e b)
unfolding emit
emit-IsBounded e b h = elim (Bool-cases (e.event_type == "prompt_rendered")) [
  | inl t ↦ rw t h
  | inr t ↦
      let k = finish-IsBounded e (remember e b) (remember-IsBounded e b h) in
      rw t (record {
        room = k.room;
        history = k.history;
        queues = deliver-Fits _ e _ k.room k.queues;
        streams = k.streams;
      })
]

emptied :
    (limit : ℕ) (ss : List Subscriber)
    → All (Fits limit) (map (λ s. record { ident = s.ident; queue = [] }) ss)
emptied limit [] = tt
emptied limit (s ∷ ss) = (omega arith, emptied limit ss)

length-enqueue_all :
    (limit : ℕ) (q es : List BusEvent)
    → 0 < limit
    → length q ≤ limit
    → length (enqueue_all limit q es) ≤ limit
unfolding enqueue_all
length-enqueue_all limit q [] pos h = h
length-enqueue_all limit q (e ∷ es) pos h =
    length-enqueue_all limit (enqueue limit q e) es pos (length-enqueue limit q e pos h)

unsubscribed-Fits :
    (limit n : ℕ) (ss : List Subscriber)
    → All (Fits limit) ss
    → All (Fits limit) (unsubscribed n ss)
unfolding unsubscribed
unsubscribed-Fits limit n [] h = tt
unsubscribed-Fits limit n (s ∷ ss) h = elim (Bool-cases (s.ident =ℕ n)) [
  | inl e ↦ rw e h.1
  | inr e ↦ rw e (h.0, unsubscribed-Fits limit n ss h.1)
]

call-IsBounded : (c : Call) (b : Bus) → IsBounded b → IsBounded (call c b)
unfolding call reset cleared subscribe unsubscribe
call-IsBounded (emits e) b h = emit-IsBounded e b h
call-IsBounded resets b h = emit-IsBounded (plain "session_reset") (cleared b) (record {
  room = h.room;
  history = omega arith;
  queues = emptied b.subscriber_limit b.subscribers;
  streams = tt;
})
call-IsBounded (subscribes n) b h = record {
  room = h.room;
  history = h.history;
  queues = All-append (Fits b.subscriber_limit) b.subscribers _ h.queues (
    length-enqueue_all _ _ (tails b.streams) h.room
        (length-enqueue_all _ [] b.history h.room (omega arith)),
    tt,
  );
  streams = h.streams;
}
call-IsBounded (unsubscribes n) b h = record {
  room = h.room;
  history = h.history;
  queues = unsubscribed-Fits b.subscriber_limit n b.subscribers h.queues;
  streams = h.streams;
}

calls-IsBounded : (cs : List Call) (b : Bus) → IsBounded b → IsBounded (calls cs b)
unfolding calls
calls-IsBounded [] b h = h
calls-IsBounded (c ∷ cs) b h = calls-IsBounded cs (call c b) (call-IsBounded c b h)

-- Whatever calls a new bus serves: its history stays within the history limit, every subscriber's
-- queue within the subscriber limit, and every agent's stream within 512 chunks of 4096 characters.
pub bus-IsBounded :
    (history_limit subscriber_limit : ℕ) (cs : List Call)
    → IsBounded (calls cs (new history_limit subscriber_limit))
unfolding new
bus-IsBounded history_limit subscriber_limit cs =
    calls-IsBounded cs (new history_limit subscriber_limit)
      (record { room = omega arith; history = omega arith; queues = tt; streams = tt })
