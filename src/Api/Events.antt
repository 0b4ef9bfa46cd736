-- ===== src/Api/Events.antt =====
-- SessionEventBus of protoneo/api/events.py: bounded replay and live delivery to subscribers.
pub mod Bounds
pub mod Replay
use protoneo.Prelude.{
  ℕ, ◌-◌, max, String, Bool, true, false, ◌||◌, List, [], ◌∷◌, ◌++◌, map, foldl, leb, ◌=ℕ◌,
  if◌then◌else◌, length, take, drop, ◌==◌,
}

-- Of an event's data the keys that the bus reads; `chunk` is a text by its characters.
pub record BusEvent : Type 0 where
  pub event_type : String
  pub agent_id : String
  pub chunk : List ℕ

-- A subscriber's queue, with the identity by which `unsubscribe` finds it.
pub record Subscriber : Type 0 where
  pub ident : ℕ
  pub queue : List BusEvent

pub record Bus : Type 0 where
  pub history_limit : ℕ
  pub subscriber_limit : ℕ
  pub history : List BusEvent
  pub subscribers : List Subscriber
  pub streams : List (String × List (List ℕ))
  pub finished : Bool

unfoldable pub new : (history_limit subscriber_limit : ℕ) → Bus
new history_limit subscriber_limit = record {
  history_limit = history_limit;
  subscriber_limit = max 1 subscriber_limit;
  history = [];
  subscribers = [];
  streams = [];
  finished = false;
}

-- `deque(maxlen=limit).append(x)`
unfoldable pub append_bounded {ℓ} : {A : Type ℓ} → ℕ → List A → A → List A
append_bounded limit xs x = let ys = xs ++ x ∷ [] in drop (length ys - limit) ys

-- `if queue.full(): queue.get_nowait()`, then `queue.put_nowait(event)`
unfoldable pub enqueue : ℕ → List BusEvent → BusEvent → List BusEvent
enqueue limit queue event = (if leb limit (length queue) then drop 1 queue else queue) ++ event ∷ []

unfoldable pub deliver : ℕ → BusEvent → List Subscriber → List Subscriber
unfolding enqueue
deliver limit event subscribers =
    map (λ s. record { ident = s.ident; queue = enqueue limit s.queue event }) subscribers

-- `self._streams.setdefault(agent_id, deque(maxlen=512)).append(chunk[:4096])`
unfoldable pub stream_append :
    String → List ℕ → List (String × List (List ℕ)) → List (String × List (List ℕ))
unfolding append_bounded
stream_append agent chunk [] = (agent, append_bounded 512 [] (take 4096 chunk)) ∷ []
stream_append agent chunk ((a, chunks) ∷ rest) =
    if a == agent
    then (a, append_bounded 512 chunks (take 4096 chunk)) ∷ rest
    else (a, chunks) ∷ stream_append agent chunk rest

-- `self._streams.pop(agent_id, None)`
unfoldable pub stream_pop {ℓ} : {V : Type ℓ} → String → List (String × V) → List (String × V)
stream_pop agent [] = []
stream_pop agent ((a, v) ∷ rest) = if a == agent then rest else (a, v) ∷ stream_pop agent rest

abbrev pub ends_turn : String → Bool
ends_turn t = t == "agent_start" || t == "agent_done" || t == "agent_error"

abbrev pub ends_session : String → Bool
ends_session t =
    t == "completed" || t == "error" || t == "pipeline_cancelled" || t == "batch_complete"

-- What `emit` keeps of an event: a token in the stream of its agent, any other in the history.
unfoldable pub remember : BusEvent → Bus → Bus
unfolding stream_append stream_pop append_bounded
remember e b =
    if e.event_type == "token"
    then record b { streams = stream_append e.agent_id e.chunk b.streams }
    else record b {
      streams = if ends_turn e.event_type then stream_pop e.agent_id b.streams else b.streams;
      history = append_bounded b.history_limit b.history e;
    }

unfoldable pub finish : BusEvent → Bus → Bus
finish e b = if ends_session e.event_type then record b { finished = true; streams = [] } else b

unfoldable pub emit : BusEvent → Bus → Bus
unfolding remember finish deliver
emit e b =
    if e.event_type == "prompt_rendered"
    then b
    else let b' = finish e (remember e b) in
      record b' { subscribers = deliver b'.subscriber_limit e b'.subscribers }

abbrev pub plain : String → BusEvent
plain t = record { event_type = t; agent_id = ""; chunk = [] }

unfoldable pub cleared : Bus → Bus
cleared b = record b {
  history = [];
  streams = [];
  finished = false;
  subscribers = map (λ s. record { ident = s.ident; queue = [] }) b.subscribers;
}

-- Everything kept and queued goes, and `session_reset` is the first event of the new history.
unfoldable pub reset : Bus → Bus
unfolding emit cleared
reset b = emit (plain "session_reset") (cleared b)

unfoldable pub enqueue_all : ℕ → List BusEvent → List BusEvent → List BusEvent
enqueue_all limit queue [] = queue
enqueue_all limit queue (e ∷ es) = enqueue_all limit (enqueue limit queue e) es

-- The tails of the streams, each as one token event.
unfoldable pub tails : List (String × List (List ℕ)) → List BusEvent
tails [] = []
tails ((agent, chunks) ∷ rest) =
    record { event_type = "token"; agent_id = agent; chunk = foldl (λ a c. a ++ c) [] chunks }
    ∷ tails rest

unfoldable pub subscribe : ℕ → Bus → Bus
unfolding enqueue_all tails
subscribe ident b =
    let replayed = enqueue_all b.subscriber_limit [] b.history in
    let queue = enqueue_all b.subscriber_limit replayed (tails b.streams) in
    record b { subscribers = b.subscribers ++ record { ident = ident; queue = queue } ∷ [] }

unfoldable pub unsubscribed : ℕ → List Subscriber → List Subscriber
unsubscribed ident [] = []
unsubscribed ident (s ∷ rest) = if s.ident =ℕ ident then rest else s ∷ unsubscribed ident rest

unfoldable pub unsubscribe : ℕ → Bus → Bus
unfolding unsubscribed
unsubscribe ident b = record b { subscribers = unsubscribed ident b.subscribers }
