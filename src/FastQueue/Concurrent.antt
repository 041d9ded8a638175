-- ===== src/FastQueue/Concurrent.antt =====
-- One producer in Push and one consumer in Get at the same time: the accesses to the shared memory
-- are the steps, and they come in any order that the two threads allow. Each index is stored with
-- release and read by the other thread with acquire, so that a thread that sees a new index sees the
-- slots as they were when it was stored.
pub mod Fifo
use huicpp.Base.{ℕ, List, [], ◌∷◌, ◌++◌, Option, none, some, ◌==◌, if◌then◌else◌, not, set}
use huicpp.FastQueue.{FastQueue, next_pos, object_at}

-- Where the producer is in Push.
pub data Producer (A : Type 0) : Type 0 where
  idle : Producer A
  checked : A → ℕ → Producer A
  constructed : A → ℕ → Producer A

-- Where the consumer is in Get.
pub data Consumer (A : Type 0) : Type 0 where
  idle : Consumer A
  found : ℕ → Consumer A
  moved : ℕ → Option A → Consumer A
  destroyed : ℕ → Option A → Consumer A

-- `pushed` and `got` record the calls that gave true, with the values.
pub record State (A : Type 0) : Type 0 where
  pub queue : FastQueue A
  pub producer : Producer A
  pub consumer : Consumer A
  pub pushed : List A
  pub got : List (Option A)

-- Who goes on. `push v` begins a call if the producer is in none; `get` likewise.
pub data Event (A : Type 0) : Type 0 where
  push : A → Event A
  produce : Event A
  get : Event A
  consume : Event A

module _ {A : Type 0} where
  -- The loads and the test of Push.
  unfoldable pub push_begin : A → Producer A → State A → State A
  push_begin v Producer.idle s =
      let next = next_pos s.queue.size s.queue.write_index in
      if not (next == s.queue.read_index)
      then record s { producer = Producer.checked v next }
      else s
  push_begin v _ s = s

  -- The construction of the object, and the store of the index.
  unfoldable pub push_go : Producer A → State A → State A
  push_go Producer.idle s = s
  push_go (Producer.checked v next) s = record s {
    queue = record s.queue { slots = set s.queue.slots next (some v) };
    producer = Producer.constructed v next;
  }
  push_go (Producer.constructed v next) s = record s {
    queue = record s.queue { write_index = next };
    producer = Producer.idle;
    pushed = s.pushed ++ (v ∷ []);
  }

  -- The loads and the test of Get.
  unfoldable pub get_begin : Consumer A → State A → State A
  get_begin Consumer.idle s =
      if s.queue.read_index == s.queue.write_index
      then s
      else record s { consumer = Consumer.found (next_pos s.queue.size s.queue.read_index) }
  get_begin _ s = s

  -- The move to `value`, the destruction, and the store of the index.
  unfoldable pub get_go : Consumer A → State A → State A
  get_go Consumer.idle s = s
  get_go (Consumer.found next) s = record s {
    consumer = Consumer.moved next (object_at s.queue next);
  }
  get_go (Consumer.moved next o) s = record s {
    queue = record s.queue { slots = set s.queue.slots s.queue.read_index none };
    consumer = Consumer.destroyed next o;
  }
  get_go (Consumer.destroyed next o) s = record s {
    queue = record s.queue { read_index = next };
    consumer = Consumer.idle;
    got = s.got ++ (o ∷ []);
  }

  unfoldable pub step : State A → Event A → State A
  unfolding push_begin push_go get_begin get_go
  step s (push v) = push_begin v s.producer s
  step s produce = push_go s.producer s
  step s get = get_begin s.consumer s
  step s consume = get_go s.consumer s

  unfoldable pub run : State A → List (Event A) → State A
  unfolding step
  run s [] = s
  run s (e ∷ es) = run (step s e) es

  -- A queue at rest.
  unfoldable pub start : FastQueue A → State A
  start q = record {
    queue = q;
    producer = Producer.idle;
    consumer = Consumer.idle;
    pushed = [];
    got = [];
  }
