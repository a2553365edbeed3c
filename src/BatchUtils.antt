-- ===== src/BatchUtils.antt =====
-- batchutils: BatchGet, BatchSet and BatchDelete, which share one scheme. The caller starts workers,
-- sends the items and then a stop for each worker through a channel, waits for the workers, and
-- reads one result for each item. The goroutines run interleaved: a step is one operation on a
-- channel, and the answer of a call to the client is chosen by the environment.
pub mod Invariant
pub mod Line
pub mod Hangs
pub mod Laws
pub mod Reads
pub mod Calls
pub mod Outcome
use client_sdk_go.Base.{
  ℕ, zero, suc, ◌+◌, ◌<◌, ℤ, pos, negsuc, ltz, is_zero, ◌≡◌, Bool, true, false, List, [], ◌∷◌, ◌++◌,
  length, replicate, if◌then◌else◌,
}
use client_sdk_go.Requester.{Value, nil_value, Key}

-- What is sent through the channel of the items: for a get or a delete a key, for a set an item, of
-- which only the key is looked at. `stop` is nil, or the item with no field set.
pub record Messages : Type 1 where
  pub Message : Type 0
  pub key : Message → Key
  pub stop : Message

-- The test of a worker on the key that it has received.
unfoldable pub is_nil_key : Key → Bool
is_nil_key nil_value = true
is_nil_key _ = false

-- MaxConcurrentGets, as BatchGet sets it; an int.
unfoldable pub max_concurrent : ℤ → ℕ → ℤ
unfolding is_zero ltz
max_concurrent requested items =
    let chosen = if is_zero requested then pos 5 else requested in
    if ltz (pos items) chosen then pos items else chosen

-- How often `for i := 0; i < n; i++` runs its body.
unfoldable pub rounds : ℤ → ℕ
rounds (pos n) = n
rounds (negsuc n) = 0

module _ (m : Messages) (Resp : Type 0) where
  open m use {Message, key, stop}

  -- `to_send` is what the caller has still to send, `queue` what is in the channel, `waiting` counts
  -- the workers that receive next, `busy` holds the items of those that call the client. The
  -- results are in the second channel.
  pub record Pool : Type 0 where
    pub to_send : List Message
    pub queue : List Message
    pub waiting : ℕ
    pub busy : List Message
    pub results : List (Key × Resp)

  -- The caller starts `workers` workers, and has all items and then the stops to send.
  unfoldable pub start : List Message → ℕ → Pool
  start items workers = record {
    to_send = items ++ replicate workers stop;
    queue = [];
    waiting = workers;
    busy = [];
    results = [];
  }

  -- One operation, with the capacities of the two channels. A send waits while its channel is full,
  -- and a receive while it is empty.
  pub data Step (capacity result_capacity : ℕ) (s t : Pool) : Type 0 where
    -- the caller sends
    send :
        (x : Message) (rest : List Message)
        → s.to_send ≡ x ∷ rest
        → length s.queue < capacity
        → t ≡ record s { to_send = rest; queue = s.queue ++ (x ∷ []) }
        → Step capacity result_capacity s t
    -- a worker receives an item and calls the client
    take :
        (x : Message) (rest : List Message) (others : ℕ)
        → s.queue ≡ x ∷ rest
        → s.waiting ≡ suc others
        → is_nil_key (key x) ≡ false
        → t ≡ record s { queue = rest; waiting = others; busy = x ∷ s.busy }
        → Step capacity result_capacity s t
    -- a worker receives nil and returns
    leave :
        (x : Message) (rest : List Message) (others : ℕ)
        → s.queue ≡ x ∷ rest
        → s.waiting ≡ suc others
        → is_nil_key (key x) ≡ true
        → t ≡ record s { queue = rest; waiting = others }
        → Step capacity result_capacity s t
    -- the client answers, and the worker sends the result and goes on
    finish :
        (before after : List Message) (x : Message) (answer : Resp)
        → s.busy ≡ before ++ (x ∷ after)
        → length s.results < result_capacity
        → t ≡ record s {
          busy = before ++ after;
          waiting = s.waiting + 1;
          results = s.results ++ ((key x, answer) ∷ []);
        }
        → Step capacity result_capacity s t

  -- The states after `k` operations.
  pub data Run (items : List Message) (workers capacity : ℕ) : ℕ → Pool → Type 0 where
    begin : Run items workers capacity 0 (start items workers)
    next :
        {k : ℕ} {s t : Pool}
        → Run items workers capacity k s
        → Step capacity (length items) s t
        → Run items workers capacity (suc k) t

  -- The caller has sent everything and all workers have returned: it goes on to read the results.
  pub record IsDone (s : Pool) : Type 0 where
    pub sent : s.to_send ≡ []
    pub no_waiting : s.waiting ≡ 0
    pub no_busy : s.busy ≡ []
