-- ===== src/Tests/Pools.antt =====
-- The pool of workers on one item, run to its end.
use client_sdk_go.Base.{
  ℕ, ◌+◌, ◌*◌, ◌≤◌, ◌<◌, ℤ, pos, negsuc, is_negative, ◌≡◌, ◌≢◌, ◌⊎◌, refl, Bool, true, false, List,
  [], ◌∷◌, length, arith, here, some,
}
use client_sdk_go.Text.{GoString}
use client_sdk_go.Errors.{unhashable_key}
use client_sdk_go.Requester.{Value, nil_value, string, bytes}
use client_sdk_go.BatchUtils.{
  Messages, Pool, start, Step, send, take, leave, finish, Run, begin, next, IsDone, rounds,
  max_concurrent, is_nil_key,
}
use client_sdk_go.BatchUtils.Calls.{
  key_messages, item_messages, BatchSetItem, ResultOrError, result, Maps, no_maps, returned,
  blocked, panicked, collect, is_hashable, exists, batch_set_if_not_exists,
}
use client_sdk_go.BatchUtils.Outcome.{workers_for, Run_bound, Run-progress}
use client_sdk_go.BatchUtils.Laws.{
  asks, batch_returns, batch_panics, batch_set_if_not_exists-stored,
}
use client_sdk_go.BatchUtils.Reads.{has_key, in_maps}
use client_sdk_go.BatchUtils.Hangs.{nil_key_hangs, negative_limit_hangs}

-- One item that is answered, and the end of its pool.
abbrev last : (m : Messages) → m.Message → ResultOrError ℕ → Pool m (ResultOrError ℕ)
last m x answer = record {
  to_send = [];
  queue = [];
  waiting = 0;
  busy = [];
  results = (m.key x, answer) ∷ [];
}

run_one :
    (m : Messages) (x : m.Message) (answer : ResultOrError ℕ)
    → is_nil_key (m.key x) ≡ false
    → is_nil_key (m.key m.stop) ≡ true
    → Run m (ResultOrError ℕ) (x ∷ []) 1 1 5 (last m x answer)
unfolding start
run_one m x answer proper stops =
    next
      (next
        (next
          (next (next begin (send x (m.stop ∷ []) refl (omega arith) refl))
            (take x [] 0 refl refl proper refl))
          (finish [] [] x answer refl (omega arith) refl))
        (send m.stop [] refl (omega arith) refl))
      (leave m.stop [] 0 refl refl stops refl)

abbrev key_a : Value
key_a = string (97 ∷ [])

abbrev key_b : Value
key_b = bytes (98 ∷ [])

abbrev item_a : BatchSetItem
item_a = record { key = key_a; value = key_b; ttl = pos 0 }

keys_run :
    (v : Value)
    → is_nil_key v ≡ false
    → Run key_messages
        (ResultOrError ℕ)
        (v ∷ [])
        (workers_for (pos 0) 1)
        1
        5
        (last key_messages v (result 7))
unfolding rounds max_concurrent is_nil_key
keys_run v proper = run_one key_messages v (result 7) proper refl

items_run :
    Run item_messages
      (ResultOrError ℕ)
      (item_a ∷ [])
      (workers_for (pos 0) 1)
      1
      5
      (last item_messages item_a (result 7))
unfolding rounds max_concurrent is_nil_key
items_run = run_one item_messages item_a (result 7) refl refl

Run_bound_example : 5 ≤ 3 * (length (key_a ∷ []) + 1)
unfolding is_nil_key
Run_bound_example = Run_bound (run_one key_messages key_a (result 7) refl refl)

Run-progress_example :
    IsDone key_messages (ResultOrError ℕ) (last key_messages key_a (result 7))
    ⊎ ((t : Pool key_messages (ResultOrError ℕ)) × Step key_messages
          (ResultOrError ℕ)
          1
          1
          (last key_messages key_a (result 7))
          t)
unfolding client_sdk_go.Base.is_negative is_nil_key
Run-progress_example =
    Run-progress key_messages refl (refl, tt) (pos 0) refl (result 7) (omega arith)
      (keys_run key_a refl)

batch_returns_example :
    (maps : Maps ℕ) × (collect (length (key_a ∷ [])) ((key_a, result 7) ∷ []) no_maps
      ≡ returned maps)
    × ((t : GoString) → in_maps (string t) maps ≡ asks key_messages (string t) (key_a ∷ []))
unfolding client_sdk_go.Base.is_negative is_nil_key client_sdk_go.BatchUtils.Laws.is_text
batch_returns_example =
    batch_returns key_messages refl (pos 0) refl (refl, tt) (keys_run key_a refl)
      (record { sent = refl; no_waiting = refl; no_busy = refl })

batch_panics_example :
    collect {Resp = ℕ} (length (key_b ∷ [])) ((key_b, result 7) ∷ []) no_maps
    ≡ panicked unhashable_key
unfolding is_negative is_nil_key is_hashable
batch_panics_example =
    batch_panics key_messages refl (pos 0) refl (refl, tt) refl (keys_run key_b refl)
      (record { sent = refl; no_waiting = refl; no_busy = refl })

batch_set_if_not_exists-stored_example :
    has_key {A = ℕ} (string (97 ∷ [])) ((key_a, 7) ∷ [])
    ≡ asks item_messages (string (97 ∷ [])) (item_a ∷ [])
unfolding client_sdk_go.BatchUtils.Laws.is_text batch_set_if_not_exists collect no_maps
batch_set_if_not_exists-stored_example =
    batch_set_if_not_exists-stored (exists (false ∷ [])) ((key_a, 7) ∷ []) (refl, tt) items_run
      (record { sent = refl; no_waiting = refl; no_busy = refl }) refl (97 ∷ [])

abbrev no_answers : Maps ℕ
no_answers = record { responses = []; errors = [] }

-- An item with a nil key, before anything is sent.
nil_key_hangs_example : collect (length (nil_value ∷ [])) [] no_maps ≢ returned no_answers
unfolding is_nil_key start
nil_key_hangs_example =
    nil_key_hangs key_messages refl {Resp = ℕ} {items = nil_value ∷ []} (here refl) {workers = 1}
      {capacity = 1} no_answers begin

negative_limit_hangs_example : collect {Resp = ℕ} (length (key_a ∷ [])) [] no_maps ≡ blocked
unfolding client_sdk_go.Base.is_negative start
negative_limit_hangs_example =
    negative_limit_hangs {m = key_messages} {Resp = ℕ} {items = key_a ∷ []} (negsuc 0) refl
      (omega arith) {capacity = 1} begin
