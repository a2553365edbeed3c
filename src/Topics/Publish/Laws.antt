-- ===== src/Topics/Publish/Laws.antt =====
-- What a publish sends, and on which connection.
use native.Mathlib.Nat.{mod-lt}
use client_sdk_go.Base.{
  ℕ, ◌+◌, ◌%◌, ◌^◌, ◌<◌, ◌==◌, ◌≡◌, refl, subst, sym, ap, ◌∙◌, Bool, true, false, some,
  if◌then◌else◌, arith,
}
use client_sdk_go.Text.{GoString}
use client_sdk_go.Errors.{division_by_zero, Result, ok, err, panic}
use client_sdk_go.Errors.Convert.{FromError}
use client_sdk_go.Metadata.{Headers}
use client_sdk_go.Requester.{Value, nil_value, string, bytes}
use client_sdk_go.DataClient.{Reply}
use client_sdk_go.Topics.Subscription.{TopicValue, text, binary}
use client_sdk_go.Topics.Publish.{
  TopicPublishRequest, XPublishRequest, Publisher, get_next_unary_topic_manager, to_topic_value,
  send_value, send_on, topic_publish, check_publish, publish_checked, publish, of_topic_value,
}

value-roundtrip : (v : Value) (t : TopicValue) → to_topic_value v ≡ ok t → of_topic_value t ≡ v
unfolding to_topic_value of_topic_value
value-roundtrip (string s) t h = let same : text s ≡ t = cc in ap of_topic_value (sym same)
value-roundtrip (bytes b) t h = let same : binary b ≡ t = cc in ap of_topic_value (sym same)
value-roundtrip nil_value t h = absurd cc

-- What has been sent for a request on one of the client's connections.
pub record IsPublished (r : TopicPublishRequest) (p : Publisher) (i : ℕ) (q : XPublishRequest)
    : Type 0 where
  pub same_cache : q.cache_name ≡ r.cache_name
  pub same_topic : q.topic ≡ r.topic_name
  pub same_value : of_topic_value q.value ≡ r.value
  pub connected : i < p.num_unary_channels

if-ok :
    {A : Type 0} (b : Bool) (x y : A)
    → (if b then panic division_by_zero else ok x) ≡ ok y
    → (b ≡ false) × (x ≡ y)
if-ok true x y h = absurd cc
if-ok false x y h = (refl, cc)

positive : (n : ℕ) → (n == 0) ≡ false → 0 < n
positive n h = ground arith

next_manager :
    (p : Publisher) (i n : ℕ)
    → get_next_unary_topic_manager p ≡ ok (i, n)
    → i < p.num_unary_channels
unfolding get_next_unary_topic_manager
next_manager p i n h =
    let next = (p.unary_topic_manager_count + 1) % 2 ^ 64 in
    let (some_channel, same) =
      if-ok (p.num_unary_channels == 0) (next % p.num_unary_channels, next) (i, n) h in
    subst (λ k. k < p.num_unary_channels) (ap (λ x. x.0) same)
      (mod-lt next (positive p.num_unary_channels some_channel))

module _ (from_error : FromError) (runtime_version : GoString)
    (server : ℕ → Headers → XPublishRequest → Reply (Unit {0})) where
  value_sent :
      (r : TopicPublishRequest) (headers given : Headers) (p : Publisher) (i j : ℕ)
      (v : Result TopicValue) (q : XPublishRequest)
      → (send_value from_error runtime_version server r given p j v).sent ≡ some (i, headers, q)
      → (t : TopicValue) × (v ≡ ok t)
        × (j ≡ i)
        × (record { cache_name = r.cache_name; topic = r.topic_name; value = t } ≡ q)
  unfolding send_value
  value_sent r headers given p i j (ok t) q h = (t, refl, cc, cc)
  value_sent r headers given p i j (err e) q h = absurd cc
  value_sent r headers given p i j (panic f) q h = absurd cc

  on_sent :
      (r : TopicPublishRequest) (headers given : Headers) (p after : Publisher) (i : ℕ)
      (m : Result (ℕ × ℕ)) (q : XPublishRequest)
      → get_next_unary_topic_manager p ≡ m
      → (send_on from_error runtime_version server r given after m).sent ≡ some (i, headers, q)
      → IsPublished r p i q
  unfolding send_on
  on_sent r headers given p after i (ok (j, next)) q e h =
      let (t, valued, same_index, same) =
        value_sent r headers given _ i j (to_topic_value r.value) q h in
      record {
        same_cache = ap (λ x. x.cache_name) (sym same);
        same_topic = ap (λ x. x.topic) (sym same);
        same_value = ap (λ x. of_topic_value x.value) (sym same) ∙ value-roundtrip r.value t valued;
        connected = subst (λ k. k < p.num_unary_channels) same_index (next_manager p j next e);
      }
  on_sent r headers given p after i (err x) q e h = absurd cc
  on_sent r headers given p after i (panic f) q e h = absurd cc

  checked_sent :
      (c : Result (Unit {0})) (r : TopicPublishRequest) (p : Publisher) (i : ℕ) (headers : Headers)
      (q : XPublishRequest)
      → (publish_checked from_error runtime_version server c r p).sent ≡ some (i, headers, q)
      → IsPublished r p i q
  unfolding publish_checked topic_publish
  checked_sent (ok u) r p i headers q h =
      on_sent r headers _ p _ i (get_next_unary_topic_manager p) q refl h
  checked_sent (err e) r p i headers q h = absurd cc
  checked_sent (panic f) r p i headers q h = absurd cc

  -- What Publish sends names the cache and the topic of the request, holds a value from which a
  -- subscriber reads the value of the request, and goes out on one of the client's connections.
  pub publish-IsPublished :
      (r : TopicPublishRequest) (p : Publisher) (i : ℕ) (headers : Headers) (q : XPublishRequest)
      → (publish from_error runtime_version server r p).sent ≡ some (i, headers, q)
      → IsPublished r p i q
  unfolding publish
  publish-IsPublished r p i headers q h = checked_sent (check_publish r) r p i headers q h
