-- ===== src/Permissions.antt =====
-- Permission scopes and their messages: momento/permission_scope.go, permissions_scopes.go,
-- disposable_token_scope.go, disposable_token_scopes.go, and the translations of
-- momento/token_client.go and internal_auth_client.go.
pub mod Grpc
pub mod Meaning
pub mod Laws
use client_sdk_go.Base.{ℤ, pos, zero, suc, List, [], ◌∷◌, Option, none, some}
use client_sdk_go.Text.{GoString, Bytes}
use client_sdk_go.Errors.{
  GoError, nil_error, momento_error, invalid_argument_error, fixed, nil_dereference, Result, ok,
  err, panic, ◌>>=◌,
}
use client_sdk_go.Requester.{Value, as_bytes}

-- CacheRole and TopicRole are int64s with three named values each.
abbrev pub CacheRole : Type 0
CacheRole = ℤ

abbrev pub read_write : CacheRole
read_write = pos 0

abbrev pub read_only : CacheRole
read_only = pos 1

abbrev pub write_only : CacheRole
write_only = pos 2

abbrev pub TopicRole : Type 0
TopicRole = ℤ

abbrev pub publish_subscribe : TopicRole
publish_subscribe = pos 0

abbrev pub subscribe_only : TopicRole
subscribe_only = pos 1

abbrev pub publish_only : TopicRole
publish_only = pos 2

-- A CacheSelector. The last one is nil, or a type of another package.
pub data CacheSelector : Type 0 where
  all_caches : CacheSelector
  cache_name : GoString → CacheSelector
  other_caches : CacheSelector

-- A TopicSelector: the three of the package, a type of another package with what its TopicName()
-- returns, and nil.
pub data TopicSelector : Type 0 where
  all_topics : TopicSelector
  topic_name topic_name_prefix other_topics : GoString → TopicSelector
  nil_topics : TopicSelector

-- A CacheItemSelector.
pub data CacheItemSelector : Type 0 where
  all_cache_items : CacheItemSelector
  cache_item_key cache_item_key_prefix : Bytes → CacheItemSelector
  other_items : CacheItemSelector

pub record CachePermission : Type 0 where
  pub role : CacheRole
  pub cache : CacheSelector

pub record TopicPermission : Type 0 where
  pub role : TopicRole
  pub cache : CacheSelector
  pub topic : TopicSelector

pub record DisposableTokenCachePermission : Type 0 where
  pub role : CacheRole
  pub cache : CacheSelector
  pub item : CacheItemSelector

-- A Permission; the last one is nil, or a type of another package.
pub data Permission : Type 0 where
  cache_permission : CachePermission → Permission
  topic_permission : TopicPermission → Permission
  disposable_token_cache_permission : DisposableTokenCachePermission → Permission
  other_permission : Permission

-- A PermissionScope or a DisposableTokenScope.
pub data Scope : Type 0 where
  permissions : List Permission → Scope
  disposable_token_cache_permissions : List DisposableTokenCachePermission → Scope
  internal_super_user_permissions predefined_scope other_scope : Scope

unfoldable pub all_data_read_write : Scope
all_data_read_write = permissions (
    topic_permission (record { role = publish_subscribe; cache = all_caches; topic = all_topics })
    ∷ cache_permission (record { role = read_write; cache = all_caches })
    ∷ [])

-- CacheReadWrite, CacheReadOnly and CacheWriteOnly, by their role.
unfoldable pub cache_scope : CacheRole → CacheSelector → Scope
cache_scope r selector = permissions (cache_permission (record { role = r; cache = selector }) ∷ [])

-- TopicSubscribeOnly, TopicPublishSubscribe and TopicPublishOnly, by their role.
unfoldable pub topic_scope : TopicRole → CacheSelector → TopicSelector → Scope
topic_scope r selector topics =
    permissions (topic_permission (record { role = r; cache = selector; topic = topics }) ∷ [])

-- CacheKeyReadWrite, CacheKeyReadOnly and CacheKeyWriteOnly.
unfoldable pub cache_key_scope : CacheRole → CacheSelector → Value → Result Scope
unfolding as_bytes
cache_key_scope r selector key = do
  b ← as_bytes key
  ok (
      permissions (
        disposable_token_cache_permission
          (record { role = r; cache = selector; item = cache_item_key b })
        ∷ []))

-- CacheKeyPrefixReadWrite, CacheKeyPrefixReadOnly and CacheKeyPrefixWriteOnly.
unfoldable pub cache_key_prefix_scope : CacheRole → CacheSelector → Value → Result Scope
unfolding as_bytes
cache_key_prefix_scope r selector key_prefix = do
  b ← as_bytes key_prefix
  ok (
      permissions (
        disposable_token_cache_permission
          (record { role = r; cache = selector; item = cache_item_key_prefix b })
        ∷ []))

-- TopicNamePrefixPublishSubscribe, TopicNamePrefixPublishOnly and TopicNamePrefixSubscribeOnly.
unfoldable pub topic_name_prefix_scope : TopicRole → CacheSelector → GoString → Scope
unfolding topic_scope
topic_name_prefix_scope r selector prefix = topic_scope r selector (topic_name_prefix prefix)
