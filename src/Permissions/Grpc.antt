-- ===== src/Permissions/Grpc.antt =====
-- The messages of internal/protos/permissionmessages.proto and the translations into them, of
-- momento/token_client.go and internal_auth_client.go.
use client_sdk_go.Base.{pos, zero, suc, List, [], ◌∷◌, Option, none, some}
use client_sdk_go.Text.{GoString, Bytes}
use client_sdk_go.Errors.{
  nil_error, momento_error, invalid_argument_error, fixed, nil_dereference, Result, ok, err, panic,
  ◌>>=◌,
}
use client_sdk_go.Permissions.{
  CacheRole, TopicRole, CacheSelector, all_caches, cache_name, other_caches, TopicSelector,
  all_topics, topic_name, topic_name_prefix, other_topics, nil_topics, CacheItemSelector,
  all_cache_items, cache_item_key, cache_item_key_prefix, other_items, CachePermission,
  TopicPermission, DisposableTokenCachePermission, Permission, cache_permission, topic_permission,
  disposable_token_cache_permission, other_permission, Scope, permissions,
  internal_super_user_permissions,
}

pub data XCacheRole : Type 0 where
  cache_permit_none cache_read_write cache_read_only cache_write_only : XCacheRole

pub data XTopicRole : Type 0 where
  topic_permit_none topic_read_write topic_read_only topic_write_only : XTopicRole

-- The oneof `cache` of the two kinds of permissions.
pub data XCaches : Type 0 where
  every_cache : XCaches
  cache_selector : GoString → XCaches

-- The oneof `cache_item`; `any_item` is an unset one.
pub data XItems : Type 0 where
  any_item all_items : XItems
  item_key item_key_prefix : Bytes → XItems

-- The oneof `topic`.
pub data XTopics : Type 0 where
  every_topic : XTopics
  selected_name selected_prefix : GoString → XTopics

pub record XCachePermissions : Type 0 where
  pub role : XCacheRole
  pub cache : XCaches
  pub cache_item : XItems

pub record XTopicPermissions : Type 0 where
  pub role : XTopicRole
  pub cache : XCaches
  pub topic : XTopics

-- PermissionsType. The pointer to the inner message can be nil.
pub data XPermissionsType : Type 0 where
  cache_permissions : Option XCachePermissions → XPermissionsType
  topic_permissions : Option XTopicPermissions → XPermissionsType

pub data XPermissions : Type 0 where
  super_user : XPermissions
  explicit : List XPermissionsType → XPermissions

-- cacheRoleToGrpcCacheRole.
unfoldable pub cache_role_to_grpc_cache_role : CacheRole → XCacheRole
cache_role_to_grpc_cache_role (pos zero) = cache_read_write
cache_role_to_grpc_cache_role (pos (suc zero)) = cache_read_only
cache_role_to_grpc_cache_role (pos (suc (suc zero))) = cache_write_only
cache_role_to_grpc_cache_role _ = cache_permit_none

-- topicRoleToGrpcTopicRole.
unfoldable pub topic_role_to_grpc_topic_role : TopicRole → XTopicRole
topic_role_to_grpc_topic_role (pos (suc (suc zero))) = topic_write_only
topic_role_to_grpc_topic_role (pos (suc zero)) = topic_read_only
topic_role_to_grpc_topic_role (pos zero) = topic_read_write
topic_role_to_grpc_topic_role _ = topic_permit_none

-- The switches on the type of the cache selector; `none` where no case is taken.
unfoldable pub to_caches : CacheSelector → Option XCaches
to_caches all_caches = some every_cache
to_caches (cache_name n) = some (cache_selector n)
to_caches other_caches = none

-- The switches on the type of the topic selector. The default calls TopicName().
unfoldable pub to_topics : TopicSelector → Result XTopics
to_topics all_topics = ok every_topic
to_topics (topic_name_prefix p) = ok (selected_prefix p)
to_topics (topic_name n) = ok (selected_name n)
to_topics (other_topics n) = ok (selected_name n)
to_topics nil_topics = panic nil_dereference

-- The switches on the type of the item selector.
unfoldable pub to_items : CacheItemSelector → Option XItems
to_items all_cache_items = some all_items
to_items (cache_item_key k) = some (item_key k)
to_items (cache_item_key_prefix p) = some (item_key_prefix p)
to_items other_items = none

-- cachePermissionsToGrpcCachePermissions.
unfoldable pub to_cache_permissions : CachePermission → Option XCachePermissions
unfolding cache_role_to_grpc_cache_role to_caches
to_cache_permissions cp = elim (to_caches cp.cache) [
  | some c ↦
      some
        (record { role = cache_role_to_grpc_cache_role cp.role; cache = c; cache_item = any_item })
  | none ↦ none
]

-- topicPermissionsToGrpcTopicPermissions. The topic is looked at under a case of the cache.
unfoldable pub to_topic_permissions : TopicPermission → Result (Option XTopicPermissions)
unfolding topic_role_to_grpc_topic_role to_caches to_topics
to_topic_permissions tp = elim (to_caches tp.cache) [
  | some c ↦ do
    t ← to_topics tp.topic
    ok (some (record { role = topic_role_to_grpc_topic_role tp.role; cache = c; topic = t }))
  | none ↦ ok none
]

-- disposableTokenPermissionsToGrpcDisposablePermissions.
unfoldable pub to_disposable_permissions : DisposableTokenCachePermission → Option XCachePermissions
unfolding cache_role_to_grpc_cache_role to_caches to_items
to_disposable_permissions cp = elim (to_caches cp.cache) [
  | some c ↦ elim (to_items cp.item) [
    | some i ↦
        some (record { role = cache_role_to_grpc_cache_role cp.role; cache = c; cache_item = i })
    | none ↦ none
  ]
  | none ↦ none
]

-- The loop of GenerateDisposableToken over the permissions.
unfoldable pub disposable_permissions : List Permission → Result (List XPermissionsType)
unfolding to_cache_permissions to_topic_permissions to_disposable_permissions
disposable_permissions [] = ok []
disposable_permissions (cache_permission cp ∷ ps) = do
  rest ← disposable_permissions ps
  ok (cache_permissions (to_cache_permissions cp) ∷ rest)
disposable_permissions (topic_permission tp ∷ ps) = do
  t ← to_topic_permissions tp
  rest ← disposable_permissions ps
  ok (topic_permissions t ∷ rest)
disposable_permissions (disposable_token_cache_permission cp ∷ ps) = do
  rest ← disposable_permissions ps
  ok (cache_permissions (to_disposable_permissions cp) ∷ rest)
disposable_permissions (other_permission ∷ ps) = disposable_permissions ps

-- The permissions that GenerateDisposableToken sends: the switch on the scope has one case.
unfoldable pub disposable_scope_permissions : Scope → Result (List XPermissionsType)
unfolding disposable_permissions
disposable_scope_permissions (permissions ps) = disposable_permissions ps
disposable_scope_permissions _ = ok []

-- The loop of permissionsFromTokenScope.
unfoldable pub api_key_permissions : List Permission → Result (List XPermissionsType)
unfolding to_cache_permissions to_topic_permissions
api_key_permissions [] = ok []
api_key_permissions (cache_permission cp ∷ ps) = do
  rest ← api_key_permissions ps
  ok (cache_permissions (to_cache_permissions cp) ∷ rest)
api_key_permissions (topic_permission tp ∷ ps) = do
  t ← to_topic_permissions tp
  rest ← api_key_permissions ps
  ok (topic_permissions t ∷ rest)
api_key_permissions (_ ∷ ps) = api_key_permissions ps

-- permissionsFromTokenScope.
unfoldable pub permissions_from_token_scope : Scope → Result XPermissions
unfolding api_key_permissions
permissions_from_token_scope internal_super_user_permissions = ok super_user
permissions_from_token_scope (permissions []) =
    err (momento_error invalid_argument_error (fixed "Permissions list cannot be empty") nil_error)
permissions_from_token_scope (permissions (p ∷ ps)) = do
  xs ← api_key_permissions (p ∷ ps)
  ok (explicit xs)
permissions_from_token_scope _ =
    err (momento_error invalid_argument_error (fixed "Unrecognized PermissionScope") nil_error)
