-- ===== src/Permissions/Meaning.antt =====
-- What permissions grant: an access is to an item of a cache or to a topic of a cache. The meaning
-- of a scope of the client and that of the messages of permissionmessages.proto are given apart.
use client_sdk_go.Base.{pos, zero, suc, Bool, true, false, not, ◌&&◌, some, same_text}
use client_sdk_go.Text.{GoString, Bytes, has_prefix}
use client_sdk_go.Permissions.{
  CacheRole, CacheSelector, all_caches, cache_name, other_caches, TopicSelector, all_topics,
  topic_name, topic_name_prefix, other_topics, nil_topics, CacheItemSelector, all_cache_items,
  cache_item_key, cache_item_key_prefix, other_items, Permission, cache_permission,
  topic_permission, disposable_token_cache_permission,
}
use client_sdk_go.Permissions.Grpc.{
  XCacheRole, cache_permit_none, cache_read_write, cache_read_only, cache_write_only, XTopicRole,
  topic_permit_none, topic_read_write, topic_read_only, topic_write_only, XCaches, every_cache,
  cache_selector, XItems, any_item, all_items, item_key, item_key_prefix, XTopics, every_topic,
  selected_name, selected_prefix, XPermissionsType, cache_permissions, topic_permissions,
}

-- An access to a key, which reads or writes it, or to a topic, which subscribes or publishes to it.
pub data Access : Type 0 where
  item_access : (cache : GoString) (key : Bytes) (writes : Bool) → Access
  topic_access : (cache : GoString) (topic : GoString) (publishes : Bool) → Access

-- The roles. Any other number allows nothing.
unfoldable pub role_allows : CacheRole → Bool → Bool
role_allows (pos zero) writes = true
role_allows (pos (suc zero)) writes = not writes
role_allows (pos (suc (suc zero))) writes = writes
role_allows _ writes = false

unfoldable pub covers_cache : CacheSelector → GoString → Bool
covers_cache all_caches c = true
covers_cache (cache_name n) c = same_text n c
covers_cache other_caches c = false

unfoldable pub covers_topic : TopicSelector → GoString → Bool
covers_topic all_topics t = true
covers_topic (topic_name n) t = same_text n t
covers_topic (topic_name_prefix p) t = has_prefix t p
covers_topic (other_topics n) t = same_text n t
covers_topic nil_topics t = false

unfoldable pub covers_item : CacheItemSelector → Bytes → Bool
covers_item all_cache_items k = true
covers_item (cache_item_key j) k = same_text j k
covers_item (cache_item_key_prefix p) k = has_prefix k p
covers_item other_items k = false

-- Whether a permission of the client grants an access.
unfoldable pub permits : Access → Permission → Bool
unfolding role_allows covers_cache covers_topic covers_item
permits (item_access c k w) (cache_permission p) = covers_cache p.cache c && role_allows p.role w
permits (item_access c k w) (disposable_token_cache_permission p) =
    covers_cache p.cache c && (covers_item p.item k && role_allows p.role w)
permits (topic_access c t w) (topic_permission p) =
    covers_cache p.cache c && (covers_topic p.topic t && role_allows p.role w)
permits _ _ = false

-- The roles of the messages, as the proto file describes them.
unfoldable pub cache_role_allows : XCacheRole → Bool → Bool
cache_role_allows cache_read_write writes = true
cache_role_allows cache_read_only writes = not writes
cache_role_allows cache_write_only writes = writes
cache_role_allows cache_permit_none writes = false

unfoldable pub topic_role_allows : XTopicRole → Bool → Bool
topic_role_allows topic_read_write publishes = true
topic_role_allows topic_read_only publishes = not publishes
topic_role_allows topic_write_only publishes = publishes
topic_role_allows topic_permit_none publishes = false

unfoldable pub selects_cache : XCaches → GoString → Bool
selects_cache every_cache c = true
selects_cache (cache_selector n) c = same_text n c

unfoldable pub selects_topic : XTopics → GoString → Bool
selects_topic every_topic t = true
selects_topic (selected_name n) t = same_text n t
selects_topic (selected_prefix p) t = has_prefix t p

-- A cache permission without a selection of items is for all of them.
unfoldable pub selects_item : XItems → Bytes → Bool
selects_item any_item k = true
selects_item all_items k = true
selects_item (item_key j) k = same_text j k
selects_item (item_key_prefix p) k = has_prefix k p

-- Whether a message grants an access. One without content grants nothing.
unfoldable pub granted : Access → XPermissionsType → Bool
unfolding cache_role_allows topic_role_allows selects_cache selects_topic selects_item
granted (item_access c k w) (cache_permissions (some p)) =
    selects_cache p.cache c && (selects_item p.cache_item k && cache_role_allows p.role w)
granted (topic_access c t w) (topic_permissions (some p)) =
    selects_cache p.cache c && (selects_topic p.topic t && topic_role_allows p.role w)
granted _ _ = false
