-- ===== src/Permissions/Laws.antt =====
-- The messages that a scope is translated into grant what the scope means.
use native.Mathlib.Omega.{arith}
use client_sdk_go.Base.{
  some_of, pos, negsuc, zero, suc, ◌≡◌, refl, sym, ap, ◌∙◌, Bool, true, false, not, ◌&&◌, ◌||◌,
  List, [], ◌∷◌, Option, same_text,
}
use client_sdk_go.Text.{has_prefix}
use client_sdk_go.Errors.{Result, ok, err, panic, >>=-ok}
use client_sdk_go.Permissions.{
  CacheRole, TopicRole, CacheSelector, all_caches, cache_name, other_caches, TopicSelector,
  all_topics, topic_name, topic_name_prefix, other_topics, nil_topics, CacheItemSelector,
  all_cache_items, cache_item_key, cache_item_key_prefix, other_items, TopicPermission,
  DisposableTokenCachePermission, Permission, cache_permission, topic_permission,
  disposable_token_cache_permission, other_permission, permissions,
  disposable_token_cache_permissions,
}
use client_sdk_go.Permissions.Meaning.{
  Access, item_access, topic_access, role_allows, covers_cache, covers_topic, covers_item, permits,
  cache_role_allows, topic_role_allows, selects_cache, selects_topic, selects_item, granted,
}
use client_sdk_go.Permissions.Grpc.{
  XPermissionsType, cache_permissions, topic_permissions, XTopicPermissions, explicit,
  cache_role_to_grpc_cache_role, topic_role_to_grpc_topic_role, to_caches, to_topics, to_items,
  to_cache_permissions, to_topic_permissions, to_disposable_permissions, disposable_permissions,
  api_key_permissions, permissions_from_token_scope, disposable_scope_permissions,
}

unfoldable pub is_disposable : Permission → Bool
is_disposable (disposable_token_cache_permission p) = true
is_disposable _ = false

cache_role :
    (r : CacheRole) (w : Bool)
    → cache_role_allows (cache_role_to_grpc_cache_role r) w ≡ role_allows r w
unfolding cache_role_allows cache_role_to_grpc_cache_role role_allows
cache_role (pos zero) w = refl
cache_role (pos (suc zero)) w = refl
cache_role (pos (suc (suc zero))) w = refl
cache_role (pos (suc (suc (suc n)))) w = refl
cache_role (negsuc n) w = refl

topic_role :
    (r : TopicRole) (w : Bool)
    → topic_role_allows (topic_role_to_grpc_topic_role r) w ≡ role_allows r w
unfolding topic_role_allows topic_role_to_grpc_topic_role role_allows
topic_role (pos zero) w = refl
topic_role (pos (suc zero)) w = refl
topic_role (pos (suc (suc zero))) w = refl
topic_role (pos (suc (suc (suc n)))) w = refl
topic_role (negsuc n) w = refl

module _ (a : Access) where
  cache_granted :
      (r : CacheRole) (c : CacheSelector)
      → granted a (cache_permissions (to_cache_permissions (record { role = r; cache = c })))
        ≡ permits a (cache_permission (record { role = r; cache = c }))
  unfolding granted permits to_cache_permissions to_caches selects_cache covers_cache selects_item
  cache_granted r c = go a c
    where
      go :
          (b : Access) (d : CacheSelector)
          → granted b (cache_permissions (to_cache_permissions (record { role = r; cache = d })))
            ≡ permits b (cache_permission (record { role = r; cache = d }))
      go (item_access n k w) all_caches = cache_role r w
      go (item_access n k w) (cache_name d) = ap (λ b. same_text d n && b) (cache_role r w)
      go (item_access n k w) other_caches = refl
      go (topic_access n t w) all_caches = refl
      go (topic_access n t w) (cache_name d) = refl
      go (topic_access n t w) other_caches = refl

  disposable_granted :
      (r : CacheRole) (c : CacheSelector) (i : CacheItemSelector)
      → granted a
          (cache_permissions (to_disposable_permissions (record { role = r; cache = c; item = i })))
        ≡ permits a (disposable_token_cache_permission (record { role = r; cache = c; item = i }))
  unfolding granted permits to_disposable_permissions to_caches to_items selects_cache covers_cache
      selects_item covers_item
  disposable_granted r c i = go a c i
    where
      go :
          (b : Access) (d : CacheSelector) (j : CacheItemSelector)
          → granted b (
              cache_permissions
                (to_disposable_permissions (record { role = r; cache = d; item = j })))
            ≡ permits b
                (disposable_token_cache_permission (record { role = r; cache = d; item = j }))
      go (item_access n k w) other_caches j = refl
      go (item_access n k w) all_caches all_cache_items = cache_role r w
      go (item_access n k w) all_caches (cache_item_key m) =
          ap (λ b. same_text m k && b) (cache_role r w)
      go (item_access n k w) all_caches (cache_item_key_prefix m) =
          ap (λ b. has_prefix k m && b) (cache_role r w)
      go (item_access n k w) all_caches other_items = refl
      go (item_access n k w) (cache_name d) all_cache_items =
          ap (λ b. same_text d n && b) (cache_role r w)
      go (item_access n k w) (cache_name d) (cache_item_key m) =
          ap (λ b. same_text d n && (same_text m k && b)) (cache_role r w)
      go (item_access n k w) (cache_name d) (cache_item_key_prefix m) =
          ap (λ b. same_text d n && (has_prefix k m && b)) (cache_role r w)
      go (item_access n k w) (cache_name d) other_items = ground arith
      go (topic_access n t w) d j = ground arith

  -- What a translated topic permission grants; one that panics or fails grants nothing.
  granted_topic : Result (Option XTopicPermissions) → Bool
  granted_topic (ok x) = granted a (topic_permissions x)
  granted_topic (err e) = false
  granted_topic (panic p) = false

module _ (a : Access) where
  granted_topic-permits :
      (r : TopicRole) (c : CacheSelector) (t : TopicSelector)
      → granted_topic a (to_topic_permissions (record { role = r; cache = c; topic = t }))
        ≡ permits a (topic_permission (record { role = r; cache = c; topic = t }))
  unfolding granted_topic to_topic_permissions to_caches to_topics granted permits covers_cache
      covers_topic selects_cache selects_topic
  granted_topic-permits r c t = go a c t
    where
      go :
          (b : Access) (d : CacheSelector) (u : TopicSelector)
          → granted_topic b (to_topic_permissions (record { role = r; cache = d; topic = u }))
            ≡ permits b (topic_permission (record { role = r; cache = d; topic = u }))
      go (topic_access n s w) other_caches u = refl
      go (topic_access n s w) all_caches all_topics = topic_role r w
      go (topic_access n s w) all_caches (topic_name m) =
          ap (λ b. same_text m s && b) (topic_role r w)
      go (topic_access n s w) all_caches (topic_name_prefix m) =
          ap (λ b. has_prefix s m && b) (topic_role r w)
      go (topic_access n s w) all_caches (other_topics m) =
          ap (λ b. same_text m s && b) (topic_role r w)
      go (topic_access n s w) all_caches nil_topics = refl
      go (topic_access n s w) (cache_name d) all_topics =
          ap (λ b. same_text d n && b) (topic_role r w)
      go (topic_access n s w) (cache_name d) (topic_name m) =
          ap (λ b. same_text d n && (same_text m s && b)) (topic_role r w)
      go (topic_access n s w) (cache_name d) (topic_name_prefix m) =
          ap (λ b. same_text d n && (has_prefix s m && b)) (topic_role r w)
      go (topic_access n s w) (cache_name d) (other_topics m) =
          ap (λ b. same_text d n && (same_text m s && b)) (topic_role r w)
      go (topic_access n s w) (cache_name d) nil_topics = ground arith
      go (item_access n k w) other_caches u = refl
      go (item_access n k w) all_caches nil_topics = refl
      go (item_access n k w) all_caches _ = refl
      go (item_access n k w) (cache_name d) nil_topics = refl
      go (item_access n k w) (cache_name d) _ = refl

  topic_granted :
      (p : TopicPermission) (x : Option XTopicPermissions)
      → to_topic_permissions p ≡ ok x
      → granted a (topic_permissions x) ≡ permits a (topic_permission p)
  unfolding granted_topic
  topic_granted p x h = ap (granted_topic a) (sym h) ∙ granted_topic-permits p.role p.cache p.topic

  other_granted : permits a other_permission ≡ false
  unfolding permits
  other_granted = go a
    where
      go : (b : Access) → permits b other_permission ≡ false
      go (item_access c k w) = refl
      go (topic_access c t w) = refl

  grow :
      (x : XPermissionsType) (rest ys : List XPermissionsType) (b c : Bool)
      → Path (Result (List XPermissionsType)) (ok (x ∷ rest)) (ok ys)
      → granted a x ≡ b
      → some_of (granted a) rest ≡ c
      → some_of (granted a) ys ≡ (b || c)
  grow x rest ys b c h e f =
      let same : ys ≡ x ∷ rest = cc in ap (some_of (granted a)) same ∙ rw (e, f) refl

  disposable_loop :
      (qs : List Permission) (ys : List XPermissionsType)
      → disposable_permissions qs ≡ ok ys
      → some_of (granted a) ys ≡ some_of (permits a) qs
  unfolding disposable_permissions
  disposable_loop [] ys h = let same : ys ≡ [] = cc in ap (some_of (granted a)) same
  disposable_loop (cache_permission p ∷ qs) ys h =
      let (rest, e, f) = >>=-ok (disposable_permissions qs) _ ys h in
      grow _ rest ys _ _ f (cache_granted a p.role p.cache) (disposable_loop qs rest e)
  disposable_loop (topic_permission p ∷ qs) ys h =
      let (t, d, g) = >>=-ok (to_topic_permissions p) _ ys h in
      let (rest, e, f) = >>=-ok (disposable_permissions qs) _ ys g in
      grow _ rest ys _ _ f (topic_granted p t d) (disposable_loop qs rest e)
  disposable_loop (disposable_token_cache_permission p ∷ qs) ys h =
      let (rest, e, f) = >>=-ok (disposable_permissions qs) _ ys h in
      grow _ rest ys _ _ f (disposable_granted a p.role p.cache p.item) (disposable_loop qs rest e)
  disposable_loop (other_permission ∷ qs) ys h = rw other_granted (disposable_loop qs ys h)

  -- An access is granted by the permissions that GenerateDisposableToken sends for a scope of the type
  -- Permissions exactly if a permission of the scope grants it.
  pub disposable_permissions-granted :
      (ps : List Permission) (xs : List XPermissionsType)
      → disposable_scope_permissions (permissions ps) ≡ ok xs
      → some_of (granted a) xs ≡ some_of (permits a) ps
  unfolding disposable_scope_permissions
  disposable_permissions-granted = disposable_loop

  api_key_loop :
      (qs : List Permission) (ys : List XPermissionsType)
      → api_key_permissions qs ≡ ok ys
      → some_of (granted a) ys ≡ some_of (λ p. not (is_disposable p) && permits a p) qs
  unfolding api_key_permissions is_disposable
  api_key_loop [] ys h = let same : ys ≡ [] = cc in ap (some_of (granted a)) same
  api_key_loop (cache_permission p ∷ qs) ys h =
      let (rest, e, f) = >>=-ok (api_key_permissions qs) _ ys h in
      grow _ rest ys _ _ f (cache_granted a p.role p.cache) (api_key_loop qs rest e)
  api_key_loop (topic_permission p ∷ qs) ys h =
      let (t, d, g) = >>=-ok (to_topic_permissions p) _ ys h in
      let (rest, e, f) = >>=-ok (api_key_permissions qs) _ ys g in
      grow _ rest ys _ _ f (topic_granted p t d) (api_key_loop qs rest e)
  api_key_loop (disposable_token_cache_permission p ∷ qs) ys h = api_key_loop qs ys h
  api_key_loop (other_permission ∷ qs) ys h = rw other_granted (api_key_loop qs ys h)

  -- An access is granted by the permissions of an API key, if they are a list, exactly if a permission of the scope grants
  -- it that is no DisposableTokenCachePermission; those are left out.
  pub permissions_from_token_scope-granted :
      (ps : List Permission) (xs : List XPermissionsType)
      → permissions_from_token_scope (permissions ps) ≡ ok (explicit xs)
      → some_of (granted a) xs ≡ some_of (λ p. not (is_disposable p) && permits a p) ps
  unfolding permissions_from_token_scope
  permissions_from_token_scope-granted [] xs h = absurd cc
  permissions_from_token_scope-granted (p ∷ ps) xs h =
      let (ys, e, f) = >>=-ok (api_key_permissions (p ∷ ps)) _ (explicit xs) h in
      let same : xs ≡ ys = cc in ap (some_of (granted a)) same ∙ api_key_loop (p ∷ ps) ys e

  -- A disposable token for a scope of the type DisposableTokenCachePermissions is asked for without
  -- any permission, whatever the scope holds.
  pub disposable_scope-empty :
      (ps : List DisposableTokenCachePermission) (xs : List XPermissionsType)
      → disposable_scope_permissions (disposable_token_cache_permissions ps) ≡ ok xs
      → some_of (granted a) xs ≡ false
  unfolding disposable_scope_permissions
  disposable_scope-empty ps xs h = let same : xs ≡ [] = cc in ap (some_of (granted a)) same
