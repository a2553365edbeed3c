-- ===== src/Storage/Laws.antt =====
-- What a put sends and a get of the same item returns.
use client_sdk_go.Base.{Bool, true, false}
use client_sdk_go.Storage.{StorageValue, nil_storage_value, other_storage_value}

-- A value of one of the four types.
unfoldable pub is_storable : {Float : Type 0} → StorageValue Float → Bool
is_storable nil_storage_value = false
is_storable other_storage_value = false
is_storable _ = true
