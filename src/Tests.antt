-- ===== src/Tests.antt =====
-- The theorems at concrete inputs, and the data that these share.
pub mod Retries
pub mod Requests
pub mod Errors
pub mod Batches
pub mod Pools
pub mod Tokens
pub mod Caches
pub mod SortedSets
pub mod Streams
pub mod Collections
use client_sdk_go.Base.{ℕ, zero, suc, Option, none, some}
use client_sdk_go.Text.{GoString, codes}
use client_sdk_go.Errors.{GoError, foreign}
use client_sdk_go.Errors.Convert.{Status, FromError, resource_exhausted, unavailable, not_found}

-- The errors of the tests: `foreign 0`, `foreign 1` and `foreign 2` carry a status.
abbrev pub status_of : FromError
status_of (foreign zero) = some (record { code = resource_exhausted; message = codes "limit" })
status_of (foreign (suc zero)) = some (record { code = unavailable; message = codes "down" })
status_of (foreign (suc (suc zero))) = some (record { code = not_found; message = codes "absent" })
status_of _ = none

abbrev pub go_version : GoString
go_version = codes "go1.22"
