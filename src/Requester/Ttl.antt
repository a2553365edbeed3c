-- ===== src/Requester/Ttl.antt =====
-- The times to live that requester.go passes on to the server.
use client_sdk_go.Base.{
  ℕ, ◌/◌, ◌^◌, ◌≤◌, ◌<◌, ℤ, pos, negsuc, ◌≡◌, refl, Bool, false, some, arith, is_zero, is_positive,
  not, ◌==◌, ap, ◌∙◌, ◌<ℤ◌, if◌then◌else◌,
}
use client_sdk_go.Errors.{fixed, error_code, Result, ok}
use client_sdk_go.Requester.{
  of_ttl, ttl_milliseconds, prepare_ttl, invalid, build_error, prepare_collection_ttl,
  prepare_update_ttl,
}
use client_sdk_go.Requester.Laws.{IsInvalid}

-- The nanoseconds of the TTL that a request asks for: zero stands for the client's default.
abbrev pub effective : ℤ → ℤ → ℤ
effective requested default_ttl = if is_zero requested then default_ttl else requested

-- A duration of n nanoseconds, within the range of int64, is sent as its whole milliseconds.
pub ttl_milliseconds_lem : (n : ℕ) → n < 2 ^ 63 → ttl_milliseconds (pos n) ≡ n / 1000000
unfolding ttl_milliseconds
ttl_milliseconds_lem n h = omega arith

-- The checks of prepareTtl on the TTL that it has chosen.
abbrev checked_ttl : ℤ → Result ℕ
checked_ttl ttl =
    if not (is_positive ttl)
    then invalid (fixed "ttl must be a non-zero positive value")
    else if ttl_milliseconds ttl == 0
    then invalid (fixed "ttl must greater than 0 when interpreting it as milliseconds")
    else ok (ttl_milliseconds ttl)

checked_ttl-pos : (n : ℕ) → n < 2 ^ 63 → 1000000 ≤ n → checked_ttl (pos n) ≡ ok (n / 1000000)
unfolding is_positive
checked_ttl-pos n h p = ground (arith, ttl_milliseconds_lem n h)

checked_ttl-small : (n : ℕ) → n < 2 ^ 63 → n < 1000000 → IsInvalid (checked_ttl (pos n))
unfolding is_positive error_code build_error
checked_ttl-small n h p = ground (arith, ttl_milliseconds_lem n h)

checked_ttl-negsuc : (n : ℕ) → IsInvalid (checked_ttl (negsuc n))
unfolding is_positive error_code build_error
checked_ttl-negsuc n = refl

prepare_ttl-eq-checked_ttl :
    (requested default_ttl : ℤ)
    → prepare_ttl requested default_ttl ≡ checked_ttl (effective requested default_ttl)
unfolding prepare_ttl
prepare_ttl-eq-checked_ttl requested default_ttl = refl

-- A TTL of at least a millisecond, requested or by default and within the range of int64, is sent
-- in milliseconds, rounded down, and what is sent is not 0.
pub prepare_ttl_accepts :
    (requested default_ttl : ℤ) (n : ℕ)
    → effective requested default_ttl ≡ pos n
    → 1000000 ≤ n
    → n < 2 ^ 63
    → (prepare_ttl requested default_ttl ≡ ok (n / 1000000)) × (0 < n / 1000000)
prepare_ttl_accepts requested default_ttl n e p h = (
  prepare_ttl-eq-checked_ttl requested default_ttl ∙ (ap checked_ttl e ∙ checked_ttl-pos n h p),
  omega arith,
)

checked_ttl-below : (t : ℤ) → t <ℤ pos 1000000 → IsInvalid (checked_ttl t)
checked_ttl-below (pos n) h = checked_ttl-small n (omega arith) h
checked_ttl-below (negsuc n) h = checked_ttl-negsuc n

-- A TTL below a millisecond, requested or by default, zero and negative ones too, is refused as an
-- invalid argument.
pub prepare_ttl_refuses :
    (requested default_ttl : ℤ)
    → effective requested default_ttl <ℤ pos 1000000
    → IsInvalid (prepare_ttl requested default_ttl)
prepare_ttl_refuses requested default_ttl h =
    rw (prepare_ttl-eq-checked_ttl requested default_ttl) (checked_ttl-below _ h)

effective-pos : (n : ℕ) (default_ttl : ℤ) → 0 < n → effective (pos n) default_ttl ≡ pos n
unfolding is_zero
effective-pos n default_ttl h = ground arith

-- A positive TTL below a millisecond: prepareTtl refuses it, and the TTL of a collection and the
-- TTL of an update are passed on to the server as 0 milliseconds.
pub sub_millisecond_ttl :
    (n : ℕ) (refresh : Bool) (default_ttl : ℤ)
    → 0 < n
    → n < 1000000
    → IsInvalid (prepare_ttl (pos n) default_ttl)
      × (prepare_collection_ttl (some (record { ttl = pos n; refresh_ttl = refresh })) default_ttl
          ≡ ok (0, refresh))
      × (prepare_update_ttl (pos n) ≡ ok 0)
unfolding prepare_collection_ttl prepare_update_ttl is_zero is_positive
sub_millisecond_ttl n refresh default_ttl lo hi = (
  rw
      (prepare_ttl-eq-checked_ttl (pos n) default_ttl
        ∙ ap checked_ttl (effective-pos n default_ttl lo))
      (checked_ttl-small n (omega arith) hi),
  ground (arith, ttl_milliseconds_lem n),
  ground (arith, ttl_milliseconds_lem n),
)

-- A CollectionTtl that is made by `Of` never asks the server for a refresh.
pub of_ttl-no-refresh :
    (t default_ttl : ℤ) (ms : ℕ) (refresh : Bool)
    → prepare_collection_ttl (some (of_ttl t)) default_ttl ≡ ok (ms, refresh)
    → refresh ≡ false
unfolding prepare_collection_ttl of_ttl
of_ttl-no-refresh t default_ttl ms refresh e = ground arith

-- A TTL below zero is an invalid argument for a collection and for an update, as it is for an item.
pub negative_ttl :
    (n : ℕ) (refresh : Bool) (default_ttl : ℤ)
    → IsInvalid (
        prepare_collection_ttl
          (some (record { ttl = negsuc n; refresh_ttl = refresh }))
          default_ttl)
      × IsInvalid (prepare_update_ttl (negsuc n))
      × IsInvalid (prepare_ttl (negsuc n) default_ttl)
unfolding prepare_collection_ttl prepare_update_ttl prepare_ttl error_code
negative_ttl n refresh default_ttl = (refl, refl, refl)
