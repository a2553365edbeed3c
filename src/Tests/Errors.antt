-- ===== src/Tests/Errors.antt =====
-- Errors with a status, with and without a cause in the trailer.
use client_sdk_go.Base.{◌≡◌, ◌↔◌, ◌⊎◌, refl, Option, none, some, List, [], ◌∷◌}
use client_sdk_go.Text.{codes}
use client_sdk_go.Errors.{
  GoError, foreign, svc_error, received, original_err, item_not_found_error, limit_exceeded_error,
  item_not_found_message, ok, panic, index_out_of_range,
}
use client_sdk_go.Errors.Convert.{
  Metadata, Status, resource_exhausted, not_found, already_exists, convert_svc_err,
}
use client_sdk_go.Errors.Laws.{
  LooksAtTrailer, HasEmptyCause, NotFoundCode, AlreadyExistsCode, convert_svc_err-panics,
  convert_svc_err-code,
}
use client_sdk_go.Tests.{status_of}

abbrev empty_cause : List Metadata
empty_cause = none ∷ some [] ∷ []

convert_svc_err-panics_example :
    ((convert_svc_err status_of (foreign 0) empty_cause ≡ panic index_out_of_range)
      ↔ (LooksAtTrailer resource_exhausted × HasEmptyCause empty_cause))
    × ((convert_svc_err status_of (foreign 0) empty_cause ≡ panic index_out_of_range)
        ⊎ ((x : GoError) × (convert_svc_err status_of (foreign 0) empty_cause ≡ ok x)))
convert_svc_err-panics_example =
    convert_svc_err-panics status_of (foreign 0) empty_cause
      (record { code = resource_exhausted; message = codes "limit" }) refl

abbrev item_cause : List Metadata
item_cause = none ∷ some (codes "item_not_found" ∷ []) ∷ []

abbrev no_item : GoError
no_item =
    svc_error item_not_found_error (received (codes "absent")) (foreign 2) item_not_found_message

convert_svc_err-code_example :
    (original_err no_item ≡ foreign 2)
    × ((item_not_found_error ≡ limit_exceeded_error) ↔ (not_found ≡ resource_exhausted))
    × (NotFoundCode item_not_found_error ↔ (not_found ≡ not_found))
    × (AlreadyExistsCode item_not_found_error ↔ (not_found ≡ already_exists))
unfolding convert_svc_err client_sdk_go.Errors.Convert.classify client_sdk_go.Base.same_text
    client_sdk_go.Errors.error_code
convert_svc_err-code_example =
    convert_svc_err-code status_of (foreign 2) no_item item_cause
      (record { code = not_found; message = codes "absent" }) item_not_found_error refl refl refl
