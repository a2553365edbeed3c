-- ===== src/Lists/Laws.antt =====
-- What the pushes and the fetch of a list send.
use client_sdk_go.Base.{ℤ, ◌≡◌, ◌↔◌, some, [], ◌∷◌, arith}
use client_sdk_go.Errors.{ok}
use client_sdk_go.Requester.{prepare_value, prepare_value_list, prepare_values}
use client_sdk_go.Lists.{
  XListPushRequest, XListConcatenateRequest, ListPushRequest, ListConcatenateRequest,
  list_push_back, list_push_front, list_concatenate_back, list_concatenate_front,
}

-- The concatenation of the one value of a push.
abbrev pub one_value : ListPushRequest → ListConcatenateRequest
one_value r = record {
  cache_name = r.cache_name;
  list_name = r.list_name;
  values = some (r.value ∷ []);
  truncate_to_size = r.truncate_to_size;
  ttl = r.ttl;
}

abbrev pub one_message : XListPushRequest → XListConcatenateRequest
one_message m = record {
  list_name = m.list_name;
  values = m.value ∷ [];
  ttl_milliseconds = m.ttl_milliseconds;
  refresh_ttl = m.refresh_ttl;
  truncate_to_size = m.truncate_to_size;
}

-- A push has a message exactly if the concatenation of its one value has, at the back and at the
-- front, and the two messages agree in every field.
pub list_push_message :
    (r : ListPushRequest) (default_ttl : ℤ) (m : XListPushRequest)
    → (((list_push_back r).init_grpc_request default_ttl ≡ ok m) ↔ (
        (list_concatenate_back (one_value r)).init_grpc_request default_ttl ≡ ok (one_message m)))
      × (((list_push_front r).init_grpc_request default_ttl ≡ ok m) ↔ (
          (list_concatenate_front (one_value r)).init_grpc_request default_ttl
          ≡ ok (one_message m)))
unfolding list_push_back list_push_front list_concatenate_back list_concatenate_front prepare_value
    prepare_values prepare_value_list
list_push_message r default_ttl m =
    ((λ h. ground arith, λ h. ground arith), (λ h. ground arith, λ h. ground arith))
