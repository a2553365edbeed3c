-- ===== src/Tests/Collections.antt =====
-- Requests on a dictionary, a set and a list.
use client_sdk_go.Base.{ℕ, pos, ◌≡◌, ◌↔◌, refl, none, some, List, [], ◌∷◌, here, true}
use client_sdk_go.Text.{GoString, Bytes}
use client_sdk_go.Errors.{GoError, foreign, nil_dereference, panic}
use client_sdk_go.Errors.Convert.{Code, internal}
use client_sdk_go.Requester.{nil_value, string, bytes, from_cache_ttl}
use client_sdk_go.Protos.{ECacheResult}
use client_sdk_go.Dictionary.{
  XDictionaryFieldValuePair, XDictionaryGetRequest, XDictionaryGetResponsePart,
  DictionaryGetFieldsRequest,
}
use client_sdk_go.Dictionary.Update.{
  XDictionarySetRequest, DictionarySetFieldsRequest, DictionaryIncrementRequest,
}
use client_sdk_go.Dictionary.Single.{DictionaryFieldRequest}
use client_sdk_go.Sets.{
  SetAddElementsRequest, SetRemoveElementsRequest, SetContainsElementsRequest, SetPopRequest,
  set_contains_elements,
}
use client_sdk_go.Sets.Laws.{HasNil, set_contains_elements-panics}
use client_sdk_go.Lists.{XListPushRequest, ListNameRequest, ListPushRequest}

abbrev two_pairs : List XDictionaryFieldValuePair
two_pairs =
    record { field = 1 ∷ []; value = 2 ∷ [] } ∷ record { field = 1 ∷ []; value = 3 ∷ [] } ∷ []

abbrev two_fields : DictionaryGetFieldsRequest
two_fields = record {
  cache_name = 99 ∷ [];
  dictionary_name = 100 ∷ [];
  fields = some (string (107 ∷ []) ∷ bytes (7 ∷ []) ∷ []);
}

abbrev two_fields_message : XDictionaryGetRequest
two_fields_message = record { dictionary_name = 100 ∷ []; fields = (107 ∷ []) ∷ (7 ∷ []) ∷ [] }

abbrev two_parts : List XDictionaryGetResponsePart
two_parts =
    record { result = ECacheResult.miss; cache_body = [] }
    ∷ record { result = ECacheResult.hit; cache_body = 5 ∷ [] }
    ∷ []

abbrev one_element : DictionarySetFieldsRequest
one_element = record {
  cache_name = 99 ∷ [];
  dictionary_name = 100 ∷ [];
  elements = record { field = string (107 ∷ []); value = bytes [] } ∷ [];
  ttl = some from_cache_ttl;
}

abbrev one_element_message : XDictionarySetRequest
one_element_message = record {
  dictionary_name = 100 ∷ [];
  items = record { field = 107 ∷ []; value = [] } ∷ [];
  ttl_milliseconds = 60000;
  refresh_ttl = true;
}

abbrev nil_element : DictionarySetFieldsRequest
nil_element = record {
  cache_name = 99 ∷ [];
  dictionary_name = 100 ∷ [];
  elements = record { field = nil_value; value = nil_value } ∷ [];
  ttl = none;
}

abbrev contains_nil : SetContainsElementsRequest
contains_nil = record {
  cache_name = 99 ∷ [];
  set_name = 115 ∷ [];
  elements = string (107 ∷ []) ∷ nil_value ∷ [];
}

set_contains_elements-panics_example :
    ((set_contains_elements contains_nil).init_grpc_request (pos 60000000000)
      ≡ panic nil_dereference)
    ↔ HasNil (string (107 ∷ []) ∷ nil_value ∷ [])
unfolding client_sdk_go.Text.is_space
set_contains_elements-panics_example =
    set_contains_elements-panics contains_nil (pos 60000000000) (here refl)

abbrev add_nil : SetAddElementsRequest
add_nil = record {
  cache_name = 99 ∷ [];
  set_name = 115 ∷ [];
  elements = some (nil_value ∷ []);
  ttl = none;
}

abbrev remove_none : SetRemoveElementsRequest
remove_none = record { cache_name = 99 ∷ []; set_name = 115 ∷ []; elements = none }

abbrev push : ListPushRequest
push = record {
  cache_name = 99 ∷ [];
  list_name = 108 ∷ [];
  value = string (118 ∷ []);
  truncate_to_size = 10;
  ttl = none;
}

abbrev push_message : XListPushRequest
push_message = record {
  list_name = 108 ∷ [];
  value = 118 ∷ [];
  ttl_milliseconds = 60000;
  refresh_ttl = true;
  truncate_to_size = 10;
}

abbrev is_internal : GoError → Code
is_internal e = internal

abbrev always_fails : ℕ → GoError
always_fails n = foreign n

abbrev dictionary_one : DictionaryIncrementRequest
dictionary_one = record {
  cache_name = 99 ∷ [];
  dictionary_name = 100 ∷ [];
  field = string (107 ∷ []);
  amount = pos 1;
  ttl = none;
}

abbrev pop_one : SetPopRequest
pop_one = record { cache_name = 99 ∷ []; set_name = 115 ∷ []; count = none }

abbrev list_name_only : ListNameRequest
list_name_only = record { cache_name = 99 ∷ []; list_name = 108 ∷ [] }

abbrev one_field : DictionaryFieldRequest
one_field = record { cache_name = []; dictionary_name = 100 ∷ []; field = string (107 ∷ []) }

abbrev one_part : XDictionaryGetResponsePart
one_part = record { result = ECacheResult.hit; cache_body = 5 ∷ [] }
