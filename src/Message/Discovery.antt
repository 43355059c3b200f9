-- ===== src/Message/Discovery.antt =====
-- internal/message/service_discovery.go: the service for attachments that a DID document names.
-- `is_request_uri` stands for url.ParseRequestURI, and a number of a document for what int() makes of
-- it. Resolving the document is not modelled.
pub mod Laws
use awiki_cli.Base.{
  ℕ, Bool, true, false, not, ◌&&◌, ◌||◌, List, [], ◌∷◌, ◌++◌, Option, none, some, if◌then◌else◌,
  Result, ok, err, ltb,
}
use awiki_cli.Base.Int.{ℤ, pos, negsuc}
use awiki_cli.Text.{Text, text, same, trim_space, is_empty}
use awiki_cli.Text.Number.{atoi}

-- A value of a JSON document, a list of them and the fields of an object.
mutual
  pub data Value : Type 0 where
    nil_value : Value
    flag_value : Bool → Value
    number_value : ℤ → Value
    text_value : Text → Value
    list_value : Values → Value
    map_value : Fields → Value

  pub data Values : Type 0 where
    none_left : Values
    item : Value → Values → Values

  pub data Fields : Type 0 where
    no_field : Fields
    field : Text → Value → Fields → Fields

-- An index expression of a map; nil where there is no such key.
unfoldable pub get : Text → Fields → Value
get key no_field = nil_value
get key (field k v rest) = if same k key then v else get key rest

unfoldable pub string_from_any : Value → Text
string_from_any (text_value t) = t
string_from_any _ = []

unfoldable pub first_non_nil : Value → Value → Value
first_non_nil nil_value b = b
first_non_nil (flag_value x) b = flag_value x
first_non_nil (number_value x) b = number_value x
first_non_nil (text_value x) b = text_value x
first_non_nil (list_value x) b = list_value x
first_non_nil (map_value x) b = map_value x

unfoldable pub strings_of : Values → List Text
strings_of none_left = []
strings_of (item v vs) =
    let t = trim_space (string_from_any v) in
    if is_empty t then strings_of vs else t ∷ strings_of vs

unfoldable pub string_slice_from_any : Value → List Text
string_slice_from_any (list_value vs) = strings_of vs
string_slice_from_any _ = []

unfoldable pub string_slice_contains : List Text → Text → Bool
string_slice_contains [] expected = false
string_slice_contains (t ∷ ts) expected = same t expected || string_slice_contains ts expected

unfoldable pub priority_from_any : Value → Option ℤ
priority_from_any (number_value n) = some n
priority_from_any (text_value t) = atoi (trim_space t)
priority_from_any _ = none

pub record DiscoveredMessageService : Type 0 where
  pub service_did : Text
  pub service_endpoint : Text
  pub profiles : List Text
  pub security_profiles : List Text
  pub priority : Option ℤ

unfoldable pub service_of : Fields → DiscoveredMessageService
service_of m = record {
  service_did = string_from_any (get (text "serviceDid") m);
  service_endpoint = string_from_any (get (text "serviceEndpoint") m);
  profiles = string_slice_from_any (get (text "profiles") m);
  security_profiles =
      string_slice_from_any
        (first_non_nil (get (text "securityProfiles") m) (get (text "security_profiles") m));
  priority = priority_from_any (get (text "priority") m);
}

-- The service that an entry of the document describes.
unfoldable pub entry_service : Value → Option DiscoveredMessageService
entry_service (map_value m) =
    if same (string_from_any (get (text "type") m)) (text "ANPMessageService")
    then some (service_of m)
    else none
entry_service _ = none

abbrev pub with_some {ℓ} : {A : Type ℓ} → Option A → List A → List A
with_some none xs = xs
with_some (some x) xs = x ∷ xs

unfoldable pub services_of : Values → List DiscoveredMessageService
services_of none_left = []
services_of (item v vs) = with_some (entry_service v) (services_of vs)

unfoldable pub service_entries_from_document : Fields → List DiscoveredMessageService
service_entries_from_document document = elim (get (text "service") document) [
  | list_value vs ↦ services_of vs
  | _ ↦ []
]

-- The four tests of the loop over the services.
unfoldable pub is_compatible : DiscoveredMessageService → Bool
is_compatible s =
    not (is_empty s.service_did || is_empty s.service_endpoint)
    && (string_slice_contains s.profiles (text "anp.attachment.v1")
        && string_slice_contains s.security_profiles (text "transport-protected"))

unfoldable pub candidates_of : List DiscoveredMessageService → List DiscoveredMessageService
candidates_of [] = []
candidates_of (s ∷ ss) = if is_compatible s then s ∷ candidates_of ss else candidates_of ss

-- a < b
unfoldable pub is_below : ℤ → ℤ → Bool
is_below (pos m) (pos n) = ltb m n
is_below (pos m) (negsuc n) = false
is_below (negsuc m) (pos n) = true
is_below (negsuc m) (negsuc n) = ltb n m

abbrev pub is_sooner : Option ℤ → Option ℤ → Bool
is_sooner (some a) (some b) = is_below a b
is_sooner (some a) none = true
is_sooner none b = false

-- The order of the candidates.
unfoldable pub comes_before : DiscoveredMessageService → DiscoveredMessageService → Bool
comes_before a b = is_sooner a.priority b.priority

-- sort.SliceStable by that order: a service stands before those that are not less.
unfoldable pub insert_stable :
    DiscoveredMessageService → List DiscoveredMessageService → List DiscoveredMessageService
insert_stable x [] = x ∷ []
insert_stable x (y ∷ ys) = if comes_before y x then y ∷ insert_stable x ys else x ∷ y ∷ ys

unfoldable pub slice_stable : List DiscoveredMessageService → List DiscoveredMessageService
slice_stable [] = []
slice_stable (x ∷ xs) = insert_stable x (slice_stable xs)

pub record DiscoveredAttachmentService : Type 0 where
  pub sender_did : Text
  pub attachment_service_did : Text
  pub rpc_endpoint : Text

pub data DiscoveryError : Type 0 where
  no_compatible_service : DiscoveryError
  invalid_endpoint : DiscoveryError

module _ (is_request_uri : Text → Bool) where
  unfoldable pub select_first :
      Text → List DiscoveredMessageService → Result DiscoveryError DiscoveredAttachmentService
  select_first sender [] = err no_compatible_service
  select_first sender (s ∷ ss) =
      if not (is_request_uri s.service_endpoint)
      then err invalid_endpoint
      else ok (record {
        sender_did = sender;
        attachment_service_did = s.service_did;
        rpc_endpoint = s.service_endpoint;
      })

  unfoldable pub select_attachment_rpc_service_from_document :
      Text → Fields → Result DiscoveryError DiscoveredAttachmentService
  select_attachment_rpc_service_from_document sender document =
      select_first sender (slice_stable (candidates_of (service_entries_from_document document)))
