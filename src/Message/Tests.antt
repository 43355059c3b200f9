-- ===== src/Message/Tests.antt =====
-- Runs of the service discovery of internal/message on a document with three services.
use awiki_cli.Base.{◌≡◌, refl, Bool, true, ok}
use awiki_cli.Base.Int.{pos}
use awiki_cli.Text.{Text, text, same, trim_space, trim_left, trim_right, is_space}
use awiki_cli.Text.Number.{value_from, value, decimal, signed, atoi}
use awiki_cli.Message.Discovery.{
  Value, number_value, text_value, list_value, map_value, none_left, item, Fields, no_field, field,
  get, string_from_any, first_non_nil, strings_of, string_slice_from_any, string_slice_contains,
  priority_from_any, service_of, entry_service, services_of, service_entries_from_document,
  is_compatible, candidates_of, is_below, comes_before, insert_stable, slice_stable, select_first,
  select_attachment_rpc_service_from_document,
}

abbrev texts : Text → Value
texts t = list_value (item (text_value t) none_left)

abbrev service : Text → Text → Value → Value
service did profile priority = map_value (
    field (text "type") (text_value (text "ANPMessageService")) (
      field (text "serviceDid") (text_value did) (
        field (text "serviceEndpoint") (text_value (text "https://a")) (
          field (text "profiles") (texts profile) (
            field (text "security_profiles") (texts (text " transport-protected "))
              (field (text "priority") priority no_field))))))

abbrev document : Fields
document =
    field (text "service")
      (list_value (
        item (service (text "did:a") (text "anp.attachment.v1") (number_value (pos 2))) (
          item (service (text "did:b") (text "anp.direct.v1") (number_value (pos 0))) (
            item (service (text "did:c") (text "anp.attachment.v1") (text_value (text "1")))
              none_left))))
      no_field

abbrev any_text : Text → Bool
any_text t = true

selected :
    select_attachment_rpc_service_from_document any_text (text "did:me") document
    ≡ ok (record {
      sender_did = text "did:me";
      attachment_service_did = text "did:c";
      rpc_endpoint = text "https://a";
    })
unfolding same trim_space trim_left trim_right is_space value_from value decimal signed atoi get
    string_from_any first_non_nil strings_of string_slice_from_any string_slice_contains
    priority_from_any service_of entry_service services_of service_entries_from_document
    is_compatible candidates_of is_below comes_before insert_stable slice_stable select_first
    select_attachment_rpc_service_from_document
selected = refl
