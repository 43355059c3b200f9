-- ===== src/Message/Discovery/Laws.antt =====
-- internal/message/service_discovery.go: which service is selected.
use awiki_cli.Base.{◌≡◌, Bool, true, false, List, [], ◌∷◌, ◌++◌, Result, ok, err, All}
use awiki_cli.Text.{Text}
use awiki_cli.Message.Discovery.{
  DiscoveredMessageService, comes_before, DiscoveredAttachmentService, DiscoveryError,
}

-- The service is the first of the most preferred ones of the list: it comes before all that stand in
-- front of it, and none behind it comes before it.
pub record IsFirst (s : DiscoveredMessageService) (xs : List DiscoveredMessageService)
    : Type 0 where
  pub front : List DiscoveredMessageService
  pub back : List DiscoveredMessageService
  pub parts : xs ≡ front ++ (s ∷ back)
  pub front_ok : All (λ x. comes_before s x ≡ true) front
  pub back_ok : All (λ x. comes_before x s ≡ false) back

-- A list that the sort leaves, with its head.
abbrev HeadIsFirst : List DiscoveredMessageService → List DiscoveredMessageService → Type 0
HeadIsFirst [] xs = xs ≡ []
HeadIsFirst (s ∷ ss) xs = IsFirst s xs

module _ (is_request_uri : Text → Bool) where
  -- What a selection says of the candidates: an error where there is none or the endpoint of the most
  -- preferred one is no URI, and else that one's DID and endpoint.
  pub data Selects (sender : Text) (xs : List DiscoveredMessageService)
      : Result DiscoveryError DiscoveredAttachmentService → Type 0 where
    selects_none : xs ≡ [] → Selects sender xs (err DiscoveryError.no_compatible_service)
    selects_bad :
        (s : DiscoveredMessageService)
        → IsFirst s xs
        → is_request_uri s.service_endpoint ≡ false
        → Selects sender xs (err DiscoveryError.invalid_endpoint)
    selects :
        (s : DiscoveredMessageService)
        → IsFirst s xs
        → is_request_uri s.service_endpoint ≡ true
        → Selects sender xs (
            ok (record {
              sender_did = sender;
              attachment_service_did = s.service_did;
              rpc_endpoint = s.service_endpoint;
            }))
