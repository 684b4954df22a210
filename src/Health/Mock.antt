-- ===== src/Health/Mock.antt =====
-- `MockHealthProbeClient` of src/health.rs: answers from a queue, and records the URLs probed.
use hostinger.Prelude.{String, List, [], ◌∷◌, ◌++◌}
use hostinger.Exec.{Result, err}
use hostinger.Health.{ProbeResponse, HealthProbeClient}

pub record MockClient : Type 0 where
  pub queued_responses : List (Result String ProbeResponse)
  pub probed_urls : List String

-- The head of the queue, and the rest.
abbrev pub take_response :
    List (Result String ProbeResponse)
    → Result String ProbeResponse × List (Result String ProbeResponse)
take_response [] = (err "no mock responses remaining", [])
take_response (next ∷ queue) = (next, queue)

abbrev pub mock_client : HealthProbeClient MockClient
mock_client = record {
  probe = λ url timeout c. (
    (take_response c.queued_responses).0,
    record {
      queued_responses = (take_response c.queued_responses).1;
      probed_urls = c.probed_urls ++ url ∷ [];
    },
  );
}
