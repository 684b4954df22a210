-- ===== src/Agent/Acceptance.antt =====
-- When `validate_and_unpack` of src/agent_protocol.rs accepts an envelope.
use hostinger.Prelude.{
  ℕ, ◌/◌, ◌≤◌, ◌≡◌, ◌↔◌, refl, sym, ap, ◌∙◌, ◌⊎◌, inl, inr, Bool, true, false, not, some, arith,
  length, any, ◌==◌, ltb, str_eq, eq_iff, as_bytes, if◌then◌else◌, Bool-cases, Option-cases,
}
use hostinger.Prelude.Words.{whole_seconds, abs}
use hostinger.Exec.{Result, ok, err}
use hostinger.Agent.Commands.{AgentCommand}
use hostinger.Agent.Safety.{IsSafe, IsFresh, inspect_safety_iff, prune-IsFresh}
use hostinger.Agent.Envelope.{
  Wire, AgentEnvelope, NodeCredentials, agent_protocol_version, max_payload_size_bytes,
  compute_signature,
}
use hostinger.Agent.Validator.{
  AgentProtocolValidator, get, prune, contains_key, inspect_safety, unpack, process,
  check_signature, authenticate, validate_and_unpack,
}

pub Result-cases :
    {E A : Type 0} (r : Result E A) → ((e : E) × (r ≡ err e)) ⊎ ((a : A) × (r ≡ ok a))
Result-cases (err e) = inl (e, refl)
Result-cases (ok a) = inr (a, refl)

-- A guard that returned.
passed :
    {E A : Type 0} (b : Bool) (e : E) (r : Result E A) (a : A)
    → (if b then err e else r) ≡ ok a
    → (b ≡ false) × (r ≡ ok a)
passed true e r a h = cc
passed false e r a h = (refl, h)

module _ (wire : Wire) where
  -- The description of an envelope that carries `command` and may be acted on.
  pub record IsGenuine (now instant : ℕ) (envelope : AgentEnvelope) (v : AgentProtocolValidator)
      (command : AgentCommand) : Type 0 where
    pub version_known : envelope.version ≡ agent_protocol_version
    pub small : length (as_bytes envelope.payload) ≤ max_payload_size_bytes
    pub recent : abs (whole_seconds now envelope.timestamp) ≤ v.max_skew / 1_000_000_000
    pub not_revoked : any (λ i. i == envelope.node_id) v.revoked_nodes ≡ false
    pub creds : NodeCredentials
    pub node_known : get envelope.node_id v.credentials_store ≡ some creds
    pub signed :
        compute_signature wire envelope.version envelope.operation_id envelope.node_id
          envelope.timestamp envelope.payload creds.secret_key
        ≡ ok envelope.signature
    pub fresh : IsFresh v.max_skew instant envelope.operation_id v.processed_operations
    pub decoded : wire.from_json envelope.payload ≡ ok command
    pub safe : IsSafe command

  -- Steps 5 and 6 found the credentials that signed the envelope.
  abbrev IsSigned : AgentEnvelope → AgentProtocolValidator → NodeCredentials → Type 0
  IsSigned envelope v creds =
      (get envelope.node_id v.credentials_store ≡ some creds)
      × (compute_signature wire envelope.version envelope.operation_id envelope.node_id
            envelope.timestamp envelope.payload creds.secret_key
          ≡ ok envelope.signature)

  check_signature_ok :
      (envelope : AgentEnvelope) (v : AgentProtocolValidator)
      → check_signature wire envelope v ≡ ok tt
      → (creds : NodeCredentials) × IsSigned envelope v creds
  unfolding check_signature
  check_signature_ok envelope v h = elim (Option-cases (get envelope.node_id v.credentials_store)) [
    | inl q ↦ absurd (ground (arith, h, q))
    | inr (creds, q) ↦
        elim (Result-cases (
          compute_signature wire envelope.version envelope.operation_id envelope.node_id
            envelope.timestamp envelope.payload creds.secret_key)) [
              | inl (e, r) ↦ absurd (ground (arith, h, q, r))
              | inr (signature, r) ↦ elim (Bool-cases (str_eq envelope.signature signature)) [
                | inr k ↦ absurd (ground (arith, h, q, r, k))
                | inl k ↦ (creds, (q, r ∙ ap ok (sym ((eq_iff envelope.signature signature).0 k))))
              ]
            ]
  ]

  signed_ok :
      (envelope : AgentEnvelope) (v : AgentProtocolValidator) (creds : NodeCredentials)
      → IsSigned envelope v creds
      → check_signature wire envelope v ≡ ok tt
  unfolding check_signature
  signed_ok envelope v creds (known, signed) =
      let same : str_eq envelope.signature envelope.signature ≡ true =
        (eq_iff envelope.signature envelope.signature).1 refl in
      ground (arith, known, signed, same)

  pub process_ok :
      (instant : ℕ) (envelope : AgentEnvelope) (v : AgentProtocolValidator) (command : AgentCommand)
      → (process wire instant envelope v).0 ≡ ok command
      → (contains_key envelope.operation_id (prune v.max_skew instant v.processed_operations)
          ≡ false)
        × (wire.from_json envelope.payload ≡ ok command)
        × (inspect_safety command ≡ ok tt)
  unfolding process unpack
  process_ok instant envelope v command h =
      elim (Bool-cases
        (contains_key envelope.operation_id (prune v.max_skew instant v.processed_operations))) [
          | inl seen ↦ absurd (ground (arith, h, seen))
          | inr fresh ↦ elim (Result-cases (wire.from_json envelope.payload)) [
            | inl (e, q) ↦ absurd (ground (arith, h, fresh, q))
            | inr (c, q) ↦ elim (Result-cases (inspect_safety c)) [
              | inl (e, r) ↦ absurd (ground (arith, h, fresh, q, r))
              | inr (u, r) ↦
                  let same : c ≡ command = ground (arith, h, fresh, q, r) in
                  (fresh, q ∙ ap ok same, rw same at r)
            ]
          ]
        ]

  authenticate_ok :
      (now : ℕ) (envelope : AgentEnvelope) (v : AgentProtocolValidator)
      → authenticate wire now envelope v ≡ ok tt
      → (envelope.version ≡ agent_protocol_version)
        × (length (as_bytes envelope.payload) ≤ max_payload_size_bytes)
        × (abs (whole_seconds now envelope.timestamp) ≤ v.max_skew / 1_000_000_000)
        × (any (λ i. i == envelope.node_id) v.revoked_nodes ≡ false)
        × (check_signature wire envelope v ≡ ok tt)
  unfolding authenticate
  authenticate_ok now envelope v h =
      let (a, h₁) = passed (not (str_eq envelope.version agent_protocol_version)) _ _ tt h in
      let (b, h₂) =
        passed (ltb max_payload_size_bytes (length (as_bytes envelope.payload))) _ _ tt h₁ in
      let (c, h₃) =
        passed (ltb (v.max_skew / 1_000_000_000) (abs (whole_seconds now envelope.timestamp))) _ _
          tt h₂ in
      let (d, h₄) = passed (any (λ i. i == envelope.node_id) v.revoked_nodes) _ _ tt h₃ in
      (
        (eq_iff envelope.version agent_protocol_version).0 (ground (arith, a)),
        ground (arith, b),
        ground (arith, c),
        d,
        h₄,
      )

  genuine_authenticates :
      (now instant : ℕ) (envelope : AgentEnvelope) (v : AgentProtocolValidator)
      (command : AgentCommand)
      → IsGenuine now instant envelope v command
      → authenticate wire now envelope v ≡ ok tt
  unfolding authenticate
  genuine_authenticates now instant envelope v command g =
      let version : str_eq envelope.version agent_protocol_version ≡ true =
        (eq_iff envelope.version agent_protocol_version).1 g.version_known in
      let size : ltb max_payload_size_bytes (length (as_bytes envelope.payload)) ≡ false =
        ground (arith, g.small) in
      let recent : ltb (v.max_skew / 1_000_000_000) (abs (whole_seconds now envelope.timestamp))
          ≡ false =
        ground (arith, g.recent) in
      rw (version, size, recent, g.not_revoked)
        (signed_ok envelope v g.creds (g.node_known, g.signed))

  genuine_processed :
      (now instant : ℕ) (envelope : AgentEnvelope) (v : AgentProtocolValidator)
      (command : AgentCommand)
      → IsGenuine now instant envelope v command
      → (process wire instant envelope v).0 ≡ ok command
  unfolding process unpack
  genuine_processed now instant envelope v command g =
      let unseen = (prune-IsFresh v.max_skew instant envelope.operation_id _).1 g.fresh in
      ground (arith, unseen, g.decoded, (inspect_safety_iff command).1 g.safe)

  -- `validate_and_unpack` returns a command exactly for a genuine envelope: of the known version, of
  -- at most 1 MiB, with a timestamp within the allowed skew, from a node that is not revoked and
  -- whose credentials signed it, with an operation id that was not processed within twice the skew,
  -- and with a payload that is the JSON of that command. The command is safe: no image path has a
  -- component ".." or begins with /etc, /sys, /proc, /dev or /root, and no node to be registered is
  -- without a hostname or an endpoint.
  pub validate_and_unpack-IsGenuine :
      (now instant : ℕ) (envelope : AgentEnvelope) (v : AgentProtocolValidator)
      (command : AgentCommand)
      → ((validate_and_unpack wire now instant envelope v).0 ≡ ok command)
        ↔ IsGenuine now instant envelope v command
  unfolding validate_and_unpack
  validate_and_unpack-IsGenuine now instant envelope v command = (genuine, accepted)
    where
      genuine :
          (validate_and_unpack wire now instant envelope v).0 ≡ ok command
          → IsGenuine now instant envelope v command
      genuine h = elim (Result-cases (authenticate wire now envelope v)) [
        | inl (e, q) ↦ absurd (ground (arith, h, q))
        | inr (u, q) ↦
            let (a, b, c, d, signature) = authenticate_ok now envelope v q in
            let (creds, (known, signed)) = check_signature_ok envelope v signature in
            let (fresh, decoded, safe) =
              process_ok instant envelope v command (rw (validate_and_unpack, q) at h) in
            record {
              version_known = a;
              small = b;
              recent = c;
              not_revoked = d;
              creds = creds;
              node_known = known;
              signed = signed;
              fresh = (prune-IsFresh v.max_skew instant envelope.operation_id _).0 fresh;
              decoded = decoded;
              safe = (inspect_safety_iff command).0 safe;
            }
      ]

      accepted :
          IsGenuine now instant envelope v command
          → (validate_and_unpack wire now instant envelope v).0 ≡ ok command
      accepted g =
          rw (validate_and_unpack, genuine_authenticates now instant envelope v command g)
            (genuine_processed now instant envelope v command g)
