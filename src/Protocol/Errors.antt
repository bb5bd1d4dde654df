-- ===== src/Protocol/Errors.antt =====
-- `ProtocolError` and the constants of crates/certael-agent-protocol/src/lib.rs.
use certael_agent.Prelude.{ℕ, String, Result}

pub data ProtocolError : Type 0 where
  too_large empty invalid_signature decode expired unknown_key non_canonical : ProtocolError
  invalid_field : String → ProtocolError
  launch_bundle_component : String → ProtocolError → ProtocolError

abbrev pub Checked : Type 0 → Type 0
Checked A = Result ProtocolError A

abbrev pub protocol_version : ℕ
protocol_version = 1

abbrev pub max_message_bytes : ℕ
max_message_bytes = 65536
