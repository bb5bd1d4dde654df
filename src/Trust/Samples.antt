-- ===== src/Trust/Samples.antt =====
-- A trust store that holds the sample key ring.
use certael_agent.Protocol.Samples.{key}
use certael_agent.Prelude.Int.{pos}
use certael_agent.Text.{text}
use certael_agent.Trust.{TrustTools}
use certael_agent.Prelude.{[], ◌∷◌, false, some, true}

abbrev pub trust_tools : TrustTools
trust_tools = record {
  parse = λ b. some (
      record {
        key_id = text "k";
        public_key_hex = text "9";
        not_before_unix = pos 0;
        not_after_unix = pos 5000;
        revoked = false;
      }
      ∷ []);
  hex = record { encode = λ b. text "9"; decode = λ t. some key };
  is_key = λ b. true;
}
