-- ===== src/Trust.antt =====
-- crates/certael-agent/src/trust.rs: the trust store, a file of keys.
pub mod Loaded
pub mod Samples
mod Tests
use certael_agent.Prelude.Int.{ℤ}
use certael_agent.Files.{FileNode}
use certael_agent.Platform.{Hex}
use certael_agent.Text.{Text, Bytes}
use certael_agent.Prelude.{
  ◌>>◌, ◌>>=◌, [], ◌==◌, ◌||◌, ◌∷◌, length, map_err, not, Bool, ok, Result, ok_or, String, Option,
  List, ltb, refuse_if,
}
use certael_agent.Protocol.KeyRing.{new, VerificationKeyRing, VerificationKey}

pub record TrustKeyFile : Type 0 where
  pub key_id : Text
  pub public_key_hex : Text
  pub not_before_unix : ℤ
  pub not_after_unix : ℤ
  pub revoked : Bool

-- serde_json for a trust store, hex, and ed25519_dalek's test of a public key.
pub record TrustTools : Type 0 where
  pub parse : Bytes → Option (List TrustKeyFile)
  pub hex : Hex
  pub is_key : Bytes → Bool

module _ (x : TrustTools) where
  unfoldable pub read_key : TrustKeyFile → Result String VerificationKey
  read_key value =
      ok_or (x.hex.decode value.public_key_hex) "Agent trust key is not valid hexadecimal"
      >>= λ raw.
          refuse_if (not (length raw == 32)) "Agent trust key must be 32 bytes"
          >> refuse_if (not (x.is_key raw)) "Agent trust key is invalid"
          >> ok (record {
            key_id = value.key_id;
            key = raw;
            not_before_unix = value.not_before_unix;
            not_after_unix = value.not_after_unix;
            revoked = value.revoked;
          })

  unfoldable pub read_keys : List TrustKeyFile → Result String (List VerificationKey)
  unfolding read_key
  read_keys [] = ok []
  read_keys (value ∷ values) = read_key value >>= λ k. read_keys values >>= λ ks. ok (k ∷ ks)

  unfoldable pub load : Option FileNode → Result String VerificationKeyRing
  unfolding read_keys new
  load file = ok_or file "Agent trust store does not exist" >>= λ f.
      refuse_if (not f.is_file || f.is_link || ltb 65536 f.size)
        "Agent trust store must be a regular file no larger than 64 KiB"
      >> refuse_if f.shared "Agent trust store must not be group- or world-writable"
      >> (ok_or f.content "cannot read Agent trust store" >>= λ b.
          ok_or (x.parse b) "Agent trust store is not valid JSON" >>= λ values.
          read_keys values >>= λ keys. map_err (new keys) (λ e. "Agent trust store is invalid"))
