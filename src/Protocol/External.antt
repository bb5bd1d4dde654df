-- ===== src/Protocol/External.antt =====
-- The code that the Agent calls and this repository does not hold: SHA-256 (sha2), Ed25519
-- (ed25519-dalek), Protobuf (prost) and versions (semver). Each is a parameter of the model.
use certael_agent.Prelude.{◌≡◌, Bool, true, false, Option, some, length}
use certael_agent.Text.{Bytes, Text}

-- Keys are their 32 bytes, as `as_bytes` and `from_bytes` give them.
pub record Crypto : Type 0 where
  -- Sha256::digest
  pub sha256 : Bytes → Bytes
  -- SigningKey::verifying_key
  pub verifying_key : Bytes → Bytes
  -- SigningKey::sign(message).to_bytes()
  pub sign : Bytes → Bytes → Bytes
  -- Signature::from_slice
  pub signature_from_slice : Bytes → Option Bytes
  -- VerifyingKey::verify(message, signature).is_ok()
  pub verify : Bytes → Bytes → Bytes → Bool

-- What the crates document: a digest has 32 bytes, a signature 64; a signature's bytes are read
-- back, and a signature that a key made verifies under its public half.
pub record CryptoLaws (c : Crypto) : Type 0 where
  pub length-sha256 : (m : Bytes) → length (c.sha256 m) ≡ 32
  pub length-sign : (k m : Bytes) → length (c.sign k m) ≡ 64
  pub from_slice-sign : (k m : Bytes) → c.signature_from_slice (c.sign k m) ≡ some (c.sign k m)
  pub verify-sign : (k m : Bytes) → c.verify (c.verifying_key k) m (c.sign k m) ≡ true

-- prost::Message for one message type: `M::decode(..).ok()` and `encode_to_vec`.
pub record Codec (M : Type 0) : Type 0 where
  pub decode : Bytes → Option M
  pub encode : M → Bytes

-- prost documents that decoding what was encoded gives the message back.
pub record CodecLaws {M : Type 0} (c : Codec M) : Type 0 where
  pub decode-encode : (m : M) → c.decode (c.encode m) ≡ some m

-- semver::Version, with its parser and its strict order.
pub record Semver : Type 1 where
  pub Version : Type 0
  pub parse : Text → Option Version
  pub lt : Version → Version → Bool

-- The order of versions is a strict total order.
pub record SemverLaws (s : Semver) : Type 0 where
  pub irreflexive : (a : s.Version) → s.lt a a ≡ false
  pub transitive : (a b c : s.Version) → s.lt a b ≡ true → s.lt b c ≡ true → s.lt a c ≡ true
  pub total : (a b : s.Version) → s.lt a b ≡ false → s.lt b a ≡ false → a ≡ b
