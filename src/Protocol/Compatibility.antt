-- ===== src/Protocol/Compatibility.antt =====
-- `validate_compatibility_manifest` and `evaluate_compatibility`.
pub mod Evaluate
pub mod Decision
pub mod Admission
use certael_agent.Prelude.{
  ℕ, Bool, true, false, not, ◌||◌, List, [], ◌∷◌, length, is_empty, any, ltb, ◌==◌, if◌then◌else◌,
  ok, refuse_if, ok_or, ◌>>=◌, ◌>>◌, Option, none, some,
}
use certael_agent.Prelude.Int.{ℤ, pos, negsuc, leb_ℤ, ltb_ℤ, add_i64, sub_i64}
use certael_agent.Protocol.Errors.{Checked, invalid_field}
use certael_agent.Protocol.External.{Semver}
use certael_agent.Protocol.Registration.{
  CertaelProductV1, unspecified, core, agent, godot_adapter, unity_adapter, unreal_adapter,
  dot_net_server_sdk, native_server_sdk, CompatibilityProductRuleV1, CompatibilityRevocationV1,
  CompatibilityManifestClaimsV1,
}
use certael_agent.Protocol.Fields.{identifier}

-- `product as i32`
unfoldable pub product_code : CertaelProductV1 → ℕ
product_code unspecified = 0
product_code core = 1
product_code agent = 2
product_code godot_adapter = 3
product_code unity_adapter = 4
product_code unreal_adapter = 5
product_code dot_net_server_sdk = 6
product_code native_server_sdk = 7

-- CertaelProductV1::try_from
unfoldable pub product_of : ℤ → Option CertaelProductV1
product_of (negsuc n) = none
product_of (pos n) =
    if n == 0
    then some unspecified
    else if n == 1
    then some core
    else if n == 2
    then some agent
    else if n == 3
    then some godot_adapter
    else if n == 4
    then some unity_adapter
    else if n == 5
    then some unreal_adapter
    else if n == 6
    then some dot_net_server_sdk
    else if n == 7
    then some native_server_sdk
    else none

-- Is this the code of the product? (`i32` equality)
unfoldable pub is_code : ℤ → ℕ → Bool
is_code (pos n) k = n == k
is_code (negsuc n) k = false

unfoldable pub header_malformed : CompatibilityManifestClaimsV1 → ℤ → Bool
header_malformed c now =
    not (c.schema_version == 1)
    || c.revision == 0
    || is_empty c.products
    || ltb 64 (length c.products)
    || ltb 4096 (length c.revocations)
    || ltb_ℤ (add_i64 now (pos 300)) c.issued_at_unix
    || leb_ℤ c.expires_at_unix now
    || leb_ℤ c.expires_at_unix c.issued_at_unix
    || ltb_ℤ (pos 2764800) (sub_i64 c.expires_at_unix c.issued_at_unix)

abbrev is_unspecified : CertaelProductV1 → Bool
is_unspecified unspecified = true
is_unspecified _ = false

-- The set of product codes seen so far.
unfoldable pub code_seen : ℕ → List ℕ → Bool
code_seen k seen = any (λ j. j == k) seen

module _ (v : Semver) where
  -- One round of the loop over the product rules: the set with this product's code inserted.
  unfoldable pub check_rule : List ℕ → CompatibilityProductRuleV1 → Checked (List ℕ)
  unfolding code_seen product_code
  check_rule seen rule =
      ok_or (product_of rule.product) (invalid_field "compatibility_product") >>= λ product.
      refuse_if (is_unspecified product) (invalid_field "compatibility_product")
      >> (ok_or (v.parse rule.minimum_supported_version) (invalid_field "compatibility_version")
          >>= λ minimum.
              ok_or (v.parse rule.recommended_version) (invalid_field "compatibility_version")
              >>= λ recommended.
                  refuse_if
                    (code_seen (product_code product) seen
                      || v.lt recommended minimum
                      || rule.minimum_protocol_version == 0
                      || ltb rule.maximum_protocol_version rule.minimum_protocol_version)
                    (invalid_field "compatibility_product")
                  >> ok (product_code product ∷ seen))

  unfoldable pub check_rules : List ℕ → List CompatibilityProductRuleV1 → Checked (Unit {0})
  check_rules seen [] = ok tt
  check_rules seen (rule ∷ rules) = check_rule seen rule >>= λ seen'. check_rules seen' rules

  abbrev named_product : Option CertaelProductV1 → Bool
  named_product none = false
  named_product (some p) = not (is_unspecified p)

  abbrev no_version : Option v.Version → Bool
  no_version none = true
  no_version (some w) = false

  unfoldable pub bad_revocation : CompatibilityManifestClaimsV1 → CompatibilityRevocationV1 → Bool
  bad_revocation c r =
      not (named_product (product_of r.product))
      || no_version (v.parse r.version)
      || not (identifier r.reason)
      || ltb_ℤ r.effective_at_unix (sub_i64 c.issued_at_unix (pos 86400))
      || ltb_ℤ c.expires_at_unix r.effective_at_unix

  unfoldable pub validate_compatibility_manifest :
      CompatibilityManifestClaimsV1 → ℤ → Checked (Unit {0})
  unfolding header_malformed bad_revocation
  validate_compatibility_manifest c now =
      refuse_if (header_malformed c now) (invalid_field "compatibility_manifest")
      >> check_rules [] c.products
      >> refuse_if (any (bad_revocation c) c.revocations) (invalid_field "compatibility_revocation")
