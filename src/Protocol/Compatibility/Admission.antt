-- ===== src/Protocol/Compatibility/Admission.antt =====
-- What an evaluation over a validated manifest decides, and that it never panics.
use certael_agent.Prelude.{
  ◌≢◌, [], ℕ, true, false, any, none, some, ok, Memᴰ, ◌≡◌, ◌↔◌, ◌≤◌, arith, inl, inr, Option-cases,
}
use certael_agent.Prelude.Int.{ℤ, ◌≤ℤ◌, ◌<ℤ◌}
use certael_agent.Text.{Text}
use certael_agent.Protocol.External.{Semver}
use certael_agent.Protocol.Registration.{
  CertaelProductV1, CompatibilityProductRuleV1, CompatibilityManifestClaimsV1,
  CompatibilityDecisionV1,
}
use certael_agent.Protocol.Compatibility.{product_code, is_code, validate_compatibility_manifest}
use certael_agent.Protocol.Compatibility.Evaluate.{
  find_rule, revokes, evaluate_compatibility, allows_new_protected_session,
}
use certael_agent.Protocol.Compatibility.Decision.{
  IsSound, check_rules-find, find_rule-Mem, validate_compatibility_manifest-rules,
}

module _ (v : Semver) where
  -- When a new protected session may start: the manifest is in its window, the version is readable
  -- and not withdrawn, and the listed rule for the product accepts the protocol and the version.
  pub record IsAdmitted (m : CompatibilityManifestClaimsV1) (product : CertaelProductV1)
      (version : Text) (protocol : ℕ) (now : ℤ) : Type 0 where
    pub begun : m.issued_at_unix ≤ℤ now
    pub lasting : now <ℤ m.expires_at_unix
    pub current : v.Version
    pub current_read : v.parse version ≡ some current
    pub not_withdrawn : any (revokes (product_code product) version now) m.revocations ≡ false
    pub rule : CompatibilityProductRuleV1
    pub listed : Memᴰ rule m.products
    pub for_product : is_code rule.product (product_code product) ≡ true
    pub protocol_at_least : rule.minimum_protocol_version ≤ protocol
    pub protocol_at_most : protocol ≤ rule.maximum_protocol_version
    pub minimum : v.Version
    pub minimum_read : v.parse rule.minimum_supported_version ≡ some minimum
    pub new_enough : v.lt current minimum ≡ false

  module _ (m : CompatibilityManifestClaimsV1) (validated_at : ℤ)
      (valid : validate_compatibility_manifest v m validated_at ≡ ok tt)
      (product : CertaelProductV1) (version : Text) (protocol : ℕ) (now : ℤ) where
    IsSound-rule :
        (r : CompatibilityProductRuleV1)
        → Memᴰ r m.products
        → is_code r.product (product_code product) ≡ true
        → (find_rule (product_code product) m.products ≡ some r) × IsSound v r
    IsSound-rule r listed e =
        check_rules-find v (product_code product) [] m.products r
          (validate_compatibility_manifest-rules v m validated_at valid) listed e

    never_panics : evaluate_compatibility v (some m) product version protocol now ≢ none
    unfolding evaluate_compatibility allows_new_protected_session
    never_panics h = elim (Option-cases (v.parse version)) [
      | inl e ↦ ground arith
      | inr (c, e) ↦ elim (Option-cases (find_rule (product_code product) m.products)) [
        | inl n ↦ ground arith
        | inr (r, f) ↦
            let (listed, k) = find_rule-Mem v (product_code product) m.products r f in
            let (_, sound) = IsSound-rule r listed k in
            ground (arith, sound.minimum_read, sound.recommended_read)
      ]
    ]

    IsAdmitted-of_allows :
        (d : CompatibilityDecisionV1)
        → evaluate_compatibility v (some m) product version protocol now ≡ some d
        → allows_new_protected_session d ≡ true
        → IsAdmitted m product version protocol now
    unfolding evaluate_compatibility allows_new_protected_session
    IsAdmitted-of_allows d h a = elim (Option-cases (v.parse version)) [
      | inl e ↦ absurd (ground arith)
      | inr (c, e) ↦ elim (Option-cases (find_rule (product_code product) m.products)) [
        | inl n ↦ absurd (ground arith)
        | inr (r, f) ↦
            let (listed, k) = find_rule-Mem v (product_code product) m.products r f in
            let (_, sound) = IsSound-rule r listed k in
            let low = sound.minimum_read in
            let high = sound.recommended_read in
            record {
              begun = ground (arith, low, high);
              lasting = ground (arith, low, high);
              current = c;
              current_read = e;
              not_withdrawn = ground (arith, low, high);
              rule = r;
              listed = listed;
              for_product = k;
              protocol_at_least = ground (arith, low, high);
              protocol_at_most = ground (arith, low, high);
              minimum = sound.minimum;
              minimum_read = low;
              new_enough = ground (arith, low, high);
            }
      ]
    ]

    allows_of_admitted :
        (d : CompatibilityDecisionV1)
        → evaluate_compatibility v (some m) product version protocol now ≡ some d
        → IsAdmitted m product version protocol now
        → allows_new_protected_session d ≡ true
    unfolding evaluate_compatibility allows_new_protected_session
    allows_of_admitted d h a =
        let (found, sound) = IsSound-rule a.rule a.listed a.for_product in
        ground (
          arith, found, a.begun, a.lasting, a.current_read, a.not_withdrawn, a.protocol_at_least,
          a.protocol_at_most, a.minimum_read, a.new_enough, sound.recommended_read,
        )

    -- Over a manifest that was validated, at any time, an evaluation returns a decision, whatever
    -- the product, version, protocol and time: the two `expect` calls never panic. And the decision
    -- allows a new protected session exactly when the manifest is in its window, the version can be
    -- read and is not withdrawn, and the rule listed for the product accepts protocol and version.
    pub evaluate_compatibility-decides :
        (d : CompatibilityDecisionV1) × (evaluate_compatibility v
            (some m)
            product
            version
            protocol
            now
          ≡ some d)
        × ((allows_new_protected_session d ≡ true) ↔ IsAdmitted m product version protocol now)
    evaluate_compatibility-decides =
        elim (Option-cases (evaluate_compatibility v (some m) product version protocol now)) [
          | inl e ↦ absurd (never_panics e)
          | inr (d, e) ↦ (d, e, (IsAdmitted-of_allows d e, allows_of_admitted d e))
        ]
