-- ===== src/Protocol/Compatibility/Evaluate.antt =====
-- `evaluate_compatibility`. The two `expect` calls may panic: `none` stands for a panic.
use certael_agent.Prelude.{
  ℕ, Bool, true, false, ◌&&◌, List, [], ◌∷◌, any, ltb, same, if◌then◌else◌, Option, none, some,
  String,
}
use certael_agent.Prelude.Int.{ℤ, leb_ℤ, ltb_ℤ}
use certael_agent.Text.{Text}
use certael_agent.Protocol.External.{Semver}
use certael_agent.Protocol.Registration.{
  CertaelProductV1, CompatibilityProductRuleV1, CompatibilityRevocationV1,
  CompatibilityManifestClaimsV1, CompatibilityStateV1, supported, deprecated, update_required,
  revoked, unknown, indeterminate, CompatibilityDecisionV1,
}
use certael_agent.Protocol.Compatibility.{product_code, is_code}

abbrev pub compatibility_decision :
    CompatibilityStateV1 → String → Option Text → ℕ → CompatibilityDecisionV1
compatibility_decision state reason version revision = record {
  state = state;
  public_reason = reason;
  recommended_version = version;
  manifest_revision = revision;
}

unfoldable pub find_rule : ℕ → List CompatibilityProductRuleV1 → Option CompatibilityProductRuleV1
unfolding is_code
find_rule k [] = none
find_rule k (r ∷ rs) = if is_code r.product k then some r else find_rule k rs

unfoldable pub revokes : ℕ → Text → ℤ → CompatibilityRevocationV1 → Bool
revokes k version now r =
    is_code r.product k && same r.version version && leb_ℤ r.effective_at_unix now

unfoldable pub fresh : CompatibilityManifestClaimsV1 → ℤ → Bool
fresh m now = leb_ℤ m.issued_at_unix now && ltb_ℤ now m.expires_at_unix

abbrev recommendation : Option CompatibilityProductRuleV1 → Option Text
recommendation none = none
recommendation (some r) = some r.recommended_version

abbrev revision_of : Option CompatibilityManifestClaimsV1 → ℕ
revision_of none = 0
revision_of (some m) = m.revision

module _ (v : Semver) where
  -- The last part: the protocol is in the rule's range, and the versions are compared.
  unfoldable pub compare_versions :
      v.Version → CompatibilityProductRuleV1 → ℕ → Option CompatibilityDecisionV1
  compare_versions current rule revision = elim (v.parse rule.minimum_supported_version) [
    | none ↦ none
    | some minimum ↦ elim (v.parse rule.recommended_version) [
      | none ↦ none
      | some recommended ↦ some (
          if v.lt current minimum
          then compatibility_decision update_required "VERSION_UPDATE_REQUIRED"
              (some rule.recommended_version) revision
          else if v.lt current recommended
          then compatibility_decision deprecated "VERSION_DEPRECATED"
              (some rule.recommended_version) revision
          else compatibility_decision supported "SUPPORTED" (some rule.recommended_version)
              revision)
    ]
  ]

  unfoldable pub apply_rule :
      v.Version → Option CompatibilityProductRuleV1 → ℕ → ℕ → Option CompatibilityDecisionV1
  unfolding compare_versions
  apply_rule current none protocol revision =
      some (compatibility_decision unknown "PRODUCT_UNKNOWN" none revision)
  apply_rule current (some rule) protocol revision =
      if ltb protocol rule.minimum_protocol_version
      then some (
          compatibility_decision update_required "PROTOCOL_UPDATE_REQUIRED"
            (some rule.recommended_version) revision)
      else if ltb rule.maximum_protocol_version protocol
      then some (
          compatibility_decision unknown "PROTOCOL_TOO_NEW" (some rule.recommended_version)
            revision)
      else compare_versions current rule revision

  -- The manifest is there and fresh.
  unfoldable pub evaluate_fresh :
      CompatibilityManifestClaimsV1
      → CertaelProductV1
      → Text
      → ℕ
      → ℤ
      → Option CompatibilityDecisionV1
  unfolding find_rule revokes apply_rule
  evaluate_fresh m product current_version protocol now = elim (v.parse current_version) [
    | none ↦ some (compatibility_decision unknown "VERSION_UNKNOWN" none m.revision)
    | some current ↦
        let rule = find_rule (product_code product) m.products in
        if any (revokes (product_code product) current_version now) m.revocations
        then some
            (compatibility_decision revoked "VERSION_REVOKED" (recommendation rule) m.revision)
        else apply_rule current rule protocol m.revision
  ]

  unfoldable pub evaluate_compatibility :
      Option CompatibilityManifestClaimsV1
      → CertaelProductV1
      → Text
      → ℕ
      → ℤ
      → Option CompatibilityDecisionV1
  unfolding evaluate_fresh fresh
  evaluate_compatibility none product current_version protocol now =
      some (compatibility_decision indeterminate "COMPATIBILITY_INDETERMINATE" none 0)
  evaluate_compatibility (some m) product current_version protocol now =
      if fresh m now
      then evaluate_fresh m product current_version protocol now
      else some (compatibility_decision indeterminate "COMPATIBILITY_INDETERMINATE" none m.revision)

-- CompatibilityDecisionV1::allows_new_protected_session
unfoldable pub allows_new_protected_session : CompatibilityDecisionV1 → Bool
allows_new_protected_session d = elim d.state [ supported ↦ true | deprecated ↦ true | _ ↦ false ]
