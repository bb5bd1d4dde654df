-- ===== src/Protocol/Compatibility/Decision.antt =====
-- What `validate_compatibility_manifest` promises of the product rules.
use mathlib.Core.Path.{subst}
use certael_agent.Prelude.{
  sym, All-Mem, any-false, >>=-eq-ok, ◌==◌, ℕ, ◌≤◌, true, false, List, [], ◌∷◌, ◌≡◌, inl, inr, refl,
  arith, any, same, some, ok, All, Memᴰ, Bool-cases, Option-cases,
}
use certael_agent.Prelude.Int.{ℤ, pos, negsuc}
use certael_agent.Protocol.External.{Semver}
use certael_agent.Protocol.Registration.{
  CertaelProductV1, CompatibilityProductRuleV1, CompatibilityManifestClaimsV1,
}
use certael_agent.Protocol.Compatibility.{
  product_code, product_of, is_code, check_rule, check_rules, validate_compatibility_manifest,
}
use certael_agent.Protocol.Compatibility.Evaluate.{find_rule}

-- A code that `try_from` reads is the code of the product that it gives.
is_code-product_of :
    (z : ℤ) (p : CertaelProductV1) (k : ℕ)
    → product_of z ≡ some p
    → is_code z k ≡ (product_code p == k)
unfolding product_of is_code product_code
is_code-product_of (pos n) p k h = ground arith
is_code-product_of (negsuc n) p k h = cc

module _ (v : Semver) where
  -- What a validated rule promises.
  pub record IsSound (r : CompatibilityProductRuleV1) : Type 0 where
    pub minimum : v.Version
    pub recommended : v.Version
    pub minimum_read : v.parse r.minimum_supported_version ≡ some minimum
    pub recommended_read : v.parse r.recommended_version ≡ some recommended
    pub ordered : v.lt recommended minimum ≡ false
    pub protocols : r.minimum_protocol_version ≤ r.maximum_protocol_version

  check_rule-IsSound :
      (seen : List ℕ) (r : CompatibilityProductRuleV1) (seen' : List ℕ)
      → check_rule v seen r ≡ ok seen'
      → IsSound r
        × ((p : CertaelProductV1) × (product_of r.product ≡ some p)
            × (any (λ j. j == product_code p) seen ≡ false)
            × (seen' ≡ product_code p ∷ seen))
  unfolding check_rule
  check_rule-IsSound seen r seen' h = elim (Option-cases (product_of r.product)) [
    | inl e ↦ absurd (ground arith)
    | inr (p, ep) ↦ elim (Option-cases (v.parse r.minimum_supported_version)) [
      | inl e ↦ absurd (ground arith)
      | inr (m, em) ↦ elim (Option-cases (v.parse r.recommended_version)) [
        | inl e ↦ absurd (ground arith)
        | inr (n, en) ↦ (
          record {
            minimum = m;
            recommended = n;
            minimum_read = em;
            recommended_read = en;
            ordered = ground arith;
            protocols = ground arith;
          },
          (p, ep, ground arith, ground arith),
        )
      ]
    ]
  ]

  -- A code that was seen before is no later rule's.
  check_rules-seen :
      (j : ℕ) (seen : List ℕ) (rs : List CompatibilityProductRuleV1)
      → Memᴰ j seen
      → check_rules v seen rs ≡ ok tt
      → All (λ r. is_code r.product j ≡ false) rs
  unfolding check_rules
  check_rules-seen j seen [] m h = tt
  check_rules-seen j seen (r ∷ rs) m h =
      let (seen', first, rest) = >>=-eq-ok (check_rule v seen r) (λ s. check_rules v s rs) h in
      let (_, (p, ep, new, e)) = check_rule-IsSound seen r seen' first in
      let apart : (j == product_code p) ≡ false =
        any-false (λ i. i == product_code p) j seen m new in
      (
        ground (arith, is_code-product_of r.product p j),
        check_rules-seen j seen' rs (rw e (Memᴰ.tail m)) rest,
      )

  -- The rule that is found for a code is the one listed rule with that code, and it is sound.
  pub check_rules-find :
      (k : ℕ) (seen : List ℕ) (rs : List CompatibilityProductRuleV1)
      (r : CompatibilityProductRuleV1)
      → check_rules v seen rs ≡ ok tt
      → Memᴰ r rs
      → is_code r.product k ≡ true
      → (find_rule k rs ≡ some r) × IsSound r
  unfolding check_rules find_rule
  check_rules-find k seen [] r h m e = elim m [ ]
  check_rules-find k seen (c ∷ rs) r h (Memᴰ.head same) e =
      let (seen', first, rest) = >>=-eq-ok (check_rule v seen c) (λ s. check_rules v s rs) h in
      let (sound, _) = check_rule-IsSound seen c seen' first in
      (ground arith, subst IsSound (sym same) sound)
  check_rules-find k seen (c ∷ rs) r h (Memᴰ.tail m) e =
      let (seen', first, rest) = >>=-eq-ok (check_rule v seen c) (λ s. check_rules v s rs) h in
      let (_, (p, ep, new, grown)) = check_rule-IsSound seen c seen' first in
      let (found, sound) = check_rules-find k seen' rs r rest m e in
      let other : is_code r.product (product_code p) ≡ false =
        All-Mem (λ d. is_code d.product (product_code p) ≡ false) r rs m
          (check_rules-seen (product_code p) seen' rs (rw grown (Memᴰ.head refl)) rest) in
      let apart : is_code c.product k ≡ false =
        ground (arith, is_code-product_of c.product p k ep) in
      (rw apart found, sound)

  pub find_rule-Mem :
      (k : ℕ) (rs : List CompatibilityProductRuleV1) (r : CompatibilityProductRuleV1)
      → find_rule k rs ≡ some r
      → Memᴰ r rs × (is_code r.product k ≡ true)
  unfolding find_rule
  find_rule-Mem k [] r h = cc
  find_rule-Mem k (c ∷ rs) r h = elim (Bool-cases (is_code c.product k)) [
    | inl e ↦ let first : c ≡ r = ground arith in (Memᴰ.head (sym first), ground arith)
    | inr e ↦ let (m, p) = find_rule-Mem k rs r (ground arith) in (Memᴰ.tail m, p)
  ]

  pub validate_compatibility_manifest-rules :
      (m : CompatibilityManifestClaimsV1) (now : ℤ)
      → validate_compatibility_manifest v m now ≡ ok tt
      → check_rules v [] m.products ≡ ok tt
  unfolding validate_compatibility_manifest
  validate_compatibility_manifest-rules m now h = ground arith
