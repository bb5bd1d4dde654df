-- ===== src/Protocol/Domains.antt =====
-- The signature domains of crates/certael-agent-protocol/src/lib.rs and `verify_signed_bytes`.
use certael_agent.Prelude.{
  Bool, true, false, not, ◌||◌, [], ◌∷◌, ◌++◌, ◌≡◌, ◌≢◌, refl, arith, ◌==◌, some, ok, ok_or,
  refuse_if, ◌>>=◌,
}
use certael_agent.Text.{Bytes, text}
use certael_agent.Protocol.Errors.{Checked, invalid_signature}
use certael_agent.Protocol.External.{Crypto}

pub data Domain : Type 0 where
  report launch policy build_manifest registration branding revocation compatibility : Domain

-- The constants REPORT_DOMAIN to COMPATIBILITY_DOMAIN; each ends in a zero byte.
unfoldable pub domain_bytes : Domain → Bytes
domain_bytes report = text "certael.agent.report.v1" ++ (0 ∷ [])
domain_bytes launch = text "certael.agent.launch.v1" ++ (0 ∷ [])
domain_bytes policy = text "certael.agent.policy.v1" ++ (0 ∷ [])
domain_bytes build_manifest = text "certael.agent.build-manifest.v1" ++ (0 ∷ [])
domain_bytes registration = text "certael.agent.registration.v1" ++ (0 ∷ [])
domain_bytes branding = text "certael.agent.branding.v1" ++ (0 ∷ [])
domain_bytes revocation = text "certael.agent.revocation.v1" ++ (0 ∷ [])
domain_bytes compatibility = text "certael.compatibility.v1" ++ (0 ∷ [])

-- The bytes that are signed for a claims object.
abbrev pub signed_message : Domain → Bytes → Bytes
signed_message d claims = domain_bytes d ++ claims

unfoldable pub verify_signed_bytes : Crypto → Domain → Bytes → Bytes → Bytes → Checked (Unit {0})
verify_signed_bytes x domain claims signature key =
    ok_or (x.signature_from_slice signature) invalid_signature >>= λ s.
    refuse_if (not (x.verify key (signed_message domain claims) s)) invalid_signature

-- Two byte strings that differ before either ends.
diverge : Bytes → Bytes → Bool
diverge (x ∷ xs) (y ∷ ys) = not (x == y) || diverge xs ys
diverge _ _ = false

diverge-ne : (xs ys a b : Bytes) → diverge xs ys ≡ true → xs ++ a ≢ ys ++ b
unfolding diverge
diverge-ne [] ys a b h e = cc
diverge-ne (x ∷ xs) [] a b h e = cc
diverge-ne (x ∷ xs) (y ∷ ys) a b h e = ground (arith, diverge-ne xs ys a b)

-- Every two domains are equal or differ before either ends.
domain_table : (d e : Domain) → (d ≢ e → diverge (domain_bytes d) (domain_bytes e) ≡ true)
unfolding domain_bytes diverge
domain_table report report h = absurd (h refl)
domain_table launch launch h = absurd (h refl)
domain_table policy policy h = absurd (h refl)
domain_table build_manifest build_manifest h = absurd (h refl)
domain_table registration registration h = absurd (h refl)
domain_table branding branding h = absurd (h refl)
domain_table revocation revocation h = absurd (h refl)
domain_table compatibility compatibility h = absurd (h refl)
domain_table _ _ h = refl

Domain-discrete : Discrete Domain
Domain-discrete = hlevel

append_cancel : (xs a b : Bytes) → xs ++ a ≡ xs ++ b → a ≡ b
append_cancel [] a b h = h
append_cancel (x ∷ xs) a b h = append_cancel xs a b (cc)

-- Domain separation: the bytes signed for one kind of object, whatever its claims, are never those
-- signed for another kind, and within a kind they determine the claims.
pub signed_message-injective :
    (d e : Domain) (a b : Bytes) → signed_message d a ≡ signed_message e b → (d ≡ e) × (a ≡ b)
signed_message-injective d e a b h = elim (Domain-discrete d e) [
  | yes p ↦ (p, append_cancel (domain_bytes d) a b (cc))
  | no n ↦ absurd (diverge-ne (domain_bytes d) (domain_bytes e) a b (domain_table d e n) h)
]

-- What `verify_signed_bytes` accepts is a well-formed signature that the key verifies.
pub verify_signed_bytes-ok :
    (x : Crypto) (d : Domain) (claims signature key : Bytes)
    → verify_signed_bytes x d claims signature key ≡ ok tt
    → (s : Bytes) × (x.signature_from_slice signature ≡ some s)
      × (x.verify key (signed_message d claims) s ≡ true)
unfolding verify_signed_bytes
verify_signed_bytes-ok x d claims signature key h = ground arith
