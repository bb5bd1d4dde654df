-- ===== src/Protocol/Validate/Lifetime.antt =====
-- How long a launch grant is valid.
use certael_agent.Protocol.Errors.{invalid_field, expired}
use certael_agent.Protocol.Messages.{AgentLaunchGrantClaimsV1}
use certael_agent.Protocol.Validate.{validate_launch_grant, grant_malformed}
use certael_agent.Prelude.{◌≡◌, false, refuse_if, ok, arith, >>=-eq-ok, refuse_if-eq-ok}
use certael_agent.Prelude.Int.{
  ◌≤ℤ◌, ◌<ℤ◌, ◌+ℤ◌, ◌-ℤ◌, sub_i64_lem, ℤ, sub_i64, IsI64, pos, add_i64_lem, leb_ℤ, add_i64, ltb_ℤ,
}

-- A valid launch grant has not expired, was issued no later than thirty seconds from now, and is
-- valid for more than zero and at most 120 seconds, as long as neither the deadline nor the
-- lifetime leaves the range of an i64.
pub validate_launch_grant_short :
    (c : AgentLaunchGrantClaimsV1) (now : ℤ)
    → IsI64 (c.expires_at_unix -ℤ c.issued_at_unix)
    → IsI64 (now +ℤ pos 30)
    → validate_launch_grant c now ≡ ok tt
    → (now <ℤ c.expires_at_unix)
      × (c.issued_at_unix ≤ℤ (now +ℤ pos 30))
      × (c.issued_at_unix <ℤ c.expires_at_unix)
      × ((c.expires_at_unix -ℤ c.issued_at_unix) ≤ℤ pos 120)
unfolding validate_launch_grant grant_malformed
validate_launch_grant_short c now lifetime deadline h =
    let (u, formed, lasting) =
      >>=-eq-ok (refuse_if (grant_malformed c now) (invalid_field "launch_grant"))
        (λ _. refuse_if (leb_ℤ c.expires_at_unix now) expired) h in
    let fine = refuse_if-eq-ok (grant_malformed c now) _ formed in
    let late = refuse_if-eq-ok (leb_ℤ c.expires_at_unix now) _ lasting in
    let issued : ltb_ℤ (add_i64 now (pos 30)) c.issued_at_unix ≡ false = ground (arith, fine) in
    let order : leb_ℤ c.expires_at_unix c.issued_at_unix ≡ false = ground (arith, fine) in
    let short : ltb_ℤ (pos 120) (sub_i64 c.expires_at_unix c.issued_at_unix) ≡ false =
      ground (arith, fine) in
    (
      ground (arith, late),
      ground (arith, rw (add_i64_lem now (pos 30) deadline) at issued),
      ground (arith, order),
      ground (arith, rw (sub_i64_lem c.expires_at_unix c.issued_at_unix lifetime) at short),
    )
