-- ===== src/Protocol/KeyRing.antt =====
-- `VerificationKey`, `VerificationKeyRing::new` and `resolve`.
pub mod Lookup
use certael_agent.Prelude.{
  ℕ, ◌+◌, Bool, true, false, not, ◌&&◌, ◌||◌, List, [], ◌∷◌, ◌++◌, ◌≡◌, ◌≢◌, ◌↔◌, refl, ap, sym,
  arith, ltb, same, is_empty, any, Option, none, some, ok, err, ok_or, refuse_if, ◌>>=◌, ◌>>◌,
  if◌then◌else◌, eq_of_same, same_refl, same_of_eq, Bool-cases, inl, inr, All,
}
use certael_agent.Prelude.Int.{ℤ, leb_ℤ, ltb_ℤ, ◌≤ℤ◌, ◌<ℤ◌}
use certael_agent.Text.{Text, Bytes, len}
use certael_agent.Protocol.Errors.{Checked, invalid_field, unknown_key}

pub record VerificationKey : Type 0 where
  pub key_id : Text
  pub key : Bytes
  pub not_before_unix : ℤ
  pub not_after_unix : ℤ
  pub revoked : Bool

pub record VerificationKeyRing : Type 0 where
  pub keys : List VerificationKey

unfoldable pub unusable : VerificationKey → Bool
unusable k = is_empty k.key_id || ltb 128 (len k.key_id) || leb_ℤ k.not_after_unix k.not_before_unix

-- `for (index, key) in keys.iter().enumerate()`: is a key's id among the ids before it? The list
-- `seen` is `keys[..index]`.
unfoldable pub duplicate_id : List VerificationKey → List VerificationKey → Bool
duplicate_id seen [] = false
duplicate_id seen (k ∷ ks) =
    any (λ c. same c.key_id k.key_id) seen || duplicate_id (seen ++ (k ∷ [])) ks

unfoldable pub new : List VerificationKey → Checked VerificationKeyRing
new keys =
    refuse_if (is_empty keys || any unusable keys) (invalid_field "verification_keys")
    >> refuse_if (duplicate_id [] keys) (invalid_field "duplicate_key_id")
    >> ok (record { keys = keys })

unfoldable pub find : Text → List VerificationKey → Option VerificationKey
find id [] = none
find id (k ∷ ks) = if same k.key_id id then some k else find id ks

-- `key.revoked || now < not_before || now >= not_after`
unfoldable pub inactive : VerificationKey → ℤ → Bool
inactive k now = k.revoked || ltb_ℤ now k.not_before_unix || leb_ℤ k.not_after_unix now

unfoldable pub resolve : VerificationKeyRing → Text → ℤ → Checked Bytes
resolve ring id now = ok_or (find id ring.keys) unknown_key >>= λ k.
    refuse_if (inactive k now) unknown_key >> ok k.key

-- The key is not revoked and `now` lies in its window.
pub record IsActive (k : VerificationKey) (now : ℤ) : Type 0 where
  pub trusted : k.revoked ≡ false
  pub begun : k.not_before_unix ≤ℤ now
  pub lasting : now <ℤ k.not_after_unix

pub inactive-IsActive : (k : VerificationKey) (now : ℤ) → inactive k now ≡ false → IsActive k now
unfolding inactive
inactive-IsActive k now h = ground arith

pub IsActive-inactive : (k : VerificationKey) (now : ℤ) → IsActive k now → inactive k now ≡ false
unfolding inactive
IsActive-inactive k now h = ground arith
