-- ===== src/Registry/Reload.antt =====
-- What is loaded of a registration that was installed.
use certael_agent.Protocol.Registration.{SignedGameRegistrationV1}
use certael_agent.Prelude.Int.{ℤ}
use certael_agent.Registry.{
  GameExecutable, unbound, max_root_bytes, InstallRegistrationArgs, Verified, RegistryTools,
  decode_signed, verify_with,
}
use certael_agent.Files.{read_regular}
use certael_agent.Text.{Text}
use certael_agent.Prelude.{false, ◌||◌, ◌≡◌, some, not, ok}

module _ (x : RegistryTools) where
  -- What the checks of an installation found.
  record Passed (args : InstallRegistrationArgs) (now : ℤ) (v : Verified) : Type 0 where
    signed : SignedGameRegistrationV1
    decoded : decode_signed x v.registration_bytes ≡ ok signed
    verified : verify_with x signed args.publisher_trust_store now ≡ ok v.claims
    trust_read : read_regular args.publisher_trust_store max_root_bytes ≡ ok v.trust_bytes
    update_read : read_regular args.update_root max_root_bytes ≡ ok v.update_bytes
    bound : unbound x v.trust_bytes v.update_bytes v.claims ≡ false
    game : GameExecutable
    found : v.root.executable v.claims.executable_relative_path ≡ some game
    safe : (not game.inside || not game.is_file) ≡ false
