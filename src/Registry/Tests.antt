-- ===== src/Registry/Tests.antt =====
-- An update that is interrupted between its renames, and a registration that is installed and loaded.
use certael_agent.Trust.Samples.{trust_tools}
use certael_agent.Protocol.Samples.{one_message, codecs, digest_of, key, toy_crypto, game, toy_sign}
use certael_agent.Registry.Atomic.{install_slots-IsAtomic}
use certael_agent.Files.{plain}
use certael_agent.Protocol.Registration.{SignedGameRegistrationV1, GameRegistrationClaimsV1}
use certael_agent.Prelude.{[], ◌∷◌, ◌≡◌, ok, none, some, refl, true, false}
use certael_agent.Text.{replace, text, Bytes}
use certael_agent.Registry.Recovery.{current, recover_registration-current, IsAtomic}
use certael_agent.Protocol.Domains.{registration, signed_message}
use certael_agent.Registry.Install.{
  recovered_then, clean, install_recovered, RecoverRun, Slots, install_at, swap,
  recover_registration, install_slots, InstallRun,
}
use certael_agent.Registry.{
  InstallRegistrationArgs, InstalledRoot, RegistryTools, Dir, Verified, StoredRegistration,
}

abbrev no_dir : Dir
no_dir = record {
  registration = none;
  trust_store = none;
  update_root = none;
  icon = none;
  hero = none;
}

abbrev dir : Bytes → Dir
dir b = record no_dir { registration = some (plain b) }

abbrev quick : RecoverRun
quick = record { renamed = true; removed = true; left = no_dir }

-- The old registration was moved away; then the new one could not be moved in, nor the old one back.
abbrev torn : InstallRun
torn = record {
  partial = no_dir ∷ [];
  staged = true;
  unfinished = none;
  retired = true;
  activated = false;
  restored = false;
  removing = [];
  removed = true;
  left = none;
  cleaning = no_dir ∷ [];
  cleaned = none;
}

abbrev before : Slots
before = record { destination = some (dir (1 ∷ [])); backup = none; temporary = none }

torn_last :
    (install_slots quick torn (some (dir (2 ∷ []))) true before).last
    ≡ record { destination = none; backup = some (dir (1 ∷ [])); temporary = none }
unfolding install_slots recover_registration recovered_then install_recovered install_at swap clean
torn_last = refl

install_slots-IsAtomic_example :
    IsAtomic
      (some (dir (1 ∷ [])))
      (some (dir (2 ∷ [])))
      (install_slots quick torn (some (dir (2 ∷ []))) true before)
install_slots-IsAtomic_example = install_slots-IsAtomic quick torn (some (dir (2 ∷ []))) true before

abbrev torn_slots : Slots
torn_slots = record { destination = none; backup = some (dir (1 ∷ [])); temporary = none }

recover_registration-current_example :
    (current (recover_registration quick torn_slots).1 ≡ some (dir (1 ∷ [])))
    × ((recover_registration quick torn_slots).0 ≡ ok tt
        → ((recover_registration quick torn_slots).1.destination ≡ some (dir (1 ∷ [])))
          × ((recover_registration quick torn_slots).1.backup ≡ none)
          × (recover_registration quick (recover_registration quick torn_slots).1
              ≡ (ok tt, (recover_registration quick torn_slots).1)))
recover_registration-current_example = recover_registration-current quick quick torn_slots

abbrev the_signature : Bytes
the_signature = toy_sign key (signed_message registration (7 ∷ []))

abbrev signed_game : SignedGameRegistrationV1
signed_game = record { claims = 7 ∷ []; signature = the_signature; key_id = text "k" }

abbrev installed_root : InstalledRoot
installed_root = record {
  canonical = text "/g";
  is_dir = true;
  executable = λ p. some (record { inside = true; is_file = true });
}

abbrev bound_game : GameRegistrationClaimsV1
bound_game = record game {
  trust_store_sha256 = digest_of (1 ∷ 2 ∷ []);
  update_root_sha256 = digest_of (3 ∷ []);
}

abbrev stored_game : StoredRegistration
stored_game = record {
  format_version = 2;
  signed_registration_base64 = 4 ∷ [];
  game_root = text "/g";
  signed_branding_base64 = none;
}

abbrev tools : RegistryTools
tools = record {
  crypto = toy_crypto;
  codecs = record codecs { registration_claims = one_message bound_game (7 ∷ []) };
  signed_registration = one_message signed_game (4 ∷ []);
  trust = trust_tools;
  parse = λ b. some stored_game;
  print = λ s. some (6 ∷ []);
  base64_encode = λ b. b;
  base64_decode = λ t. some t;
}

abbrev args : InstallRegistrationArgs
args = record {
  signed_registration = some (plain (4 ∷ []));
  publisher_trust_store = some (plain (1 ∷ 2 ∷ []));
  update_root = some (plain (3 ∷ []));
  game_root = some installed_root;
  branding = ok none;
  replace = false;
}

abbrev verified : Verified
verified = record {
  claims = bound_game;
  registration_bytes = 4 ∷ [];
  trust_bytes = 1 ∷ 2 ∷ [];
  update_bytes = 3 ∷ [];
  root = installed_root;
  branding = none;
}
