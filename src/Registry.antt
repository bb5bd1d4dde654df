-- ===== src/Registry.antt =====
-- crates/certael-agent/src/registry.rs: the registered games.
pub mod Install
pub mod Recovery
pub mod Atomic
pub mod Reload
mod Tests
use certael_agent.Status.{id_byte}
use certael_agent.Prelude.Int.{ℤ}
use certael_agent.Protocol.Verify.{verify_game_registration, Codecs}
use certael_agent.Trust.{TrustTools}
use certael_agent.Files.{plain, read_regular, FileNode}
use certael_agent.Protocol.Registration.{SignedGameRegistrationV1, GameRegistrationClaimsV1}
use certael_agent.Text.{len, bytes, Text, Bytes}
use certael_agent.Prelude.{
  ◌==◌, some, none, ◌>>◌, ◌>>=◌, ◌&&◌, ◌||◌, map_err, all, not, Bool, ok, same, Result, ok_or,
  String, Option, ℕ, leb, is_empty, refuse_if,
}
use certael_agent.Protocol.External.{Codec, Crypto}

pub record StoredRegistration : Type 0 where
  pub format_version : ℕ
  pub signed_registration_base64 : Text
  pub game_root : Text
  pub signed_branding_base64 : Option Text

-- serde_json for the stored record, base64, and prost for the signed registration.
pub record RegistryTools : Type 0 where
  pub crypto : Crypto
  pub codecs : Codecs
  pub signed_registration : Codec SignedGameRegistrationV1
  pub trust : TrustTools
  pub parse : Bytes → Option StoredRegistration
  pub print : StoredRegistration → Option Bytes
  pub base64_encode : Bytes → Text
  pub base64_decode : Text → Option Bytes

-- What the system says of a path below a game root: does its canonical form lie below the root, and is
-- that a regular file.
pub record GameExecutable : Type 0 where
  pub inside : Bool
  pub is_file : Bool

-- A game root in its canonical form.
pub record InstalledRoot : Type 0 where
  pub canonical : Text
  pub is_dir : Bool
  pub executable : Text → Option GameExecutable

-- The directory of one registration.
pub record Dir : Type 0 where
  pub registration : Option FileNode
  pub trust_store : Option FileNode
  pub update_root : Option FileNode
  pub icon : Option FileNode
  pub hero : Option FileNode

-- What `install_registration` is given. The branding, if any is asked for, is what
-- `branding::verify_install` returned: its signed bytes, the icon and the hero.
pub record Branding : Type 0 where
  pub signed : Bytes
  pub icon : Bytes
  pub hero : Option Bytes

-- An installation that passed its checks, with the bytes that are stored of it.
pub record Verified : Type 0 where
  pub claims : GameRegistrationClaimsV1
  pub registration_bytes : Bytes
  pub trust_bytes : Bytes
  pub update_bytes : Bytes
  pub root : InstalledRoot
  pub branding : Option Branding

pub record InstallRegistrationArgs : Type 0 where
  pub signed_registration : Option FileNode
  pub publisher_trust_store : Option FileNode
  pub update_root : Option FileNode
  pub game_root : Option InstalledRoot
  pub branding : Result String (Option Branding)
  pub replace : Bool

abbrev pub max_registration_bytes : ℕ
max_registration_bytes = 65536

abbrev pub max_root_bytes : ℕ
max_root_bytes = 1048576

unfoldable pub safe_id : Text → Bool
unfolding id_byte len
safe_id value = not (is_empty value) && leb (len value) 128 && all id_byte (bytes value)

abbrev pub signed_of : (Bytes → Text) → Option Branding → Option Text
signed_of encode none = none
signed_of encode (some b) = some (encode b.signed)

abbrev pub icon_of : Option Branding → Option FileNode
icon_of none = none
icon_of (some b) = some (plain b.icon)

abbrev pub hero_file : Option Bytes → Option FileNode
hero_file none = none
hero_file (some b) = some (plain b)

abbrev pub hero_of : Option Branding → Option FileNode
hero_of none = none
hero_of (some b) = hero_file b.hero

-- The directory of a registration whose record is printed as `b`.
abbrev pub dir_of : Bytes → Verified → Dir
dir_of b v = record {
  registration = some (plain b);
  trust_store = some (plain v.trust_bytes);
  update_root = some (plain v.update_bytes);
  icon = icon_of v.branding;
  hero = hero_of v.branding;
}

module _ (x : RegistryTools) where
  -- The checks of the game's files.
  unfoldable pub check_game : Option InstalledRoot → Text → String → Result String InstalledRoot
  check_game root relative unsafe = ok_or root "game installation root does not exist" >>= λ r.
      refuse_if (not r.is_dir) "game installation root is not a directory"
      >> (ok_or (r.executable relative) "registered game executable does not exist" >>= λ e.
          refuse_if (not e.inside || not e.is_file) unsafe >> ok r)

  -- `trust::load` and the verification of the signature.
  unfoldable pub verify_with :
      SignedGameRegistrationV1 → Option FileNode → ℤ → Result String GameRegistrationClaimsV1
  unfolding certael_agent.Trust.load verify_game_registration
  verify_with signed trust now = certael_agent.Trust.load x.trust trust >>= λ keys.
      map_err (verify_game_registration x.crypto x.codecs signed keys now)
        (λ e. "game registration signature was rejected")

  unfoldable pub decode_signed : Bytes → Result String SignedGameRegistrationV1
  decode_signed b =
      ok_or (x.signed_registration.decode b) "signed game registration is malformed" >>= λ signed.
      refuse_if (not (same (x.signed_registration.encode signed) b))
        "signed game registration is not canonical"
      >> ok signed

  abbrev pub unbound : Bytes → Bytes → GameRegistrationClaimsV1 → Bool
  unbound trust_bytes update_bytes claims =
      not (same (x.crypto.sha256 trust_bytes) claims.trust_store_sha256)
      || not (same (x.crypto.sha256 update_bytes) claims.update_root_sha256)

  -- `install_registration` up to the first change of the registry.
  unfoldable pub verify_args : InstallRegistrationArgs → ℤ → Result String Verified
  unfolding read_regular decode_signed verify_with check_game
  verify_args args now =
      read_regular args.signed_registration max_registration_bytes >>= λ registration_bytes.
      decode_signed registration_bytes >>= λ signed.
      verify_with signed args.publisher_trust_store now >>= λ claims.
      read_regular args.publisher_trust_store max_root_bytes >>= λ trust_bytes.
      read_regular args.update_root max_root_bytes >>= λ update_bytes.
      refuse_if (unbound trust_bytes update_bytes claims)
        "game registration does not bind the supplied trust material"
      >> (check_game args.game_root claims.executable_relative_path
            "registered executable escapes the game installation root"
          >>= λ root. args.branding >>= λ branding. ok (record {
            claims = claims;
            registration_bytes = registration_bytes;
            trust_bytes = trust_bytes;
            update_bytes = update_bytes;
            root = root;
            branding = branding;
          }))

  unfoldable pub stored : Verified → StoredRegistration
  stored v = record {
    format_version = 2;
    signed_registration_base64 = x.base64_encode v.registration_bytes;
    game_root = v.root.canonical;
    signed_branding_base64 = signed_of x.base64_encode v.branding;
  }

  -- The directory as it is staged: nothing where the record cannot be printed.
  unfoldable pub new_dir : Verified → Option Dir
  unfolding stored
  new_dir v = elim (x.print (stored v)) [ none ↦ none | some b ↦ some (dir_of b v) ]

  -- `load`, up to the branding: the claims and the game root of a registration's directory, with the
  -- messages of the checks that it shares with an installation. `roots` is the system's view of the
  -- stored path.
  unfoldable pub load_game :
      (Text → Option InstalledRoot)
      → Text
      → Dir
      → ℤ
      → Result String (GameRegistrationClaimsV1 × InstalledRoot × StoredRegistration)
  unfolding safe_id read_regular decode_signed verify_with
  load_game roots id dir now =
      refuse_if (not (safe_id id)) "invalid game registration ID"
      >> (read_regular dir.registration max_registration_bytes >>= λ record_bytes.
          ok_or (x.parse record_bytes) "registered game metadata is invalid" >>= λ stored.
          refuse_if (not (stored.format_version == 1 || stored.format_version == 2))
            "registered game metadata version is unsupported"
          >> (ok_or (x.base64_decode stored.signed_registration_base64)
                "registered game signature is invalid"
              >>= λ signed_bytes. decode_signed signed_bytes >>= λ signed.
                  read_regular dir.trust_store max_root_bytes >>= λ trust_bytes.
                  read_regular dir.update_root max_root_bytes >>= λ update_bytes.
                  verify_with signed dir.trust_store now >>= λ claims.
                  refuse_if
                    (not (same claims.registration_id id)
                      || unbound trust_bytes update_bytes claims)
                    "registered game trust binding is invalid"
                  >> (ok_or (roots stored.game_root) "registered game installation is unavailable"
                      >>= λ root.
                          ok_or (root.executable claims.executable_relative_path)
                            "registered game executable is missing"
                          >>= λ e.
                              refuse_if (not e.inside || not e.is_file)
                                "registered game executable is unsafe"
                              >> ok (claims, root, stored))))
