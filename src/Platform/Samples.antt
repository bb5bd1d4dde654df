-- ===== src/Platform/Samples.antt =====
-- A hexadecimal encoding, and a game root whose files are all alike.
use certael_agent.Protocol.Samples.{digest_of}
use certael_agent.Text.{Bytes, Text, text}
use certael_agent.Prelude.{
  [], ◌/◌, ◌-◌, if◌then◌else◌, ◌%◌, ◌*◌, ◌+◌, ◌∷◌, none, true, false, some, Option, ℕ, ltb,
}
use certael_agent.Platform.{ProtectedBuildManifest, Hex, GameRoot}

abbrev digit : ℕ → ℕ
digit n = if ltb n 10 then b'0' + n else b'a' + n - 10

abbrev hex_encode : Bytes → Text
hex_encode [] = []
hex_encode (b ∷ bs) = digit (b / 16) ∷ digit (b % 16) ∷ hex_encode bs

abbrev nibble : ℕ → ℕ
nibble c = if ltb c b'a' then c - b'0' else c - b'a' + 10

abbrev onto : ℕ → Option Bytes → Option Bytes
onto b none = none
onto b (some bs) = some (b ∷ bs)

abbrev hex_decode : Text → Option Bytes
hex_decode [] = some []
hex_decode (c ∷ []) = none
hex_decode (c ∷ d ∷ cs) = onto (16 * nibble c + nibble d) (hex_decode cs)

abbrev pub toy_hex : Hex
toy_hex = record { encode = hex_encode; decode = hex_decode }

abbrev pub game_root : GameRoot
game_root = record {
  present = true;
  is_dir = true;
  node = λ _. some (record {
    is_link = false;
    is_file = true;
    size = 3;
    resolves = true;
    inside = true;
    content = some (0 ∷ 0 ∷ 0 ∷ []);
  });
}

abbrev pub the_build : ProtectedBuildManifest
the_build = record {
  build_id = text "b";
  files =
      record { path = text "bin/x"; size = 3; sha256 = hex_encode (digest_of (0 ∷ 0 ∷ 0 ∷ [])) }
      ∷ [];
}
