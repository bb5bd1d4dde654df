-- ===== src/Runtime/Samples.antt =====
-- A launch of a sample game, and what the system gives `serve` on the way.
use certael_agent.Platform.Samples.{game_root, toy_hex}
use certael_agent.Protocol.Samples.{
  small_semver, the_challenge, the_grant, ring, one_message, the_manifest, key, codecs, accepted,
  toy_crypto, digest_of,
}
use certael_agent.Protocol.Messages.{BoundAgentLaunch}
use certael_agent.Runtime.Deadlines.{Round}
use certael_agent.Platform.{Machine, GameProcessSnapshot}
use certael_agent.Text.{Text, text}
use certael_agent.Prelude.Int.{pos}
use certael_agent.Runtime.Admission.{Tools, timed_out, Incoming, Arrival, arrived, not_installed}
use certael_agent.Prelude.{[], ◌∷◌, false, true, none, some, ℕ, suc, List, zero}
use certael_agent.Ipc.{challenge, launch_grant, Sink}
use certael_agent.Runtime.{RuntimeState}

-- The executable is one byte, and its digest names the build.
abbrev build : Text
build = toy_hex.encode (digest_of (1 ∷ []))

abbrev pub tools : Tools
tools = record {
  crypto = toy_crypto;
  codecs = record codecs {
    grant_claims = one_message (record the_grant { build_id = build }) (3 ∷ []);
    manifest_claims = one_message (record the_manifest { build_id = build }) (5 ∷ []);
    challenge = one_message the_challenge (9 ∷ []);
    report = record { decode = λ _. none; encode = λ r. r.previous_report_digest };
  };
  semver = small_semver;
  hex = toy_hex;
  version = text "1";
}

abbrev pub state : RuntimeState
state = record {
  game_process_id = 7;
  game_process_identity = some 3;
  key = key;
  hello = record {
    protocol_version = 1;
    agent_version = text "1";
    agent_public_key = key;
    build_id = build;
    executable_sha256 = digest_of (1 ∷ []);
  };
  trust = ring;
  registration = some (record {
    registration_id = text "r";
    tenant_id = text "t";
    game_id = text "g";
    environment_id = text "e";
    launch_attempt_id = text "l";
  });
  automatic_update = none;
}

abbrev pub sink : Sink
sink = record { written = []; room = 100000; flushes = true }

abbrev pub arrival : Arrival
arrival = record {
  spawned = true;
  bootstrap = arrived (record { message_type = launch_grant; payload = 8 ∷ [] });
  now = some (pos 1001);
  update = not_installed;
  root = game_root;
}

abbrev pub launched : BoundAgentLaunch
launched = record accepted {
  build_id = build;
  build_manifest = record the_manifest { build_id = build };
}

abbrev machine : Machine
machine = record {
  debugger_observed = false;
  os = text "linux";
  process_id = 5;
  loaded_module_basenames = [];
}

abbrev process : GameProcessSnapshot
process = record {
  running = true;
  executable_matches = true;
  parent_is_agent = some true;
  loaded_module_basenames = text "libm" ∷ [];
  process_identity_stable = none;
}

-- A round that starts at `n` and is over a second behind that.
abbrev pub round_at : ℕ → Incoming → Round
round_at n incoming = record {
  now = some (pos n);
  incoming = incoming;
  later = some (pos (suc n));
  machine = machine;
  build_id = none;
  executable =
      some (record { is_file = true; name = some (text "x"); size = 1; content = some (1 ∷ []) });
  process = process;
  identity = some 3;
}

abbrev pub asked : Incoming
asked = arrived (record { message_type = challenge; payload = 9 ∷ [] })

abbrev pub quiet_rounds : ℕ → ℕ → List Round
quiet_rounds n zero = []
quiet_rounds n (suc k) = round_at n timed_out ∷ quiet_rounds (suc n) k
