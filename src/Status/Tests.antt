-- ===== src/Status/Tests.antt =====
-- A status that is published and read, and where it stands.
use mathlib.Core.Path.{subst}
use certael_agent.Prelude.Int.{pos}
use certael_agent.Status.RoundTrip.{path-stays, read-publish, IsPublished}
use certael_agent.Text.{
  Bytes, len, text, Text, is_ascii_alphanumeric, bytes, is_ascii_alphabetic, utf8,
}
use certael_agent.Status.{
  RuntimeStatus, bad_id, StatusFormat, StatusDir, PublishRun, holding, publish, path, join,
  state_root,
}
use certael_agent.Prelude.{
  ◌≤◌, arith, length, [], ◌==◌, ◌++◌, ◌∷◌, ◌≡◌, some, all, inr, any, false, true, none, ok, refl,
  is_empty,
}

abbrev status : RuntimeStatus
status = record {
  format_version = 2;
  registration_id = text "r";
  game_id = text "g";
  state = "protected";
  public_reason = none;
  updated_at_unix = pos 1001;
  launch_attempt_id = some (text "l");
  milestone_index = some 8;
  milestone_total = some 8;
}

abbrev format : StatusFormat
format = record { parse = λ b. some status; print = λ s. some (5 ∷ 6 ∷ []) }

-- A publication that goes well, and one that is cut off in the middle of the write.
abbrev well : PublishRun
well = record {
  has_parent = true;
  created = true;
  timed = true;
  opened = true;
  opened_private = false;
  restricted = true;
  progress = 1 ∷ [];
  wrote = true;
  left = 0;
  synced = true;
  renamed = true;
  removed = true;
}

abbrev full_disk : PublishRun
full_disk = record well { wrote = false; left = 1 }

abbrev before_it : StatusDir
before_it = record { status = some (holding true (9 ∷ [])); temporary = none }

published :
    (publish format well before_it status).last
    ≡ record { status = some (holding true (5 ∷ 6 ∷ [])); temporary = none }
unfolding publish
published = refl

not_published : (publish format full_disk before_it status).last ≡ before_it
unfolding publish
not_published = refl

small : (b : Bytes) → format.print status ≡ some b → length b ≤ 16384
small b e =
    let same_bytes : 5 ∷ 6 ∷ [] ≡ b = cc in subst (λ bs. length bs ≤ 16384) same_bytes (omega arith)

read-publish_example : IsPublished format before_it status (publish format well before_it status)
read-publish_example = read-publish format well before_it status (λ b e. refl) small (inr refl)

abbrev place : Text
place = text "h/.local/state/certael-agent/r.json"

status_path : path none (some (text "h")) (text "r") ≡ ok place
unfolding path bad_id len bytes utf8 all is_ascii_alphanumeric is_ascii_alphabetic
status_path = refl

path-stays_example :
    (root : Text) × (state_root none (some (text "h")) ≡ some root)
    × (place ≡ join root (text "certael-agent") ++ text "/" ++ (text "r" ++ text ".json"))
    × (is_empty (text "r") ≡ false)
    × (any (λ b. b == b'/') (bytes (text "r")) ≡ false)
path-stays_example = path-stays none (some (text "h")) (text "r") place status_path
