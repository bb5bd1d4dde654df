-- ===== src/Environment/Tests.antt =====
-- The environment of a protected game at concrete entries.
use certael_agent.Runtime.Observe.{digits}
use certael_agent.Prelude.{any, same, [], ◌∷◌, ◌≡◌, List, All, ok, refl}
use certael_agent.Environment.{sanitize_environment_entries, read_handle, write_handle}
use certael_agent.Environment.Handles.{Own, sanitize_environment_entries-Own}
use certael_agent.Text.{Text, text, to_ascii_uppercase}

-- The parent's own handle and a pseudo-entry of Windows, before a variable and a drive's directory.
abbrev inherited_entries : List (Text × Text)
inherited_entries =
    (text "certael_agent_read_handle", text "9")
    ∷ (text "Path", text "bin")
    ∷ (text "=::", text "x")
    ∷ (text "=C:", text "games")
    ∷ []

abbrev game_entries : List (Text × Text)
game_entries =
    (text "=C:", text "games")
    ∷ (read_handle, text "12")
    ∷ (write_handle, text "16")
    ∷ (text "Path", text "bin")
    ∷ []

sanitize_example :
    sanitize_environment_entries to_ascii_uppercase inherited_entries 12 16 ≡ ok game_entries
unfolding sanitize_environment_entries to_ascii_uppercase same any digits
sanitize_example = refl

sanitize_environment_entries-Own_example : All (Own 12 16) game_entries
sanitize_environment_entries-Own_example =
    sanitize_environment_entries-Own to_ascii_uppercase inherited_entries game_entries 12 16
      sanitize_example
