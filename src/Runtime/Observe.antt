-- ===== src/Runtime/Observe.antt =====
-- What a report says of the Agent, the game and its process.
use certael_agent.Platform.{IntegritySnapshot, GameProcessSnapshot}
use certael_agent.Protocol.Messages.{IntegrityObservationV1}
use certael_agent.Text.{is_control, len, Text, text}
use certael_agent.Prelude.{
  [], ◌/◌, if◌then◌else◌, ◌&&◌, ◌%◌, ◌+◌, ◌++◌, ◌∷◌, suc, String, leb, any, ltb, none, is_empty,
  not, some, Option, zero, true, List, Bool, false, take, map, ℕ,
}

-- `to_string` of a number below 10 ^ 20.
unfoldable pub digits : ℕ → ℕ → Text → Text
digits zero n acc = acc
digits (suc fuel) n acc =
    let more = digits fuel (n / 10) ((b'0' + n % 10) ∷ acc) in
    if ltb n 10 then (b'0' + n) ∷ acc else more

abbrev pub decimal : ℕ → Text
decimal n = digits 20 n []

abbrev observation : String → Text → IntegrityObservationV1
observation code value = record { code = text code; value = value }

abbrev bool_value : Bool → Text
bool_value true = text "true"
bool_value false = text "false"

abbrev bool_or_unknown : Option Bool → Text
bool_or_unknown none = text "unknown"
bool_or_unknown (some b) = bool_value b

unfoldable pub safe_value : Text → Bool
unfolding len is_control
safe_value value = not (is_empty value) && leb (len value) 512 && not (any is_control value)

abbrev pub filter : (Text → Bool) → List Text → List Text
filter p [] = []
filter p (t ∷ ts) = let rest = filter p ts in if p t then t ∷ rest else rest

-- At most 96 of the names that can be shown.
unfoldable pub module_observations : String → List Text → List IntegrityObservationV1
unfolding safe_value
module_observations code modules = map (observation code) (take 96 (filter safe_value modules))

abbrev build_id_observation : Option Text → List IntegrityObservationV1
build_id_observation none = []
build_id_observation (some id) = observation "game.elf_build_id" id ∷ []

abbrev shown : Option Text → Option Text
shown none = none
shown (some id) = if safe_value id then some id else none

unfoldable pub observations :
    ℕ → ℕ → IntegritySnapshot → GameProcessSnapshot → List IntegrityObservationV1
unfolding digits module_observations safe_value
observations agent_process_id game_process_id snapshot process =
    (observation "agent.platform" snapshot.platform
      ∷ observation "agent.process_id" (decimal agent_process_id)
      ∷ observation "game.process_id" (decimal game_process_id)
      ∷ observation "game.process_running" (bool_value process.running)
      ∷ observation "game.executable_matches" (bool_value process.executable_matches)
      ∷ observation "game.parent_is_agent" (bool_or_unknown process.parent_is_agent)
      ∷ observation "agent.debugger_observed" (bool_value snapshot.debugger_observed)
      ∷ observation "agent.probe_health" (text "connected")
      ∷ [])
    ++ (build_id_observation (shown snapshot.executable_build_id)
        ++ (observation "game.process_identity_stable"
              (bool_or_unknown process.process_identity_stable)
            ∷ (module_observations "agent.module" snapshot.loaded_module_basenames
                ++ module_observations "game.module" process.loaded_module_basenames)))
