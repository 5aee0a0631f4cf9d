-- ===== src/Recording/Modes.antt =====
-- internal/recording/mode.go: what a replay does with a request that nothing recorded answers.
use mock_agents.Prelude.{
  ℕ, Bool, true, false, String, Option, none, some, if◌then◌else◌, ltb, str_eq,
}

pub data RecordMode : Type 0 where
  record_none : RecordMode
  new_episodes : RecordMode
  once : RecordMode
  all_again : RecordMode

-- The string that a mode is.
abbrev pub mode_text : RecordMode → String
mode_text record_none = "none"
mode_text new_episodes = "new_episodes"
mode_text once = "once"
mode_text all_again = "all"

-- `none` is the error of an unknown mode.
unfoldable pub parse_record_mode : String → Option RecordMode
parse_record_mode s =
    if str_eq s ""
    then some record_none
    else if str_eq s "none"
    then some record_none
    else if str_eq s "new_episodes"
    then some new_episodes
    else if str_eq s "once"
    then some once
    else if str_eq s "all"
    then some all_again
    else none

unfoldable pub requires_upstream : RecordMode → Bool
requires_upstream record_none = false
requires_upstream new_episodes = true
requires_upstream once = true
requires_upstream all_again = true

unfoldable pub records : RecordMode → Bool
records record_none = false
records new_episodes = true
records once = false
records all_again = true

unfoldable pub resolve : ℕ → RecordMode → RecordMode
resolve recorded_count record_none = record_none
resolve recorded_count new_episodes = new_episodes
resolve recorded_count once = if ltb 0 recorded_count then record_none else new_episodes
resolve recorded_count all_again = all_again
