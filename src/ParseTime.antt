-- ===== src/ParseTime.antt =====
-- parse-time-string/parse-time-string.c: a date and time from a text. Phase 1 is ParseTime/State,
-- ParseTime/Keywords, ParseTime/Numbers and ParseTime/Input, phase 2 is ParseTime/Output.
pub mod State
pub mod Keywords
pub mod Numbers
pub mod Input
pub mod Output
pub mod Invariant
pub mod Length
pub mod RoundTrip
pub mod Rounding
pub mod Clean
pub mod Matching
use notmuch.Prelude.{Option, none, some, if◌then◌else◌}
use notmuch.Prelude.Bytes.{Bytes}
use notmuch.Prelude.Int.{ℤ}
use notmuch.ParseTime.State.{Result, ok, err, Error, general}
use notmuch.ParseTime.Input.{initial, parse_input}
use notmuch.ParseTime.Output.{Clock, Round, and_then, create_output}

-- The time, or the error of the return value; `none` as in parse_input. A text that is `none` is
-- a NULL pointer.
unfoldable pub parse_time_string : Clock → Option Bytes → Option ℤ → Round → Option (Result ℤ)
unfolding parse_input create_output
parse_time_string c none ref round = some (err general)
parse_time_string c (some s) ref round = elim (parse_input c.gmtime s initial) [
  | none ↦ none
  | some (r, st) ↦ some (and_then r (λ _. create_output c ref round st))
]
