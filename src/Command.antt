-- ===== src/Command.antt =====
-- includes/Command.hpp and srcs/Command/Command.cpp: one line of input as a command. A position in
-- the line is the text from there on.
pub mod Parse
use irc.Base.{
  ℕ, zero, suc, ◌+◌, ◌-◌, Bool, true, false, ◌&&◌, [], ◌∷◌, ◌++◌, List, length, map, Option, none,
  some, ◌==◌, nat_ord, leb, if◌then◌else◌,
}
use irc.Text.{Text}

pub record Command : Type 0 where
  pub valid : Bool
  pub name : Text
  pub parameters : List Text

abbrev pub max_command_parameters : ℕ
max_command_parameters = 15

unfoldable pub uppercase_ascii : ℕ → ℕ
uppercase_ascii c = if leb b'a' c && leb c b'z' then c - b'a' + b'A' else c

unfoldable pub normalize_name : Text → Text
unfolding uppercase_ascii
normalize_name name = map uppercase_ascii name

unfoldable pub skip_spaces : Text → Text
skip_spaces [] = []
skip_spaces (c ∷ rest) = if c == b' ' then skip_spaces rest else c ∷ rest

-- The token at the position and the position behind it.
unfoldable pub take_token : Text → Text × Text
take_token [] = ([], [])
take_token (c ∷ rest) =
    let (token, behind) = take_token rest in
    if c == b' ' then ([], c ∷ rest) else (c ∷ token, behind)

parameter_count : Command → ℕ
parameter_count command = length command.parameters

-- One round of the loop over the parameters: `none` leaves the loop with the command valid.
pub data Round : Type 0 where
  finished : Round
  too_many : Round
  trailing : Text → Round
  middle : Text → Text → Round

unfoldable pub parameter_round : ℕ → Text → Round
unfolding take_token
parameter_round count [] = finished
parameter_round count (c ∷ rest) =
    if leb max_command_parameters count
    then too_many
    else if c == b':'
    then trailing rest
    else middle (take_token (c ∷ rest)).0 (take_token (c ∷ rest)).1

-- The loop, on fuel: the parameters read, and whether the command is valid.
unfoldable pub parse_parameters : ℕ → List Text → Text → Option (List Text × Bool)
unfolding skip_spaces parameter_round
parse_parameters zero read position = none
parse_parameters (suc fuel) read position =
    elim (parameter_round (length read) (skip_spaces position)) [
      | finished ↦ some (read, true)
      | too_many ↦ some (read, false)
      | trailing text ↦ some (read ++ text ∷ [], true)
      | middle token behind ↦ parse_parameters fuel (read ++ token ∷ []) behind
    ]

-- The rest of the line behind the command's name.
unfoldable pub parse_named : Text → Text → Command
unfolding parse_parameters normalize_name
parse_named name position = elim (parse_parameters (suc (length position)) [] position) [
  | none ↦ record { valid = false; name = normalize_name name; parameters = [] }
  | some (parameters, valid) ↦ record {
    valid = valid;
    name = normalize_name name;
    parameters = parameters;
  }
]

abbrev pub no_command : Command
no_command = record { valid = false; name = []; parameters = [] }

unfoldable pub parse_start : Text → Command
unfolding take_token parse_named
parse_start [] = no_command
parse_start (c ∷ rest) =
    if c == b':'
    then no_command
    else parse_named (take_token (c ∷ rest)).0 (take_token (c ∷ rest)).1

unfoldable pub parse : Text → Command
unfolding skip_spaces parse_start
parse line = parse_start (skip_spaces line)
