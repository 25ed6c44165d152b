-- ===== src/Tests/Input.antt =====
-- Theorems on lines, commands, numbers and mode strings, at concrete texts.
use irc.Base.{true, false, [], ◌∷◌, ◌++◌, List, length, ◌≡◌, ◌≤◌, ◌<◌, refl, some, arith, Bool}
use mathlib.Core.Logic.{◌↔◌}
use irc.Text.{Text, codes}
use irc.Client.{Client, append_input, append_output, pop_line, consume_output, input_size}
use irc.Client.Lines.{has_newline, pop_line_framed, pop_line_shorter, consume_output-append_output}
use irc.Client.Fragments.{all_lines, all_lines-append_input}
use irc.Command.{parse, parse_parameters, normalize_name}
use irc.Command.Parse.{
  parse-write, parse_parameters_total, write_parameters, write_trailing, is_token, are_tokens,
  has_space, trailing_list,
}
use irc.Number.{check_port, parse_positive_user_limit}
use irc.Number.Limits.{IsLimit, parse_positive_user_limit_iff}
use irc.Number.Ports.{IsPort, check_port_iff}
use irc.Handler.Mode.Change.{ModeChange, mode_needs_argument, parse_channel_mode_changes}
use irc.Handler.Mode.Scan.{
  are_proper, parse_channel_mode_changes-write, write_modes, write_arguments,
}
use irc.Tests.{alice}

parse-write_example :
    parse (
      codes "privmsg"
      ++ (write_parameters (codes "#c" ∷ []) ++ write_trailing (some (codes "hi all"))))
    ≡ record {
      valid = true;
      name = normalize_name (codes "privmsg");
      parameters = codes "#c" ∷ codes "hi all" ∷ [];
    }
unfolding trailing_list
parse-write_example =
    parse-write (codes "privmsg") (codes "#c" ∷ []) (some (codes "hi all"))
      (unfold is_token has_space codes in refl) (unfold are_tokens is_token has_space codes in refl)
      (omega arith)

parse_parameters_total_example :
    (r : List Text × Bool) × (parse_parameters 8 [] (codes " #c :hi") ≡ some r) × (length r.0 ≤ 15)
parse_parameters_total_example =
    parse_parameters_total 8 [] (codes " #c :hi") (unfold codes in omega arith) (omega arith)

abbrev typing : Client
typing = record alice { input_buffer = (codes "PING x" ++ b'\r' ∷ []) ++ b'\n' ∷ codes "NI" }

pop_line_framed_example :
    pop_line typing ≡ some (codes "PING x", record typing { input_buffer = codes "NI" })
pop_line_framed_example =
    pop_line_framed typing (codes "PING x") (codes "NI") (unfold has_newline codes in refl) refl

all_lines-append_input_example : all_lines (append_input (codes "CK z") typing) ≡ (
  (all_lines typing).0 ++ (all_lines (append_input (codes "CK z") (all_lines typing).1)).0,
  (all_lines (append_input (codes "CK z") (all_lines typing).1)).1,
)
all_lines-append_input_example = all_lines-append_input (codes "CK z") typing

pop_line_shorter_example :
    input_size (record typing { input_buffer = codes "NI" }) < input_size typing
pop_line_shorter_example =
    pop_line_shorter typing (record typing { input_buffer = codes "NI" }) (codes "PING x")
      pop_line_framed_example

consume_output-append_output_example :
    (consume_output
      (length (codes "ab"))
      (append_output (codes "e") (record alice { output_buffer = codes "abcd" }))).output_buffer
    ≡ codes "cd" ++ codes "e"
consume_output-append_output_example =
    consume_output-append_output (record alice { output_buffer = codes "abcd" }) (codes "ab")
      (codes "cd") (codes "e") (unfold codes in refl)

parse_positive_user_limit_iff_example :
    (parse_positive_user_limit (codes "25 ") ≡ some 25) ↔ IsLimit (codes "25 ") 25
parse_positive_user_limit_iff_example = parse_positive_user_limit_iff (codes "25 ") 25

check_port_iff_example : (check_port (codes " +6667 ") ≡ some 6667) ↔ IsPort (codes " +6667 ") 6667
check_port_iff_example = check_port_iff (codes " +6667 ") 6667

abbrev with_key : ModeChange
with_key = record { adding = true; mode = b'k'; has_argument = true; argument = b'x' ∷ [] }

abbrev open_to_all : ModeChange
open_to_all = record { adding = false; mode = b'i'; has_argument = false; argument = [] }

parse_channel_mode_changes-write_example :
    parse_channel_mode_changes (
      (b'#' ∷ [])
      ∷ write_modes (with_key ∷ open_to_all ∷ [])
      ∷ write_arguments (with_key ∷ open_to_all ∷ []))
    ≡ some (with_key ∷ open_to_all ∷ [])
parse_channel_mode_changes-write_example =
    parse_channel_mode_changes-write (b'#' ∷ []) with_key (open_to_all ∷ [])
      (unfold are_proper mode_needs_argument in refl)
