-- ===== src/Client/Lines.antt =====
-- How Client::popLine (srcs/Client.cpp) cuts the input into lines.
use irc.Base.{
  ◌<◌, Bool, true, false, ◌≡◌, refl, ◌∙◌, ap, [], ◌∷◌, ◌++◌, length, none, some, ◌==◌, nat_ord,
  arith, if◌then◌else◌, length-append, drop, inl, inr, Option-cases,
}
use mathlib.Core.List.{append_assoc}
use irc.Text.{Text}
use irc.Client.{
  Client, split_newline, strip_return, pop_line, append_input, input_size, consume_output,
  append_output,
}

unfoldable pub has_newline : Text → Bool
has_newline [] = false
has_newline (c ∷ rest) = if c == b'\n' then true else has_newline rest

split_newline-append_line :
    (line rest : Text)
    → has_newline line ≡ false
    → split_newline (line ++ b'\n' ∷ rest) ≡ some (line, rest)
unfolding split_newline has_newline
split_newline-append_line [] rest h = refl
split_newline-append_line (c ∷ line) rest h = ground (arith, split_newline-append_line line rest)

split_newline-none : (t : Text) → has_newline t ≡ false → split_newline t ≡ none
unfolding split_newline has_newline
split_newline-none [] h = refl
split_newline-none (c ∷ t) h = ground (arith, split_newline-none t)

split_newline-append :
    (t more line behind : Text)
    → split_newline t ≡ some (line, behind)
    → split_newline (t ++ more) ≡ some (line, behind ++ more)
unfolding split_newline
split_newline-append [] more line behind e = absurd (ground (arith, e))
split_newline-append (c ∷ t) more line behind e = elim (Option-cases (split_newline t)) [
  | inl missing ↦ ground (arith, missing)
  | inr ((l, b), found) ↦ ground (arith, found, split_newline-append t more l b found)
]

has_newline-append :
    (line : Text) → has_newline line ≡ false → has_newline (line ++ b'\r' ∷ []) ≡ false
unfolding has_newline
has_newline-append [] h = refl
has_newline-append (c ∷ line) h = ground (arith, has_newline-append line)

strip_return-append : (line : Text) → strip_return (line ++ b'\r' ∷ []) ≡ line
unfolding strip_return
strip_return-append [] = refl
strip_return-append (c ∷ []) = refl
strip_return-append (c ∷ d ∷ line) = ground (arith, strip_return-append (d ∷ line))

split_newline_shorter :
    (t line behind : Text) → split_newline t ≡ some (line, behind) → length behind < length t
unfolding split_newline
split_newline_shorter [] line behind e = absurd (ground (arith, e))
split_newline_shorter (c ∷ t) line behind e = elim (Option-cases (split_newline t)) [
  | inl missing ↦ ground (arith, missing)
  | inr ((l, b), found) ↦ ground (arith, found, split_newline_shorter t l b found)
]

-- A line that ends in a carriage return and a newline at the front of the input is what popLine takes,
-- without the two, and the bytes behind them are left.
pub pop_line_framed :
    (client : Client) (line rest : Text)
    → has_newline line ≡ false
    → client.input_buffer ≡ (line ++ b'\r' ∷ []) ++ b'\n' ∷ rest
    → pop_line client ≡ some (line, record client { input_buffer = rest })
unfolding pop_line has_newline
pop_line_framed client line rest h e =
    rw
      (e, pop_line, split_newline-append_line (line ++ b'\r' ∷ []) rest (has_newline-append line h))
      (ground (arith, strip_return-append line))

-- A complete line is taken in the same way whatever bytes arrive behind it before it is taken.
pub pop_line-append_input :
    (client popped : Client) (bytes line : Text)
    → pop_line client ≡ some (line, popped)
    → pop_line (append_input bytes client) ≡ some (line, append_input bytes popped)
unfolding pop_line append_input
pop_line-append_input client popped bytes line e =
    elim (Option-cases (split_newline client.input_buffer)) [
      | inl missing ↦ absurd (ground (arith, missing, e))
      | inr ((l, b), found) ↦
          ground (arith, found, e, split_newline-append client.input_buffer bytes l b found)
    ]

-- Taking a line shortens the input.
pub pop_line_shorter :
    (client popped : Client) (line : Text)
    → pop_line client ≡ some (line, popped)
    → input_size popped < input_size client
unfolding pop_line input_size
pop_line_shorter client popped line e = elim (Option-cases (split_newline client.input_buffer)) [
  | inl missing ↦ absurd (ground (arith, missing, e))
  | inr ((l, b), found) ↦
      ground (arith, found, e, split_newline_shorter client.input_buffer l b found)
]

drop-append : (sent rest : Text) → drop (length sent) (sent ++ rest) ≡ rest
drop-append [] rest = refl
drop-append (c ∷ sent) rest = drop-append sent rest

consume_output-front :
    (client : Client) (sent rest : Text)
    → client.output_buffer ≡ sent ++ rest
    → (consume_output (length sent) client).output_buffer ≡ rest
unfolding consume_output
consume_output-front client sent [] e = ground (arith, e, drop-append sent [])
consume_output-front client sent (c ∷ rest) e =
    ground (arith, e, drop-append sent (c ∷ rest), length-append sent (c ∷ rest))

-- What goes out and what is left is what was to go out, in its order, also when bytes were queued
-- between the sends.
pub consume_output-append_output :
    (client : Client) (sent left bytes : Text)
    → client.output_buffer ≡ sent ++ left
    → (consume_output (length sent) (append_output bytes client)).output_buffer ≡ left ++ bytes
unfolding consume_output append_output
consume_output-append_output client sent left bytes e =
    consume_output-front (append_output bytes client) sent (left ++ bytes)
      (ap (λ t. t ++ bytes) e ∙ append_assoc sent left bytes)
