-- ===== src/Number.antt =====
-- Unsigned numbers read from a text by an input stream (`stream >> value`), as srcs/main.cpp does for
-- the port and srcs/Command/ModeApply.cpp for the user limit. `unsigned long` and `size_t` have 64
-- bits; the locale is the classic one.
pub mod Bounds
pub mod Written
pub mod Split
pub mod Ports
pub mod Limits
use irc.Base.{
  ℕ, ◌+◌, ◌-◌, ◌*◌, ◌%◌, ◌^◌, Bool, false, ◌&&◌, ◌||◌, [], ◌∷◌, Option, none, some, ◌==◌, nat_ord,
  leb, ltb, is_empty, not, if◌then◌else◌,
}
use irc.Text.{Text}

abbrev pub word_bound : ℕ
word_bound = 2 ^ 64

unfoldable pub is_digit : ℕ → Bool
is_digit c = leb b'0' c && leb c b'9'

unfoldable pub is_space : ℕ → Bool
is_space c = c == b' ' || leb 9 c && leb c 13

unfoldable pub skip_whitespace : Text → Text
unfolding is_space
skip_whitespace [] = []
skip_whitespace (c ∷ rest) = if is_space c then skip_whitespace rest else c ∷ rest

-- The digits at the front, read on from a value, and the text behind them.
unfoldable pub read_digits : ℕ → Text → ℕ × Text
unfolding is_digit
read_digits value [] = (value, [])
read_digits value (c ∷ rest) =
    let read = read_digits (value * 10 + (c - b'0')) rest in
    if is_digit c then read else (value, c ∷ rest)

-- A number without its sign; none when there is no digit or the value does not fit.
unfoldable pub extract_digits : Text → Option (ℕ × Text)
unfolding read_digits
extract_digits [] = none
extract_digits (c ∷ rest) =
    let (value, behind) = read_digits 0 (c ∷ rest) in
    if is_digit c && ltb value word_bound then some (value, behind) else none

-- A minus sign is accepted too, and negates modulo the width.
unfoldable pub negate : Option (ℕ × Text) → Option (ℕ × Text)
negate none = none
negate (some (value, behind)) = some ((word_bound - value) % word_bound, behind)

unfoldable pub extract_signed : Text → Option (ℕ × Text)
unfolding extract_digits negate
extract_signed [] = none
extract_signed (c ∷ rest) =
    if c == b'-'
    then negate (extract_digits rest)
    else if c == b'+'
    then extract_digits rest
    else extract_digits (c ∷ rest)

-- `stream >> value`
unfoldable pub extract_unsigned : Text → Option (ℕ × Text)
unfolding skip_whitespace extract_signed
extract_unsigned text = extract_signed (skip_whitespace text)

-- Whether `stream >> extra` finds one more character.
unfoldable pub has_extra : Text → Bool
unfolding skip_whitespace
has_extra text = not (is_empty (skip_whitespace text))

-- A whole text that is one number, with blanks around it allowed.
unfoldable pub only_number : Option (ℕ × Text) → Option ℕ
unfolding has_extra
only_number none = none
only_number (some (value, behind)) = if has_extra behind then none else some value

-- `checkPort`
unfoldable pub check_port : Text → Option ℕ
unfolding extract_unsigned only_number
check_port text = elim (only_number (extract_unsigned text)) [
  | none ↦ none
  | some value ↦ if value == 0 || ltb 65535 value then none else some (value % 2 ^ 16)
]

unfoldable pub starts_with_digit : Text → Bool
unfolding is_digit
starts_with_digit [] = false
starts_with_digit (c ∷ rest) = is_digit c

-- `parsePositiveUserLimit`
unfoldable pub parse_positive_user_limit : Text → Option ℕ
unfolding extract_unsigned only_number starts_with_digit
parse_positive_user_limit text =
    if starts_with_digit text
    then elim (only_number (extract_unsigned text)) [
      | none ↦ none
      | some value ↦ if value == 0 then none else some value
    ]
    else none
