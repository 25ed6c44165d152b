-- ===== src/Client.antt =====
-- includes/Client.hpp, srcs/Client.cpp and srcs/ClientRegister.cpp: a connection with its
-- registration state and its input and output buffers. Its socket is its descriptor.
pub mod Lines
pub mod Fragments
use irc.Base.{
  ℕ, ◌+◌, Bool, true, false, not, ◌&&◌, [], ◌∷◌, ◌++◌, List, is_empty, length, drop, Option, none,
  some, ◌==◌, nat_ord, leb, if◌then◌else◌,
}
use irc.Text.{Text, codes}

pub record Client : Type 0 where
  pub nickname : Text
  pub username : Text
  pub realname : Text
  pub password_accepted : Bool
  pub has_user : Bool
  pub registered : Bool
  pub fd : ℕ
  pub output_buffer : Text
  pub input_buffer : Text
  pub disconnect_requested : Bool
  pub disconnect_reason : Text

unfoldable pub new_client : ℕ → Client
new_client fd = record {
  nickname = [];
  username = [];
  realname = [];
  password_accepted = false;
  has_user = false;
  registered = false;
  fd = fd;
  output_buffer = [];
  input_buffer = [];
  disconnect_requested = false;
  disconnect_reason = [];
}

unfoldable pub request_disconnect : Text → Client → Client
request_disconnect reason client = record client {
  disconnect_reason = reason;
  disconnect_requested = true;
}

unfoldable pub append_output : Text → Client → Client
append_output bytes client = record client { output_buffer = client.output_buffer ++ bytes }

unfoldable pub has_output : Client → Bool
has_output client = not (is_empty client.output_buffer)

unfoldable pub output_size : Client → ℕ
output_size client = length client.output_buffer

unfoldable pub consume_output : ℕ → Client → Client
consume_output count client =
    if leb (length client.output_buffer) count
    then record client { output_buffer = [] }
    else record client { output_buffer = drop count client.output_buffer }

unfoldable pub append_input : Text → Client → Client
append_input bytes client = record client { input_buffer = client.input_buffer ++ bytes }

unfoldable pub input_size : Client → ℕ
input_size client = length client.input_buffer

-- The text before the first newline and the text behind it.
unfoldable pub split_newline : Text → Option (Text × Text)
split_newline [] = none
split_newline (c ∷ rest) =
    let found = split_newline rest in
    if c == b'\n'
    then some ([], rest)
    else elim found [ none ↦ none | some (line, behind) ↦ some (c ∷ line, behind) ]

-- Drops one carriage return at the end.
unfoldable pub strip_return : Text → Text
strip_return [] = []
strip_return (c ∷ []) = if c == b'\r' then [] else c ∷ []
strip_return (c ∷ d ∷ rest) = c ∷ strip_return (d ∷ rest)

unfoldable pub pop_line : Client → Option (Text × Client)
pop_line client = elim (split_newline client.input_buffer) [
  | none ↦ none
  | some (line, behind) ↦ some (strip_return line, record client { input_buffer = behind })
]

unfoldable pub has_nickname : Client → Bool
has_nickname client = not (is_empty client.nickname)

unfoldable pub set_password_accepted : Client → Client
set_password_accepted client = record client { password_accepted = true }

unfoldable pub set_nickname : Text → Client → Client
set_nickname nickname client = record client { nickname = nickname }

unfoldable pub set_user : Text → Text → Client → Client
set_user username realname client = record client {
  username = username;
  realname = realname;
  has_user = true;
}

unfoldable pub set_registered : Bool → Client → Client
set_registered registered client = record client { registered = registered }

unfoldable pub is_registration_ready : Client → Bool
is_registration_ready client =
    client.password_accepted && not (is_empty client.nickname) && client.has_user

unfoldable pub prefix : Client → Text
prefix client = client.nickname ++ codes "!" ++ client.username ++ codes "@localhost"
