-- ===== src/Command/Parse.antt =====
-- What Command::parse (srcs/Command/Command.cpp) makes of a line: it ends, and a line that is written
-- from a name and parameters is read back.
use irc.Base.{
  ℕ, zero, suc, ◌+◌, ◌≤◌, ◌<◌, Bool, true, false, not, ◌&&◌, ◌||◌, ◌≡◌, refl, ◌∙◌, ap, [], ◌∷◌,
  ◌++◌, List, length, Option, none, some, ◌==◌, nat_ord, arith, length-append, leb, ◌⊎◌, Bool-cases,
  inl, inr,
}
use mathlib.Core.List.{append-nil, append_assoc}
use irc.Text.{Text}
use irc.Command.{
  middle, normalize_name, skip_spaces, take_token, parameter_round, parse_parameters, parse_named,
  parse_start, parse,
}

-- The text that is left behind a token: none, or a space first.
abbrev stops : Text → Bool
stops [] = true
stops (c ∷ rest) = c == b' '

unfoldable pub has_space : Text → Bool
has_space [] = false
has_space (c ∷ rest) = c == b' ' || has_space rest

-- A name or a parameter that is not the last: not empty, without a space, not beginning with a colon.
unfoldable pub is_token : Text → Bool
unfolding has_space
is_token [] = false
is_token (c ∷ rest) = not (c == b':') && not (has_space (c ∷ rest))

unfoldable pub are_tokens : List Text → Bool
unfolding is_token
are_tokens [] = true
are_tokens (p ∷ ps) = is_token p && are_tokens ps

unfoldable pub write_parameters : List Text → Text
write_parameters [] = []
write_parameters (p ∷ ps) = b' ' ∷ p ++ write_parameters ps

-- The last parameter, if it is written behind a colon.
unfoldable pub write_trailing : Option Text → Text
write_trailing none = []
write_trailing (some text) = b' ' ∷ b':' ∷ text

unfoldable pub trailing_list : Option Text → List Text
trailing_list none = []
trailing_list (some text) = text ∷ []

take_token-append :
    (p rest : Text) → has_space p ≡ false → stops rest ≡ true → take_token (p ++ rest) ≡ (p, rest)
unfolding take_token has_space
take_token-append [] [] h k = refl
take_token-append [] (c ∷ rest) h k = ground arith
take_token-append (c ∷ p) rest h k = ground (arith, take_token-append p rest)

stops-write :
    (ps : List Text) (e : Option Text) → stops (write_parameters ps ++ write_trailing e) ≡ true
unfolding write_parameters write_trailing
stops-write [] none = refl
stops-write [] (some t) = refl
stops-write (p ∷ ps) e = refl

parameter_round-token :
    (count : ℕ) (p rest : Text)
    → is_token p ≡ true
    → stops rest ≡ true
    → count < 15
    → parameter_round count (skip_spaces (b' ' ∷ p ++ rest)) ≡ middle p rest
unfolding parameter_round skip_spaces is_token has_space
parameter_round-token count [] rest h k l = absurd (ground (arith, h))
parameter_round-token count (c ∷ p) rest h k l = ground (arith, take_token-append (c ∷ p) rest)

parse_parameters-write :
    (fuel : ℕ) (read ps : List Text) (e : Option Text)
    → are_tokens ps ≡ true
    → length ps < fuel
    → length read + length ps + length (trailing_list e) ≤ 15
    → parse_parameters fuel read (write_parameters ps ++ write_trailing e)
      ≡ some (read ++ (ps ++ trailing_list e), true)
unfolding parse_parameters are_tokens write_parameters trailing_list
parse_parameters-write zero read ps e h k l = absurd (omega (arith, k))
parse_parameters-write (suc fuel) read [] none h k l =
    unfold write_trailing in ground (arith, append-nil read)
parse_parameters-write (suc fuel) read [] (some t) h k l =
    unfold write_trailing in ground (arith, l)
parse_parameters-write (suc fuel) read (p ∷ ps) e h k l =
    rw (append_assoc p (write_parameters ps) (write_trailing e), round)
      (parse_parameters-write fuel (read ++ p ∷ []) ps e (ground arith) (omega (arith, k))
          (omega (arith, l, length-append read (p ∷ [])))
        ∙ ap (λ all. some (all, true)) (append_assoc read (p ∷ []) (ps ++ trailing_list e)))
  where
    round :
        parameter_round (length read) (skip_spaces (p ++ (write_parameters ps ++ write_trailing e)))
        ≡ middle p (write_parameters ps ++ write_trailing e)
    round =
        parameter_round-token (length read) p (write_parameters ps ++ write_trailing e)
          (ground (arith, h)) (stops-write ps e) (omega (arith, l))

-- The size of what is written is at least the number of the parameters.
length-write : (ps : List Text) (rest : Text) → length ps ≤ length (write_parameters ps ++ rest)
unfolding write_parameters
length-write [] rest = omega arith
length-write (p ∷ ps) rest = omega (
  arith,
  length-write ps rest,
  length-append (p ++ write_parameters ps) rest,
  length-append p (write_parameters ps),
  length-append (write_parameters ps) rest,
)

-- A line made of a token as the name, of tokens behind one space each and of a last parameter behind a
-- colon, if there is one, is read as a valid command with the name in upper case and these parameters,
-- when there are 15 at most.
pub parse-write :
    (name : Text) (ps : List Text) (e : Option Text)
    → is_token name ≡ true
    → are_tokens ps ≡ true
    → length ps + length (trailing_list e) ≤ 15
    → parse (name ++ (write_parameters ps ++ write_trailing e))
      ≡ record { valid = true; name = normalize_name name; parameters = ps ++ trailing_list e }
unfolding parse parse_start parse_named is_token has_space skip_spaces
parse-write [] ps e h k l = absurd (ground (arith, h))
parse-write (c ∷ name) ps e h k l =
    let rest = write_parameters ps ++ write_trailing e in
    ground (
      arith,
      take_token-append (c ∷ name) rest,
      stops-write ps e,
      parse_parameters-write (suc (length rest)) [] ps e k,
      length-write ps (write_trailing e),
    )

skip_spaces_cases :
    (t : Text)
    → (skip_spaces t ≡ [])
      ⊎ ((c : ℕ) × (rest : Text) × (skip_spaces t ≡ c ∷ rest)
          × ((c == b' ') ≡ false)
          × (length rest < length t))
unfolding skip_spaces
skip_spaces_cases [] = inl refl
skip_spaces_cases (c ∷ rest) = elim (Bool-cases (c == b' ')) [
  | inr other ↦ inr (c, rest, ground arith, other, omega arith)
  | inl space ↦ elim (skip_spaces_cases rest) [
    | inl none_left ↦ inl (ground (arith, none_left))
    | inr (d, behind, e, other, shorter) ↦
        inr (d, behind, ground (arith, e), other, omega (arith, shorter))
  ]
]

length-take_token : (t : Text) → length (take_token t).1 ≤ length t
unfolding take_token
length-take_token [] = omega arith
length-take_token (c ∷ t) = ground (arith, length-take_token t)

length-take_token_rest :
    (c : ℕ) (t : Text) → (c == b' ') ≡ false → length (take_token (c ∷ t)).1 ≤ length t
unfolding take_token
length-take_token_rest c t other = ground (arith, length-take_token t)

-- The loop over the parameters ends on fuel above the size of the rest of the line, and reads 15
-- parameters at most.
pub parse_parameters_total :
    (fuel : ℕ) (read : List Text) (position : Text)
    → length position < fuel
    → length read ≤ 15
    → (r : List Text × Bool) × (parse_parameters fuel read position ≡ some r) × (length r.0 ≤ 15)
unfolding parse_parameters parameter_round
parse_parameters_total zero read position k l = absurd (omega (arith, k))
parse_parameters_total (suc fuel) read position k l = elim (skip_spaces_cases position) [
  | inl e ↦ ((read, true), rw (e, parse_parameters), l)
  | inr (c, rest, e, other, shorter) ↦ elim (Bool-cases (leb 15 (length read))) [
    | inl full ↦ ((read, false), rw (e, parse_parameters, full, parameter_round), l)
    | inr room ↦ elim (Bool-cases (c == b':')) [
      | inl colon ↦ (
        (read ++ rest ∷ [], true),
        rw (e, parse_parameters, room, parameter_round, colon),
        ground (arith, length-append read (rest ∷ [])),
      )
      | inr plain ↦
          let token = (take_token (c ∷ rest)).0 in
          let (r, same, bound) =
            parse_parameters_total fuel (read ++ token ∷ []) (take_token (c ∷ rest)).1
              (omega (arith, k, shorter, length-take_token_rest c rest other))
              (ground (arith, length-append read (token ∷ []))) in
          (r, rw (e, parse_parameters, room, parameter_round, plain) same, bound)
    ]
  ]
]

-- The command read from any line has 15 parameters at most.
parse_bound : (line : Text) → length (parse line).parameters ≤ 15
unfolding parse parse_start parse_named
parse_bound line = elim (skip_spaces_cases line) [
  | inl e ↦ rw (e, parse, parse_start) (omega arith)
  | inr (c, rest, e, other, shorter) ↦
      let position = (take_token (c ∷ rest)).1 in
      let (r, same, bound) =
        parse_parameters_total (suc (length position)) [] position (omega arith) (omega arith) in
      rw (e, parse, parse_start) (ground (arith, same, bound))
]
