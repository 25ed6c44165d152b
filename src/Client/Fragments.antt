-- ===== src/Client/Fragments.antt =====
-- The lines of Client::popLine (srcs/Client.cpp) do not depend on how the bytes arrive in reads.
use irc.Base.{
  ℕ, zero, suc, ◌<◌, ◌≡◌, refl, sym, ap, ◌∙◌, [], ◌∷◌, ◌++◌, List, none, some, arith, nat_ord,
  Option-cases, inl, inr,
}
use irc.Text.{Text}
use irc.Client.{Client, pop_line, append_input, input_size}
use irc.Client.Lines.{pop_line-append_input, pop_line_shorter}

-- The lines that popLine takes until no complete line is left, and the client then, on fuel.
unfoldable take_lines : ℕ → Client → List Text × Client
unfolding pop_line
take_lines zero client = ([], client)
take_lines (suc fuel) client = elim (pop_line client) [
  | none ↦ ([], client)
  | some (line, popped) ↦ (line ∷ (take_lines fuel popped).0, (take_lines fuel popped).1)
]

-- Every line takes a byte of the input at least.
unfoldable pub all_lines : Client → List Text × Client
unfolding take_lines input_size
all_lines client = take_lines (suc (input_size client)) client

none_taken :
    (fuel : ℕ) (client : Client) → pop_line client ≡ none → take_lines fuel client ≡ ([], client)
unfolding take_lines
none_taken zero client e = refl
none_taken (suc fuel) client e = rw (e, take_lines) refl

one_taken :
    (fuel : ℕ) (client popped : Client) (line : Text)
    → pop_line client ≡ some (line, popped)
    → take_lines (suc fuel) client ≡ (line ∷ (take_lines fuel popped).0, (take_lines fuel popped).1)
unfolding take_lines
one_taken fuel client popped line e = rw (e, take_lines) refl

take_lines_fuel :
    (fuel other : ℕ) (client : Client)
    → input_size client < fuel
    → input_size client < other
    → take_lines fuel client ≡ take_lines other client
take_lines_fuel zero other client h k = absurd (omega (arith, h))
take_lines_fuel (suc fuel) zero client h k = absurd (omega (arith, k))
take_lines_fuel (suc fuel) (suc other) client h k = elim (Option-cases (pop_line client)) [
  | inl missing ↦ none_taken (suc fuel) client missing ∙ sym (none_taken (suc other) client missing)
  | inr ((line, popped), e) ↦
      let shorter = pop_line_shorter client popped line e in
      one_taken fuel client popped line e
      ∙ ap (λ (r : List Text × Client). (line ∷ r.0, r.1))
          (take_lines_fuel fuel other popped (omega (arith, shorter, h))
            (omega (arith, shorter, k)))
      ∙ sym (one_taken other client popped line e)
]

-- What was taken before and behind the arrival of more bytes.
abbrev resumed : Text → List Text × Client → List Text × Client
resumed bytes (lines, left) =
    (lines ++ (all_lines (append_input bytes left)).0, (all_lines (append_input bytes left)).1)

take_lines-append_input :
    (fuel other : ℕ) (bytes : Text) (client : Client)
    → input_size client < fuel
    → input_size (append_input bytes client) < other
    → take_lines other (append_input bytes client) ≡ resumed bytes (take_lines fuel client)
unfolding all_lines
take_lines-append_input zero other bytes client h k = absurd (omega (arith, h))
take_lines-append_input (suc fuel) zero bytes client h k = absurd (omega (arith, k))
take_lines-append_input (suc fuel) (suc other) bytes client h k =
    elim (Option-cases (pop_line client)) [
      | inl missing ↦
          take_lines_fuel (suc other) (suc (input_size (append_input bytes client))) _ k
            (omega arith)
          ∙ ap (resumed bytes) (sym (none_taken (suc fuel) client missing))
      | inr ((line, popped), e) ↦
          let longer = pop_line-append_input client popped bytes line e in
          let shorter = pop_line_shorter client popped line e in
          let still =
            pop_line_shorter (append_input bytes client) (append_input bytes popped) line longer in
          one_taken other (append_input bytes client) (append_input bytes popped) line longer
          ∙ ap (λ (r : List Text × Client). (line ∷ r.0, r.1))
              (take_lines-append_input fuel other bytes popped (omega (arith, shorter, h))
                (omega (arith, still, k)))
          ∙ ap (resumed bytes) (sym (one_taken fuel client popped line e))
    ]

-- Taking every line, and every line again once more bytes have arrived, takes the same lines and leaves
-- the same client as taking every line once all the bytes have arrived.
pub all_lines-append_input :
    (bytes : Text) (client : Client)
    → all_lines (append_input bytes client) ≡ (
      (all_lines client).0 ++ (all_lines (append_input bytes (all_lines client).1)).0,
      (all_lines (append_input bytes (all_lines client).1)).1,
    )
unfolding all_lines
all_lines-append_input bytes client =
    take_lines-append_input (suc (input_size client)) (suc (input_size (append_input bytes client)))
      bytes client (omega arith) (omega arith)
