-- ===== src/Number/Ports.antt =====
-- The texts that checkPort (srcs/main.cpp) accepts as a port.
use irc.Base.{
  ℕ, true, false, ◌&&◌, ◌≡◌, ◌≤◌, ◌<◌, sym, ap, ◌∙◌, ◌∷◌, ◌++◌, none, some, nat_ord, leb, ltb,
  arith, if◌then◌else◌, Option-cases, inl, inr,
}
use irc.Text.{Text}
use mathlib.Core.Logic.{◌↔◌}
use irc.Number.{word_bound, skip_whitespace, extract_unsigned, has_extra, only_number, check_port}
use irc.Number.Bounds.{are_digits, value_of}
use irc.Number.Written.{
  Sign, are_blanks, write_sign, signed_value, blanks_skipped, no_extra, sign_kept,
  extract_signed_front,
}
use irc.Number.Split.{split_blanks, extra_blanks, extract_signed-Signed}

-- What an accepted port is spelled as, and its value.
pub record IsPort (t : Text) (port : ℕ) : Type 0 where
  pub before : Text
  pub sign : Sign
  pub first : ℕ
  pub digits : Text
  pub behind : Text
  pub blank_before : are_blanks before ≡ true
  pub numeric : are_digits (first ∷ digits) ≡ true
  pub blank_behind : are_blanks behind ≡ true
  pub spelled : t ≡ before ++ write_sign sign ((first ∷ digits) ++ behind)
  pub small : value_of 0 (first ∷ digits) < word_bound
  pub valued : signed_value sign (value_of 0 (first ∷ digits)) ≡ port
  pub positive : 1 ≤ port
  pub bounded : port ≤ 65535

check_port_written :
    (before : Text) (sign : Sign) (c : ℕ) (digits behind : Text)
    → are_blanks before ≡ true
    → are_digits (c ∷ digits) ≡ true
    → are_blanks behind ≡ true
    → check_port (before ++ write_sign sign ((c ∷ digits) ++ behind)) ≡ (
        let value = value_of 0 (c ∷ digits) in
        if ltb value word_bound
          && ltb 0 (signed_value sign value)
          && leb (signed_value sign value) 65535
        then some (signed_value sign value)
        else none)
unfolding check_port only_number extract_unsigned are_digits
check_port_written before sign c digits behind h k l = ground (
  arith,
  l,
  k,
  blanks_skipped before (write_sign sign ((c ∷ digits) ++ behind)) h,
  sign_kept sign c (digits ++ behind),
  extract_signed_front sign c digits behind k l,
  no_extra behind l,
)

IsPort-check_port : (t : Text) (port : ℕ) → IsPort t port → check_port t ≡ some port
IsPort-check_port t port w =
    ap check_port w.spelled
    ∙ check_port_written w.before w.sign w.first w.digits w.behind w.blank_before w.numeric
        w.blank_behind
    ∙ ground (arith, w.small, w.valued, w.positive, w.bounded)

port_facts :
    (value signed port : ℕ)
    → (if ltb value word_bound && ltb 0 signed && leb signed 65535 then some signed else none)
      ≡ some port
    → (value < word_bound) × (signed ≡ port) × (1 ≤ port) × (port ≤ 65535)
port_facts value signed port e =
    (ground (arith, e), ground (arith, e), ground (arith, e), ground (arith, e))

port_read :
    (t : Text) (port : ℕ)
    → check_port t ≡ some port
    → (value : ℕ) × (behind : Text) × (extract_unsigned t ≡ some (value, behind))
      × (has_extra behind ≡ false)
unfolding check_port only_number
port_read t port e = elim (Option-cases (extract_unsigned t)) [
  | inl missing ↦ absurd (ground (arith, missing, e))
  | inr ((value, behind), read) ↦ (value, behind, read, ground (arith, read, e))
]

check_port-IsPort : (t : Text) (port : ℕ) → check_port t ≡ some port → IsPort t port
unfolding extract_unsigned
check_port-IsPort t port e =
    let (value, behind, read, plain) = port_read t port e in
    let (sign, (c, digits, numeric, split)) =
      extract_signed-Signed (skip_whitespace t) behind value read in
    let (before, blank, skipped) = split_blanks t in
    let blank_behind = extra_blanks behind plain in
    let spelled = skipped ∙ ap (λ r. before ++ r) split in
    let facts =
      port_facts (value_of 0 (c ∷ digits)) (signed_value sign (value_of 0 (c ∷ digits))) port (
        sym (check_port_written before sign c digits behind blank numeric blank_behind)
        ∙ ap check_port (sym spelled)
        ∙ e) in
    record {
      before = before;
      sign = sign;
      first = c;
      digits = digits;
      behind = behind;
      blank_before = blank;
      numeric = numeric;
      blank_behind = blank_behind;
      spelled = spelled;
      small = facts.0;
      valued = facts.1;
      positive = facts.2;
      bounded = facts.3;
    }

-- A text is accepted as a port, and read as a number, exactly when it is blanks, a sign or none, digits
-- and blanks, the digits stand for less than 2 ^ 64, and the number, which a minus sign negates modulo
-- 2 ^ 64, is from 1 to 65535.
pub check_port_iff : (t : Text) (port : ℕ) → (check_port t ≡ some port) ↔ IsPort t port
check_port_iff t port = (check_port-IsPort t port, IsPort-check_port t port)
