-- ===== src/Text.antt =====
-- Texts are lists of bytes (`std::string`), each a number below 256. srcs/Utils.cpp.
use Prim.Native.String.{String}
use Prim.Native.Nat.{compare, Ordering}
use irc.Base.{
  ℕ, ◌+◌, ◌-◌, ◌≡◌, refl, List, [], ◌∷◌, map, Bool, ◌&&◌, arith, Ord, nat_ord, ◌==◌, leb,
  if◌then◌else◌,
}
use Prim.Native.Char.{code}

abbrev pub Text : Type 0
Text = List ℕ

-- The bytes of an ASCII literal.
unfoldable pub codes : String → Text
codes (String.◌∷◌ letter behind) = code letter ∷ codes behind
codes String.[] = []

-- `std::string::compare`.
unfoldable pub compare_text : Text → Text → Ordering
compare_text [] [] = Ordering.eq
compare_text [] (b ∷ t) = Ordering.lt
compare_text (a ∷ s) [] = Ordering.gt
compare_text (a ∷ s) (b ∷ t) =
    let rest = compare_text s t in
    elim (compare a b) [
      | Ordering.lt ↦ Ordering.lt
      | Ordering.gt ↦ Ordering.gt
      | Ordering.eq ↦ rest
    ]

pub compare_text_refl : (s : Text) → compare_text s s ≡ Ordering.eq
unfolding compare_text
compare_text_refl [] = refl
compare_text_refl (a ∷ s) = ground (arith, compare_text_refl s)

pub compare_text_eq : (s t : Text) → compare_text s t ≡ Ordering.eq → s ≡ t
unfolding compare_text
compare_text_eq [] [] h = refl
compare_text_eq [] (b ∷ t) h = cc
compare_text_eq (a ∷ s) [] h = cc
compare_text_eq (a ∷ s) (b ∷ t) h = ground (arith, compare_text_eq s t)

pub compare_text_gt : (s t : Text) → compare_text s t ≡ Ordering.gt → compare_text t s ≡ Ordering.lt
unfolding compare_text
compare_text_gt [] [] h = cc
compare_text_gt [] (b ∷ t) h = cc
compare_text_gt (a ∷ s) [] h = refl
compare_text_gt (a ∷ s) (b ∷ t) h = ground (arith, compare_text_gt s t)

pub compare_text_trans :
    (s t u : Text)
    → compare_text s t ≡ Ordering.lt
    → compare_text t u ≡ Ordering.lt
    → compare_text s u ≡ Ordering.lt
unfolding compare_text
compare_text_trans s [] [] h k = cc
compare_text_trans [] [] (c ∷ u) h k = refl
compare_text_trans (a ∷ s) [] (c ∷ u) h k = cc
compare_text_trans s (b ∷ t) [] h k = cc
compare_text_trans [] (b ∷ t) (c ∷ u) h k = refl
compare_text_trans (a ∷ s) (b ∷ t) (c ∷ u) h k = ground (arith, compare_text_trans s t u)

instance abbrev pub text_ord : Ord Text
text_ord = record {
  cmp = compare_text;
  cmp_refl = compare_text_refl;
  cmp_eq = compare_text_eq;
  cmp_gt = compare_text_gt;
  cmp_trans = compare_text_trans;
}

unfoldable pub fold_char : ℕ → ℕ
fold_char c =
    if leb b'A' c && leb c b'Z'
    then c - b'A' + b'a'
    else if c == b'['
    then b'{'
    else if c == b']'
    then b'}'
    else if c == 0x5c
    then b'|'
    else if c == b'~'
    then b'^'
    else c

unfoldable pub irc_case_fold : Text → Text
irc_case_fold value = map fold_char value

unfoldable pub irc_equals : Text → Text → Bool
irc_equals left right = irc_case_fold left == irc_case_fold right

fold_char_idem : (c : ℕ) → fold_char (fold_char c) ≡ fold_char c
unfolding fold_char
fold_char_idem c = ground arith

-- Folding the case twice is folding it once.
irc_case_fold_idem : (t : Text) → irc_case_fold (irc_case_fold t) ≡ irc_case_fold t
unfolding irc_case_fold
irc_case_fold_idem [] = refl
irc_case_fold_idem (c ∷ t) = cc (fold_char_idem c, irc_case_fold_idem t)
