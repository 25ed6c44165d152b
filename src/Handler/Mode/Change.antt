-- ===== src/Handler/Mode/Change.antt =====
-- srcs/Command/Mode.cpp and `ModeChange` of includes/Server.hpp: the mode string is scanned one
-- character at a time, `none` is a mode string that is rejected.
use irc.Base.{
  ℕ, ◌+◌, Bool, true, false, not, ◌||◌, ◌&&◌, [], ◌∷◌, ◌++◌, List, Option, none, some, ◌==◌,
  nat_ord, get_elem?, if◌then◌else◌,
}
use irc.Text.{Text}

pub record ModeChange : Type 0 where
  pub adding : Bool
  pub mode : ℕ
  pub has_argument : Bool
  pub argument : Text

unfoldable pub new_change : Bool → ℕ → ModeChange
new_change adding mode = record {
  adding = adding;
  mode = mode;
  has_argument = false;
  argument = [];
}

unfoldable pub is_channel_target : Text → Bool
is_channel_target [] = false
is_channel_target (c ∷ rest) = c == b'#' || c == b'&'

unfoldable pub mode_needs_argument : ℕ → Bool → Bool
mode_needs_argument mode adding =
    if mode == b'k' then true else if mode == b'o' then true else mode == b'l' && adding

-- The variables of the loop over the mode string.
pub record ModeScan : Type 0 where
  pub adding : Bool
  pub sign_seen : Bool
  pub argument_index : ℕ
  pub changes : List ModeChange

unfoldable pub start_scan : ModeScan
start_scan = record { adding = true; sign_seen = false; argument_index = 2; changes = [] }

unfoldable pub scan_step : List Text → ModeScan → ℕ → Option ModeScan
unfolding mode_needs_argument new_change
scan_step parameters scan character =
    if character == b'+'
    then some (record scan { adding = true; sign_seen = true })
    else if character == b'-'
    then some (record scan { adding = false; sign_seen = true })
    else if not scan.sign_seen
    then none
    else let change = new_change scan.adding character in
      if mode_needs_argument character scan.adding
      then elim (get_elem? parameters scan.argument_index) [
        | none ↦ none
        | some argument ↦ some (record scan {
          argument_index = scan.argument_index + 1;
          changes = scan.changes ++ record change { has_argument = true; argument = argument } ∷ [];
        })
      ]
      else some (record scan { changes = scan.changes ++ change ∷ [] })

unfoldable pub scan_modes : List Text → ModeScan → Text → Option ModeScan
unfolding scan_step
scan_modes parameters scan [] = some scan
scan_modes parameters scan (character ∷ rest) = elim (scan_step parameters scan character) [
  | none ↦ none
  | some next ↦ scan_modes parameters next rest
]

unfoldable pub nonempty_changes : Option ModeScan → Option (List ModeChange)
nonempty_changes none = none
nonempty_changes (some scan) = elim scan.changes [
  | [] ↦ none
  | change ∷ rest ↦ some (change ∷ rest)
]

-- The caller has a mode string: at least two parameters.
unfoldable pub parse_channel_mode_changes : List Text → Option (List ModeChange)
unfolding scan_modes start_scan nonempty_changes
parse_channel_mode_changes (target ∷ [] ∷ more) = none
parse_channel_mode_changes (target ∷ (c ∷ rest) ∷ more) =
    nonempty_changes (scan_modes (target ∷ (c ∷ rest) ∷ more) start_scan (c ∷ rest))
parse_channel_mode_changes _ = none
