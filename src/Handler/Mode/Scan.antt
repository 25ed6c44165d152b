-- ===== src/Handler/Mode/Scan.antt =====
-- What the scan of a mode string (parseChannelModeChanges, srcs/Command/Mode.cpp) gives.
use irc.Base.{
  ℕ, ◌+◌, Bool, true, false, not, ◌&&◌, ◌≡◌, refl, sym, ◌∙◌, subst, [], ◌∷◌, ◌++◌, List, length,
  get_elem?, is_empty, Option, some, ◌==◌, nat_ord, arith, if◌then◌else◌, Bool-cases, inl, inr,
  length-append,
}
use mathlib.Core.List.{append_assoc, append-nil}
use irc.Text.{Text}
use irc.Handler.Mode.Change.{
  ModeChange, ModeScan, new_change, mode_needs_argument, start_scan, scan_step, scan_modes,
  nonempty_changes, parse_channel_mode_changes,
}

-- A change that has an argument exactly if its mode needs one, and no sign as its mode.
unfoldable pub is_proper : ModeChange → Bool
unfolding mode_needs_argument
is_proper change =
    not (change.mode == b'+')
    && not (change.mode == b'-')
    && (if mode_needs_argument change.mode change.adding
        then change.has_argument
        else not change.has_argument && is_empty change.argument)

unfoldable pub are_proper : List ModeChange → Bool
unfolding is_proper
are_proper [] = true
are_proper (change ∷ rest) = is_proper change && are_proper rest

-- Each change with its sign.
unfoldable pub write_modes : List ModeChange → Text
write_modes [] = []
write_modes (change ∷ rest) =
    (if change.adding then b'+' else b'-') ∷ change.mode ∷ write_modes rest

unfoldable pub write_arguments : List ModeChange → List Text
write_arguments [] = []
write_arguments (change ∷ rest) =
    if change.has_argument then change.argument ∷ write_arguments rest else write_arguments rest

get_elem?-append :
    (before : List Text) (x : Text) (rest : List Text)
    → get_elem? (before ++ x ∷ rest) (length before) ≡ some x
get_elem?-append [] x rest = refl
get_elem?-append (y ∷ before) x rest = get_elem?-append before x rest

step_sign :
    (parameters : List Text) (adding : Bool) (scan : ModeScan)
    → scan_step parameters scan (if adding then b'+' else b'-')
      ≡ some (record scan { adding = adding; sign_seen = true })
unfolding scan_step
step_sign parameters true scan = refl
step_sign parameters false scan = refl

-- The scan behind the mode of a change.
abbrev scanned : ModeScan → ModeChange → ModeScan
scanned scan change = record {
  adding = change.adding;
  sign_seen = true;
  argument_index = if change.has_argument then scan.argument_index + 1 else scan.argument_index;
  changes = scan.changes ++ change ∷ [];
}

step_mode :
    (before more : List Text) (adding : Bool) (mode : ℕ) (has : Bool) (argument : Text)
    (scan : ModeScan)
    → is_proper (record { adding = adding; mode = mode; has_argument = has; argument = argument })
      ≡ true
    → scan.argument_index ≡ length before
    → scan_step
        (before ++ (if has then argument ∷ more else more))
        (record scan { adding = adding; sign_seen = true })
        mode
      ≡ some (
          scanned scan
            (record { adding = adding; mode = mode; has_argument = has; argument = argument }))
unfolding scan_step is_proper new_change
step_mode before more adding mode true argument scan h k =
    ground (arith, h, k, get_elem?-append before argument more)
step_mode before more adding mode false [] scan h k = ground (arith, h)
step_mode before more adding mode false (c ∷ argument) scan h k = absurd (ground (arith, h))

two_steps :
    (parameters : List Text) (scan a b : ModeScan) (sign mode : ℕ) (rest : Text)
    → scan_step parameters scan sign ≡ some a
    → scan_step parameters a mode ≡ some b
    → scan_modes parameters scan (sign ∷ mode ∷ rest) ≡ scan_modes parameters b rest
unfolding scan_modes
two_steps parameters scan a b sign mode rest e f = ground (arith, e, f)

-- The arguments read with a change.
arguments_read :
    (before : List Text) (change : ModeChange) (rest : List ModeChange)
    → (read : List Text) × (read ++ write_arguments rest
        ≡ before ++ write_arguments (change ∷ rest))
      × (length read ≡ (if change.has_argument then length before + 1 else length before))
unfolding write_arguments
arguments_read before change rest = elim (Bool-cases change.has_argument) [
  | inl has ↦ (
    before ++ change.argument ∷ [],
    append_assoc before (change.argument ∷ []) (write_arguments rest) ∙ ground (arith, has),
    ground (arith, has, length-append before (change.argument ∷ [])),
  )
  | inr none_given ↦ (before, ground (arith, none_given), ground (arith, none_given))
]

scan_modes-write :
    (before : List Text) (changes : List ModeChange) (scan : ModeScan)
    → are_proper changes ≡ true
    → scan.argument_index ≡ length before
    → (last : ModeScan) × (scan_modes (before ++ write_arguments changes) scan (write_modes changes)
        ≡ some last)
      × (last.changes ≡ scan.changes ++ changes)
unfolding scan_modes write_modes write_arguments are_proper
scan_modes-write before [] scan h k = (scan, refl, sym (append-nil scan.changes))
scan_modes-write before (change ∷ rest) scan h k =
    let (read, same, longer) = arguments_read before change rest in
    let one =
      two_steps (before ++ write_arguments (change ∷ rest)) scan
        (record scan { adding = change.adding; sign_seen = true }) (scanned scan change)
        (if change.adding then b'+' else b'-') change.mode (write_modes rest)
        (step_sign (before ++ write_arguments (change ∷ rest)) change.adding scan)
        (step_mode before (write_arguments rest) change.adding change.mode change.has_argument
          change.argument scan (ground (arith, h)) k) in
    let (last, all, gathered) =
      scan_modes-write read rest (scanned scan change) (ground (arith, h))
        (ground (arith, longer, k)) in
    (
      last,
      one
          ∙ subst (λ ps. scan_modes ps (scanned scan change) (write_modes rest) ≡ some last) same
              all,
      gathered ∙ append_assoc scan.changes (change ∷ []) rest,
    )

nonempty_gathered :
    (o : Option ModeScan) (last : ModeScan) (change : ModeChange) (rest : List ModeChange)
    → o ≡ some last
    → last.changes ≡ change ∷ rest
    → nonempty_changes o ≡ some (change ∷ rest)
unfolding nonempty_changes
nonempty_gathered o last change rest e f = ground (arith, e, f)

-- Changes written as one mode string, with a sign before each mode, and their arguments behind it in
-- their order, are read back, whatever the first parameter, if there is a change, each has an argument
-- exactly if its mode needs one, and none has a sign as its mode.
pub parse_channel_mode_changes-write :
    (target : Text) (change : ModeChange) (rest : List ModeChange)
    → are_proper (change ∷ rest) ≡ true
    → parse_channel_mode_changes
        (target ∷ write_modes (change ∷ rest) ∷ write_arguments (change ∷ rest))
      ≡ some (change ∷ rest)
unfolding parse_channel_mode_changes start_scan write_modes
parse_channel_mode_changes-write target change rest h =
    let modes = write_modes (change ∷ rest) in
    let (last, all, gathered) =
      scan_modes-write (target ∷ modes ∷ []) (change ∷ rest) start_scan h refl in
    nonempty_gathered _ last change rest all gathered
