-- ===== src/Tests/State.antt =====
-- Theorems on the state of the server, at the test server.
use irc.Base.{
  ℕ, true, false, [], ◌∷◌, ◌≡◌, refl, subst, nat_ord, Option, some, none, arith, inl, inr, ◌==◌,
  ==_eq, Bool-cases, Option-cases, is_empty, Ord,
}
use irc.Map.{lookup, map_values, member}
use irc.Text.{Text, codes, text_ord, irc_case_fold, fold_char, compare_text}
use irc.Channel.{has_member}
use irc.Client.{Client, is_registration_ready}
use irc.Server.Send.Frames.{quiet}
use irc.Connection.Settled.{Settles, accept_client-Settles}
use irc.Command.{Command}
use irc.Loop.{AtRan, run, new_server, ready}
use irc.Connection.{accepted, accept_failed, accept_client, remove_descriptor}
use irc.WellFormed.Preserved.{dispatch_command-IsWellFormed}
use irc.WellFormed.Departed.{remove_descriptor-IsWellFormed}
use irc.WellFormed.Departed.Trace.{remove_descriptor_no_trace, member_at, invited_at}
use irc.WellFormed.Arrived.{FitOutcome, IsFresh}
use irc.WellFormed.Running.{IsSystem, run-new_server-FitOutcome}
use irc.Handler.Dispatch.{dispatch_command}
use irc.Protocol.{Acts}
use irc.Protocol.Commands.{dispatch_command-Acts}
use irc.WellFormed.{nickname_of, registered_at, IsClient, IsChannel, IsWellFormed}
use irc.Tests.{
  alice, bob, test_channel, test_server, command_of, channel_name, test_system, readable,
}

-- What holds of both entries of a map holds of all that is found there.
pub two_entries {ℓ κ} :
    {K V : Type ℓ} ⦃o : Ord K⦄ (P : K → V → Type κ) (a b : K) (x y : V)
    → P a x
    → P b y
    → (k : K) (v : V) → lookup k ((a, x) ∷ (b, y) ∷ []) ≡ some v
    → P k v
unfolding lookup
two_entries P a b x y p q k v e = elim (Bool-cases (a == k)) [
  | inl same ↦ subst (λ w. P k w) (ground arith) (subst (λ j. P j x) (==_eq a k same) p)
  | inr other ↦ elim (Bool-cases (b == k)) [
    | inl same ↦ subst (λ w. P k w) (ground arith) (subst (λ j. P j y) (==_eq b k same) q)
    | inr neither ↦ absurd (ground arith)
  ]
]

pub one_entry {ℓ κ} :
    {K V : Type ℓ} ⦃o : Ord K⦄ (P : K → V → Type κ) (a : K) (x : V)
    → P a x
    → (k : K) (v : V) → lookup k ((a, x) ∷ []) ≡ some v
    → P k v
unfolding lookup
one_entry P a x p k v e = elim (Bool-cases (a == k)) [
  | inl same ↦ subst (λ w. P k w) (ground arith) (subst (λ j. P j x) (==_eq a k same) p)
  | inr other ↦ absurd (ground arith)
]

nickname_of-indexed :
    (fd : ℕ) (c : Client)
    → lookup fd (quiet test_server).clients ≡ some c
    → lookup (irc_case_fold c.nickname) test_server.nickname_index ≡ some fd
unfolding quiet map_values lookup irc_case_fold fold_char compare_text
nickname_of-indexed =
    two_entries (λ fd c. lookup (irc_case_fold c.nickname) test_server.nickname_index ≡ some fd) 4 5
      alice bob refl refl

test_server_complete :
    (fd : ℕ)
    → is_empty (nickname_of fd (quiet test_server)) ≡ false
    → lookup (irc_case_fold (nickname_of fd (quiet test_server))) test_server.nickname_index
      ≡ some fd
unfolding nickname_of
test_server_complete fd h = elim (Option-cases (lookup fd (quiet test_server).clients)) [
  | inl gone ↦ absurd (ground (arith, gone))
  | inr (c, e) ↦ rw (e, nickname_of) (nickname_of-indexed fd c e)
]

members_registered :
    (fd : ℕ) → has_member fd test_channel ≡ true → registered_at fd (quiet test_server) ≡ true
unfolding has_member member registered_at quiet map_values lookup
members_registered fd h = elim (Bool-cases (4 == fd)) [
  | inl same ↦ ground arith
  | inr other ↦ ground arith
]

pub test_server-IsWellFormed : IsWellFormed (quiet test_server)
unfolding quiet map_values nickname_of lookup irc_case_fold fold_char member is_registration_ready
    compare_text
test_server-IsWellFormed = record {
  clients =
      two_entries IsClient 4 5 alice bob (record { keyed = refl; ready = λ _. refl })
        (record { keyed = refl; ready = λ _. refl });
  nicknames = record {
    sound =
        two_entries
          (λ key fd.
            (irc_case_fold (nickname_of fd test_server) ≡ key)
            × (is_empty (nickname_of fd test_server) ≡ false))
          (b'a' ∷ []) (b'b' ∷ []) 4 5 (refl, refl) (refl, refl);
    complete = test_server_complete;
  };
  clients_sorted = ((refl, tt), (tt, tt));
  index_sorted = ((refl, tt), (tt, tt));
  channels_sorted = (tt, tt);
  channels = one_entry (IsChannel (quiet test_server)) channel_name test_channel (record {
    named = refl;
    inhabited = refl;
    ordered = ((refl, tt), (tt, tt));
    members = members_registered;
    invites = λ name h. absurd (ground (arith, h));
  });
}

bob_found : lookup 5 test_server.clients ≡ some bob
unfolding lookup
bob_found = refl

-- `MODE #c +t-k x` by alice, the operator.
abbrev mode_command : Command
mode_command = command_of (codes "MODE") (channel_name ∷ codes "+t-k" ∷ codes "x" ∷ [])

dispatch_command-Acts_example :
    Acts 4 mode_command (quiet test_server) (quiet (dispatch_command 4 mode_command test_server))
dispatch_command-Acts_example =
    dispatch_command-Acts alice mode_command test_server (unfold lookup in refl)

dispatch_command-IsWellFormed_example : IsWellFormed (
    quiet (
      dispatch_command 4 (command_of (codes "KICK") (channel_name ∷ (b'b' ∷ []) ∷ [])) test_server))
dispatch_command-IsWellFormed_example =
    dispatch_command-IsWellFormed alice
      (command_of (codes "KICK") (channel_name ∷ (b'b' ∷ []) ∷ [])) test_server
      (unfold lookup in refl) test_server-IsWellFormed

remove_descriptor-IsWellFormed_example : IsWellFormed (quiet (remove_descriptor 4 test_server))
remove_descriptor-IsWellFormed_example =
    remove_descriptor-IsWellFormed alice test_server (unfold lookup in refl)
      test_server-IsWellFormed

accept_client-Settles_example :
    Settles (accepted 5 true) test_server (accept_client (accepted 5 true) test_server)
accept_client-Settles_example = accept_client-Settles (accepted 5 true) test_server

pub test_system-IsSystem : IsSystem test_system
test_system-IsSystem round s = go (lookup 7 s.clients) refl
  where
    go :
        (o : Option Client)
        → lookup 7 s.clients ≡ o
        → IsFresh (elim o [ none ↦ accepted 7 true | some c ↦ accept_failed ]) s
    go none e = e
    go (some c) e = tt

run-new_server-FitOutcome_example :
    AtRan FitOutcome (
      run 3 (λ _. test_system) (λ _ _. ready (readable ∷ readable ∷ [])) (new_server 3 (b'p' ∷ [])))
run-new_server-FitOutcome_example =
    run-new_server-FitOutcome 3 (b'p' ∷ []) 3 (λ _. test_system)
      (λ _ _. ready (readable ∷ readable ∷ [])) (λ _. test_system-IsSystem)

remove_descriptor_no_trace_example :
    (lookup 4 (remove_descriptor 4 test_server).clients ≡ none)
    × (lookup (irc_case_fold (b'a' ∷ [])) (remove_descriptor 4 test_server).nickname_index ≡ none)
    × ((key : Text) → member_at key 4 (remove_descriptor 4 test_server) ≡ false)
    × ((key : Text) → invited_at key (b'a' ∷ []) (remove_descriptor 4 test_server) ≡ false)
remove_descriptor_no_trace_example =
    remove_descriptor_no_trace alice test_server (unfold lookup in refl) test_server-IsWellFormed
      refl
