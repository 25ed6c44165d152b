-- ===== src/Protocol/Access.antt =====
-- What only PASS can change: whether a client's password is accepted.
use irc.Base.{
  ℕ, Bool, true, false, ◌≡◌, refl, ◌∙◌, Option, none, some, ◌⊎◌, inl, inr, nat_ord, arith,
  get_elem?, ==_eq, ◌==◌, sym, Bool-cases, if◌then◌else◌,
}
use mathlib.Core.Option
use irc.Map.{lookup, modify}
use irc.Map.Laws.{lookup-modify, lookup-map_values}
use irc.Text.{Text, codes, text_ord}
use irc.Client.{Client, set_password_accepted, set_user, set_registered, set_nickname}
use irc.Command.{Command}
use irc.Server.{Server, modify_client}
use irc.Server.Send.Frames.{quiet, core}
use irc.Handler.Nick.{forget_nickname, take_nickname}
use irc.Handler.Kick.{remove_member_from_channel}
use irc.Handler.Dispatch.{dispatch_command}
use irc.Protocol.{
  Act, Acts, done, next, authenticate, describe, register, rename, create, join, retitle,
  change_mode, kick, invite,
}
use irc.Protocol.Writing.{Writes-rest}
use irc.Protocol.Commands.{dispatch_command-Acts}

-- Whether the client of the descriptor has given the password.
unfoldable pub accepted_at : ℕ → Server → Bool
accepted_at fd s = elim (lookup fd s.clients) [ none ↦ false | some c ↦ c.password_accepted ]

abbrev Gave : ℕ → ℕ → Command → Server → Type 0
Gave g fd command v =
    (g ≡ fd) × (command.name ≡ codes "PASS") × (get_elem? command.parameters 0 ≡ some v.password)

accepted_at-modify_same :
    (g fd : ℕ) (f : Client → Client) (s : Server)
    → ((c : Client) → (f c).password_accepted ≡ c.password_accepted)
    → accepted_at g (modify_client fd f s) ≡ accepted_at g s
unfolding accepted_at
accepted_at-modify_same g fd f s same = go (lookup g s.clients) (lookup-modify fd g f s.clients)
  where
    go :
        (o : Option Client)
        → lookup g (modify fd f s.clients) ≡ (if fd == g then Option.map f o else o)
        → elim (lookup g (modify fd f s.clients)) [ none ↦ false | some c ↦ c.password_accepted ]
          ≡ elim o [ none ↦ false | some c ↦ c.password_accepted ]
    go none e = ground (arith, e)
    go (some c) e = ground (arith, e, same c)

remove_member_from_channel-clients :
    (name : Text) (fd : ℕ) (v : Server)
    → ((remove_member_from_channel name fd v).clients ≡ v.clients)
      × ((remove_member_from_channel name fd v).password ≡ v.password)
unfolding remove_member_from_channel
remove_member_from_channel-clients name fd v = ground arith

accepted_at-modify_other :
    (g fd : ℕ) (f : Client → Client) (s : Server)
    → (fd == g) ≡ false
    → accepted_at g (modify_client fd f s) ≡ accepted_at g s
unfolding accepted_at
accepted_at-modify_other g fd f s other = ground (arith, other, lookup-modify fd g f s.clients)

-- The password of the server never changes, and a password is accepted from PASS alone.
-- Neither does a new nickname.
accepted_at-take_nickname :
    (g fd : ℕ) (nickname : Text) (v : Server)
    → accepted_at g (take_nickname fd nickname v) ≡ accepted_at g v
unfolding accepted_at take_nickname set_nickname
accepted_at-take_nickname g fd nickname v =
    accepted_at-modify_same g fd (set_nickname nickname) v (λ c. refl)

forget_nickname-clients :
    (fd : ℕ) (c : Client) (nickname : Text) (v : Server)
    → ((forget_nickname c nickname v).clients ≡ v.clients)
      × ((take_nickname fd nickname (forget_nickname c nickname v)).password ≡ v.password)
unfolding forget_nickname take_nickname
forget_nickname-clients fd c nickname v = ground arith

accepted_at-same :
    (g : ℕ) (u v : Server) → u.clients ≡ v.clients → accepted_at g u ≡ accepted_at g v
unfolding accepted_at
accepted_at-same g u v e = rw e

Act-access :
    (g : ℕ) {fd : ℕ} {command : Command} {v u : Server}
    → Act fd command v u
    → (u.password ≡ v.password)
      × (accepted_at g u ≡ true → (accepted_at g v ≡ true) ⊎ Gave g fd command v)
unfolding accepted_at
Act-access g {fd} (authenticate v c named actor given) = (
  refl,
  λ h. elim (Bool-cases (fd == g)) [
    | inl same ↦ inr (sym (==_eq fd g same), named, given)
    | inr other ↦ inl (sym (accepted_at-modify_other g fd set_password_accepted v other) ∙ h)
  ],
)
Act-access g {fd} (describe v c username realname named actor first fourth) = (
  refl,
  λ h. inl (
      sym
        (accepted_at-modify_same g fd (set_user username realname) v (λ c. unfold set_user in refl))
      ∙ h),
)
Act-access g {fd} (register v c may actor ready) = (
  refl,
  λ h. inl (
      sym
        (accepted_at-modify_same g fd (set_registered true) v (λ c. unfold set_registered in refl))
      ∙ h),
)
Act-access g {fd} (rename v c nickname named given found valid free) =
    let (kept, pass) = forget_nickname-clients fd c nickname v in
    (
      pass,
      λ h. inl (
          sym (accepted_at-same g (forget_nickname c nickname v) v kept)
          ∙ sym (accepted_at-take_nickname g fd nickname (forget_nickname c nickname v))
          ∙ h),
    )
Act-access g {fd} (create v c name named given actor fits missing) = (refl, λ h. inl h)
Act-access g {fd} (join v c name rest channel named given actor found fresh open_to) =
    (refl, λ h. inl h)
Act-access g {fd} (retitle v c name topic channel named given titled actor found inside allowed) =
    (refl, λ h. inl h)
Act-access g {fd}
      (change_mode v w c name modes more channel changes named given actor found op read writes) =
    let (clients, password) = Writes-rest writes in
    (password, λ h. inl (sym (accepted_at-same g w v clients) ∙ h))
Act-access g {fd}
      (kick v c name nickname channel target named first second actor found allowed known inside) =
    let same = remove_member_from_channel-clients name target.fd v in
    (
      same.1,
      λ h.
          inl (sym (accepted_at-same g (remove_member_from_channel name target.fd v) v same.0) ∙ h),
    )
Act-access g {fd}
      (invite v c target name nickname channel named first second actor found allowed known
        outside) =
    (refl, λ h. inl h)

Acts-access :
    (g : ℕ) {fd : ℕ} {command : Command} {v u : Server}
    → Acts fd command v u
    → (u.password ≡ v.password)
      × (accepted_at g u ≡ true → (accepted_at g v ≡ true) ⊎ Gave g fd command v)
Acts-access g done = (refl, λ h. inl h)
Acts-access g (next before act) =
    let (kept, from) = Acts-access g before in
    let (last, new) = Act-access g act in
    (
      last ∙ kept,
      λ h. elim (new h) [
        | inl old ↦ from old
        | inr (self, named, given) ↦ inr (self, named, rw kept at given)
      ],
    )

accepted_at-quiet : (g : ℕ) (s : Server) → accepted_at g (quiet s) ≡ accepted_at g s
unfolding accepted_at quiet
accepted_at-quiet g s = ground (arith, lookup-map_values core g s.clients)

-- A client whose password was not accepted before a command and is accepted behind it is the client
-- that sent the command, which was PASS with the password of the server.
pub dispatch_command-accepted_at :
    (c : Client) (command : Command) (s : Server) (g : ℕ)
    → lookup c.fd s.clients ≡ some c
    → accepted_at g s ≡ false
    → accepted_at g (dispatch_command c.fd command s) ≡ true
    → (g ≡ c.fd)
      × (command.name ≡ codes "PASS")
      × (get_elem? command.parameters 0 ≡ some s.password)
dispatch_command-accepted_at c command s g found before behind =
    elim ((Acts-access g (dispatch_command-Acts c command s found)).1
      (accepted_at-quiet g (dispatch_command c.fd command s) ∙ behind)) [
        | inl old ↦ absurd (ground (arith, accepted_at-quiet g s))
        | inr (self, named, given) ↦ (self, named, unfold quiet in given)
      ]
