-- ===== src/WellFormed/Clients.antt =====
-- Writes of one client that keep its nickname.
use irc.Base.{subst, ◌∙◌, ℕ, true, false, ◌≡◌, refl, some, inl, inr, nat_ord, arith, Option-cases}
use irc.Map.{lookup}
use irc.Map.Laws.{lookup-modify, lookup-modify_cases}
use irc.Map.Sorted.{modify-Sorted}
use irc.Text.{Text, text_ord}
use irc.Client.{Client, is_registration_ready, set_password_accepted, set_user, set_registered}
use irc.Server.{Server, modify_client}
use irc.WellFormed.{nickname_of, registered_at, IsClient, IsWellFormed}

-- A write that keeps the descriptor and the nickname, and never ends a registration.
pub record IsMild (f : Client → Client) (at : ℕ) (v : Server) : Type 0 where
  pub fd : (c : Client) → (f c).fd ≡ c.fd
  pub nickname : (c : Client) → (f c).nickname ≡ c.nickname
  pub registered : (c : Client) → c.registered ≡ true → (f c).registered ≡ true
  pub ready :
      (c : Client)
      → lookup at v.clients ≡ some c
      → (c.registered ≡ true → is_registration_ready c ≡ true)
      → (f c).registered ≡ true
      → is_registration_ready (f c) ≡ true

module _ (fd : ℕ) (f : Client → Client) (v : Server) (mild : IsMild f fd v) where
  nickname_of-modify : (g : ℕ) → nickname_of g (modify_client fd f v) ≡ nickname_of g v
  unfolding nickname_of
  nickname_of-modify g = elim (Option-cases (lookup g v.clients)) [
    | inl e ↦ ground (arith, lookup-modify fd g f v.clients)
    | inr (c, e) ↦ ground (arith, lookup-modify fd g f v.clients, mild.nickname c)
  ]

  registered_at-modify :
      (g : ℕ) → registered_at g v ≡ true → registered_at g (modify_client fd f v) ≡ true
  unfolding registered_at
  registered_at-modify g h = elim (Option-cases (lookup g v.clients)) [
    | inl e ↦ ground (arith, lookup-modify fd g f v.clients)
    | inr (c, e) ↦ ground (arith, lookup-modify fd g f v.clients, mild.registered c)
  ]

  IsClient-modify :
      (g : ℕ) (c : Client)
      → ((b : Client) → lookup g v.clients ≡ some b → IsClient g b)
      → lookup g (modify_client fd f v).clients ≡ some c
      → IsClient g c
  IsClient-modify g c ok e = elim (lookup-modify_cases fd g f v.clients c e) [
    | inr old ↦ ok c old
    | inl (b, old, same, written) ↦ subst (IsClient g) written (record {
      keyed = mild.fd b ∙ (ok b old).keyed;
      ready = mild.ready b (rw same old) (ok b old).ready;
    })
  ]

  pub modify_client-IsWellFormed : IsWellFormed v → IsWellFormed (modify_client fd f v)
  modify_client-IsWellFormed w = record {
    clients = λ g c e. IsClient-modify g c (w.clients g) e;
    nicknames = record {
      sound = λ key g e. rw nickname_of-modify (w.nicknames.sound key g e);
      complete = λ g. rw nickname_of-modify (w.nicknames.complete g);
    };
    clients_sorted = modify-Sorted fd f v.clients w.clients_sorted;
    index_sorted = w.index_sorted;
    channels_sorted = w.channels_sorted;
    channels = λ key channel e.
        let ok = w.channels key channel e in
        record {
          named = ok.named;
          inhabited = ok.inhabited;
          ordered = ok.ordered;
          members = λ g m. registered_at-modify g (ok.members g m);
          invites = ok.invites;
        };
  }

module _ (fd : ℕ) (v : Server) where
  -- Before a registration nothing is asked of a client.
  IsMild-unregistered :
      (f : Client → Client) {c : Client}
      → lookup fd v.clients ≡ some c
      → c.registered ≡ false
      → ((b : Client)
          → ((f b).fd ≡ b.fd) × ((f b).nickname ≡ b.nickname) × ((f b).registered ≡ b.registered))
      → IsMild f fd v
  IsMild-unregistered f {c} e r same = record {
    fd = λ b. (same b).0;
    nickname = λ b. (same b).1;
    registered = λ b h. (same b).2 ∙ h;
    ready = λ b found _ h.
        let c' : c ≡ b = ground arith in let kept = (same b).2 in absurd (ground arith);
  }

  pub set_password_accepted-IsWellFormed :
      {c : Client}
      → lookup fd v.clients ≡ some c
      → c.registered ≡ false
      → IsWellFormed v
      → IsWellFormed (modify_client fd set_password_accepted v)
  unfolding set_password_accepted
  set_password_accepted-IsWellFormed e r =
      modify_client-IsWellFormed fd set_password_accepted v
        (IsMild-unregistered set_password_accepted e r λ b. (refl, refl, refl))

  pub set_user-IsWellFormed :
      (username realname : Text) {c : Client}
      → lookup fd v.clients ≡ some c
      → c.registered ≡ false
      → IsWellFormed v
      → IsWellFormed (modify_client fd (set_user username realname) v)
  unfolding set_user
  set_user-IsWellFormed username realname e r =
      modify_client-IsWellFormed fd (set_user username realname) v
        (IsMild-unregistered (set_user username realname) e r λ b. (refl, refl, refl))

  pub set_registered-IsWellFormed :
      {c : Client}
      → lookup fd v.clients ≡ some c
      → is_registration_ready c ≡ true
      → IsWellFormed v
      → IsWellFormed (modify_client fd (set_registered true) v)
  unfolding set_registered is_registration_ready
  set_registered-IsWellFormed {c} e r =
      modify_client-IsWellFormed fd (set_registered true) v (record {
        fd = λ b. refl;
        nickname = λ b. refl;
        registered = λ b h. refl;
        ready = λ b found _ h. let c' : c ≡ b = ground arith in ground arith;
      })
