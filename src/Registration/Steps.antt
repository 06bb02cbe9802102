-- ===== src/Registration/Steps.antt =====
-- src/core/xep/registration.c: registrations started, opened, answered and closed, in any order.
use irssi_xmpp.Prelude.{
  ℕ, ◌+◌, ◌≡◌, refl, ap, ◌∙◌, Bool, true, false, not, ◌||◌, Option, none, some, List, [], ◌∷◌, ◌++◌,
  if◌then◌else◌, remove_first, remove_first-absent, count, bit, sum_of, sum_of-append, arith,
}
use irssi_xmpp.Prelude.Str.{Str}
use irssi_xmpp.Tools.{xmpp_have_domain}
use irssi_xmpp.Registration.{
  Registration, State, Call, World, Sending, at_addr, released, rd_cleanup, handle_register,
  register_lm_open_cb, register_lm_close_cb, started, unref, connect, register_error,
}
use irssi_xmpp.Registration.Start.{
  Outcome, refused, not_opened, opening, attempted, given_up, connecting, start_registration,
}
use irssi_xmpp.Registration.Commands.{
  CommandError, is_empty, Params, cmd_xmppregister, register, registration_of,
}
use irssi_xmpp.Registration.Settled.{
  is_unref, is_report, is_start, registers, starts_released, holds, conn_is, IsSettled,
  Keeps-IsSettled, Stands, unrefs_released, reports_released,
}
use irssi_xmpp.Registration.Kept.{
  handle_register-Keeps, register_lm_close_cb-Keeps, register_lm_open_cb-Keeps,
}

abbrev opened_or_refused : Outcome → Bool
opened_or_refused (not_opened message closed) = false
opened_or_refused o = true

-- The states that commands and callbacks reach. A callback gets a registration that is in the list.
-- No attempt to open a connection fails at once.
pub data Reaches (w : World) : State → State → Type 0 where
  here : {s : State} → Reaches w s s
  command :
      {s t : State} (outcome : Outcome) (params : Option Params)
      → opened_or_refused outcome ≡ true
      → Reaches w s t
      → Reaches w s (cmd_xmppregister w outcome params t).0
  opened :
      {s t : State} (sending : Sending) (success : Bool) (rd : Registration)
      → Stands rd t
      → Reaches w s t
      → Reaches w s (register_lm_open_cb w sending success rd t)
  replied :
      {s t t' : State} (closed : Bool) (rd : Registration) (message : w.lm.Node)
      → Stands rd t
      → handle_register w closed rd message t ≡ some t'
      → Reaches w s t
      → Reaches w s t'
  closed :
      {s t : State} (reason_ok is_closed : Bool) (rd : Registration)
      → Stands rd t
      → Reaches w s t
      → Reaches w s (register_lm_close_cb w reason_ok is_closed rd t)

two_more :
    (f : Call → ℕ) (a b c : List Call)
    → sum_of f ((a ++ b) ++ c) ≡ sum_of f a + sum_of f b + sum_of f c
two_more f a b c = omega (arith, sum_of-append f (a ++ b) c, sum_of-append f a b)

module _ (w : World) where
  -- A registration whose connection is being opened.
  begun :
      (rd : Registration) (s : State)
      → rd.addr ≡ s.next
      → IsSettled s
      → IsSettled (register w opening rd s)
  unfolding register start_registration attempted connecting at_addr
  begun rd s a i =
      let first = started rd.username rd.domain ∷ [] in
      let mine = connecting w rd s.next_conn in
      let second = connect s.next_conn mine.address mine.port ∷ [] in
      record {
        fresh = λ b h. ground (arith, i.fresh b, a);
        once =
            λ c. ground (arith, i.once c, two_more (λ x. bit (is_unref c x)) s.calls first second);
        reported = λ p. omega (
          arith,
          i.reported p,
          two_more (λ x. bit (is_report p x)) s.calls first second,
          two_more (λ x. bit (is_start p x)) s.calls first second,
        );
        connected = omega (
          arith,
          i.connected,
          two_more (λ x. bit (is_start (λ user domain. true) x)) s.calls first second,
        );
      }

  absent :
      (rd : Registration) (s : State)
      → rd.addr ≡ s.next
      → IsSettled s
      → remove_first (at_addr rd.addr) s.register_data ≡ s.register_data
  absent rd s a i =
      remove_first-absent (at_addr rd.addr) s.register_data
        (ap (λ n. count (at_addr n) s.register_data) a ∙ i.fresh s.next (omega arith))

  -- One whose connection is given up before the registration has it.
  given_up_early :
      (message : Option Str) (is_closed : Bool) (rd : Registration) (s : State)
      → rd.addr ≡ s.next
      → rd.lmconn ≡ none
      → IsSettled s
      → IsSettled (register w (refused message is_closed) rd s)
  unfolding register start_registration given_up rd_cleanup
  given_up_early message is_closed rd s a n i =
      let first = started rd.username rd.domain ∷ [] in
      let second = register_error rd.username rd.domain message ∷ unref (some s.next_conn) ∷ [] in
      let third = released is_closed rd.handler rd.lmconn in
      let same = absent rd s a i in
      let no_conn : (c : ℕ) → count (is_unref c) third ≡ 0 =
        λ c. unrefs_released c is_closed rd.handler rd.lmconn ∙ ap (λ o. bit (conn_is c o)) n in
      record {
        fresh = λ b h. ap (λ l. count (at_addr b) l) same ∙ i.fresh b (omega (arith, h));
        once = λ c. ground (
          arith,
          i.once c,
          ap (λ l. count (holds c) l) same,
          two_more (λ x. bit (is_unref c x)) (s.calls ++ first) second third,
          sum_of-append (λ x. bit (is_unref c x)) s.calls first,
          no_conn c,
        );
        reported = λ p. omega (
          arith,
          i.reported p,
          ap (λ l. count (registers p) l) same,
          two_more (λ x. bit (is_report p x)) (s.calls ++ first) second third,
          sum_of-append (λ x. bit (is_report p x)) s.calls first,
          reports_released p is_closed rd.handler rd.lmconn,
          two_more (λ x. bit (is_start p x)) (s.calls ++ first) second third,
          sum_of-append (λ x. bit (is_start p x)) s.calls first,
          starts_released p is_closed rd.handler rd.lmconn,
        );
        connected = omega (
          arith,
          i.connected,
          two_more (λ x. bit (is_start (λ user domain. true) x)) (s.calls ++ first) second third,
          sum_of-append (λ x. bit (is_start (λ user domain. true) x)) s.calls first,
          starts_released (λ user domain. true) is_closed rd.handler rd.lmconn,
        );
      }

  registered :
      (outcome : Outcome) (rd : Registration) (s : State)
      → opened_or_refused outcome ≡ true
      → rd.addr ≡ s.next
      → rd.lmconn ≡ none
      → IsSettled s
      → IsSettled (register w outcome rd s)
  registered (refused message is_closed) rd s o a n i = given_up_early message is_closed rd s a n i
  registered (not_opened message is_closed) rd s o a n i = ground arith
  registered opening rd s o a n i = begun rd s a i

  if-IsSettled :
      (b : Bool) (p q : State × Option CommandError)
      → IsSettled p.0
      → IsSettled q.0
      → IsSettled (if b then p else q).0
  if-IsSettled true p q h k = h
  if-IsSettled false p q h k = k

  cmd_xmppregister-IsSettled :
      (outcome : Outcome) (params : Option Params) (s : State)
      → opened_or_refused outcome ≡ true
      → IsSettled s
      → IsSettled (cmd_xmppregister w outcome params s).0
  unfolding cmd_xmppregister registration_of
  cmd_xmppregister-IsSettled outcome none s o i = i
  cmd_xmppregister-IsSettled outcome (some p) s o i =
      if-IsSettled (is_empty p.jid || is_empty p.password || not (xmpp_have_domain p.jid))
        (s, some CommandError.not_enough_params)
        (register w outcome (registration_of p s.next) s, none) i
        (registered outcome (registration_of p s.next) s o refl refl i)

  -- Commands, which may be refused before a connection is opened, and callbacks of registrations
  -- that are in the list come in whatever order; no attempt to open a connection fails at once. If
  -- it was so before, then each connection made is held by one registration or has been released
  -- once; for any choice of accounts, as many of their registrations were announced as started as
  -- are left or had their end reported, under the same user and domain; as many were started as
  -- connections were made; and no registration has the next address.
  pub registrations_settle : {s t : State} → IsSettled s → Reaches w s t → IsSettled t
  registrations_settle i here = i
  registrations_settle i (command {s} {t} outcome params o r) =
      cmd_xmppregister-IsSettled outcome params t o (registrations_settle i r)
  registrations_settle i (opened {s} {t} sending success rd h r) =
      Keeps-IsSettled t _ (register_lm_open_cb-Keeps w sending success rd t h)
        (registrations_settle i r)
  registrations_settle i (replied {s} {t} {t'} is_closed rd message h e r) =
      Keeps-IsSettled t t' (handle_register-Keeps w is_closed rd message t t' h e)
        (registrations_settle i r)
  registrations_settle i (closed {s} {t} reason_ok is_closed rd h r) =
      Keeps-IsSettled t _ (register_lm_close_cb-Keeps w reason_ok is_closed rd t h)
        (registrations_settle i r)

  -- Where the attempt to open the connection fails at once, the connection is released twice.
  pub start_registration_twice :
      (message : Option Str) (is_closed : Bool) (rd : Registration) (s : State)
      → IsSettled s
      → count
          (is_unref s.next_conn)
          (start_registration w (not_opened message is_closed) rd s).calls
        ≡ 2
  unfolding start_registration given_up attempted connecting rd_cleanup
  start_registration_twice message is_closed rd s i =
      let c = s.next_conn in
      let mine = connecting w rd c in
      let first = connect c mine.address mine.port ∷ [] in
      let second = register_error rd.username rd.domain message ∷ unref (some c) ∷ [] in
      let third = released is_closed false (some c) in
      ground (
        arith,
        i.once c,
        two_more (λ x. bit (is_unref c x)) (s.calls ++ first) second third,
        sum_of-append (λ x. bit (is_unref c x)) s.calls first,
        unrefs_released c is_closed false (some c),
      )
