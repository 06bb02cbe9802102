-- ===== src/Registration/Start.antt =====
-- src/core/xep/registration.c: the start of a registration.
use irssi_xmpp.Prelude.{ℕ, suc, Bool, false, Option, none, some, [], ◌∷◌, ◌++◌, if◌then◌else◌}
use irssi_xmpp.Prelude.Int.{ℤ, is_pos}
use irssi_xmpp.Prelude.Str.{Str}
use irssi_xmpp.Registration.{
  Registration, State, World, connect, register_error, unref, called, rd_cleanup,
}

-- The registration with its connection in the list, and the attempt to open that.
unfoldable pub attempted : Registration → State → State
attempted rd s = record s {
  register_data = rd ∷ s.register_data;
  next_conn = suc s.next_conn;
  calls = s.calls ++ connect s.next_conn rd.address rd.port ∷ [];
}

-- What set_ssl, set_proxy and lm_connection_open do in start_registration. An error has a message.
pub data Outcome : Type 0 where
  refused : Option Str → Bool → Outcome
  not_opened : Option Str → Bool → Outcome
  opening : Outcome

module _ (w : World) where
  -- `if (rd->port <= 0)`
  port_of : Registration → ℤ
  port_of rd =
      if is_pos rd.port then rd.port else if rd.use_ssl then w.default_port_ssl else w.default_port

  -- The record with its connection.
  unfoldable pub connecting : Registration → ℕ → Registration
  unfolding port_of
  connecting rd c = record rd { port = port_of rd; id = none; lmconn = some c; handler = false }

  -- The label `err`: the connection is released, then the record with what connection it has.
  unfoldable pub given_up : Option Str → Bool → ℕ → Registration → State → State
  unfolding rd_cleanup
  given_up message closed c rd s =
      let calls = register_error rd.username rd.domain message ∷ unref (some c) ∷ [] in
      rd_cleanup closed rd (called s calls)

  -- `refused` stands for set_ssl or set_proxy, before the record has its connection.
  unfoldable pub start_registration : Outcome → Registration → State → State
  unfolding given_up attempted connecting
  start_registration (refused message closed) rd s =
      given_up message closed s.next_conn rd (record s { next_conn = suc s.next_conn })
  start_registration (not_opened message closed) rd s =
      let mine = connecting rd s.next_conn in
      given_up message closed s.next_conn mine (attempted mine s)
  start_registration opening rd s = attempted (connecting rd s.next_conn) s
