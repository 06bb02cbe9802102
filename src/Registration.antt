-- ===== src/Registration.antt =====
-- src/core/xep/registration.c: accounts registered at a server.
--
-- A registration that Loudmouth's callbacks hold by pointer has its address in the field `addr`.
-- A connection is the number that lm_connection_new gives it; `next_conn` is the next one. `calls`
-- lists the signals and the calls of Loudmouth that matter, in order.
pub mod Start
pub mod Commands
pub mod Settled
pub mod Kept
pub mod Steps
mod Tests
use irssi_xmpp.Prelude.{
  ℕ, suc, ◌+◌, ◌==◌, Bool, true, false, not, Option, none, some, List, [], ◌∷◌, ◌++◌, if◌then◌else◌,
  remove_first, update_first,
}
use irssi_xmpp.Prelude.Int.{ℤ, pos, negsuc, is_pos}
use irssi_xmpp.Prelude.Str.{Str, codes, str_eq, atoi}
use irssi_xmpp.Tools.{Charsets, xmpp_recode_out}
use irssi_xmpp.Loudmouth.{Loudmouth, SubType}
use irssi_xmpp.Loudmouth.Elements.{element, elements, Message, MessageType, text_element, xmlns}

-- `struct register_data`
pub record Registration : Type 0 where
  pub addr : ℕ
  pub username : Str
  pub domain : Option Str
  pub password : Str
  pub address : Option Str
  pub port : ℤ
  pub use_ssl : Bool
  pub id : Option Str
  pub lmconn : Option ℕ
  pub handler : Bool

pub data Call : Type 0 where
  started succeed : Str → Option Str → Call
  failed : Str → Option Str → ℤ → Call
  register_error : Str → Option Str → Option Str → Call
  send_command : Str → Call
  connect : ℕ → Option Str → ℤ → Call
  send : Option ℕ → Message → Call
  handler_unref : Call
  close unref : Option ℕ → Call

pub record State : Type 0 where
  pub register_data : List Registration
  pub next : ℕ
  pub next_conn : ℕ
  pub calls : List Call

-- The settings, Loudmouth's ports and nodes, and how "%d" prints a number.
pub record World : Type 1 where
  pub lm : Loudmouth
  pub charsets : Charsets
  pub cmdchars : Str
  pub default_port : ℤ
  pub default_port_ssl : ℤ
  pub decimal : ℤ → Str

unfoldable pub at_addr : ℕ → Registration → Bool
at_addr a rd = rd.addr == a

abbrev pub called : State → List Call → State
called s calls = record s { calls = s.calls ++ calls }

-- The calls for the handler and the connection, which may be closed already.
unfoldable released : Bool → Bool → Option ℕ → List Call
released closed handler lmconn =
    (if handler then handler_unref ∷ [] else [])
    ++ (if closed then [] else close lmconn ∷ [])
    ++ unref lmconn ∷ []

unfoldable pub rd_cleanup : Bool → Registration → State → State
unfolding released at_addr remove_first
rd_cleanup closed rd s = record s {
  register_data = remove_first (at_addr rd.addr) s.register_data;
  calls = s.calls ++ released closed rd.handler rd.lmconn;
}

-- The conditions of an error, with their codes, in the order of the tests.
abbrev conditions : List (Str × ℤ)
conditions =
    (codes "not-authorized", pos 401)
    ∷ (codes "registration-required", pos 407)
    ∷ (codes "feature-not-implemented", pos 501)
    ∷ (codes "service-unavailable", pos 503)
    ∷ (codes "conflict", pos 409)
    ∷ (codes "remote-server-timeout", pos 408)
    ∷ []

-- `rd->f = v`, through the pointer.
unfoldable pub write_rd : ℕ → (Registration → Registration) → State → State
unfolding at_addr update_first
write_rd a f s = record s { register_data = update_first (at_addr a) f s.register_data }

abbrev with_handler : Registration → Registration
with_handler rd = record rd { handler = true }

abbrev with_id : Str → Registration → Registration
with_id id rd = record rd { id = some id }

-- What the callbacks of a connection find: whether it is closed, the id that Loudmouth gives to a
-- message, and whether lm_connection_send_with_reply succeeds.
pub record Sending : Type 0 where
  pub closed : Bool
  pub id : Str
  pub sent : Bool

module _ (w : World) where
  coded : w.lm.Node → List (Str × ℤ) → ℤ
  coded node [] = negsuc 0
  coded node ((name, code) ∷ l) = elim (w.lm.get_child node name) [
    | some n ↦ code
    | none ↦ coded node l
  ]

  pub registration_error_map : w.lm.Node → ℤ
  unfolding coded
  registration_error_map node = coded node conditions

  answer_code : w.lm.Node → ℤ
  unfolding registration_error_map atoi
  answer_code node = elim (w.lm.get_attribute node (codes "code")) [
    | none ↦ registration_error_map node
    | some error ↦ atoi error
  ]

  -- A text that may be NULL, as "%s" prints it where it is not.
  abbrev text : Option Str → Str
  text none = []
  text (some s) = s

  -- The command that connects to the new account.
  connect_command : Registration → Str
  connect_command rd =
      w.cmdchars
      ++ codes "XMPPCONNECT "
      ++ (if rd.use_ssl then codes "-ssl " else [])
      ++ codes "-host "
      ++ text rd.address
      ++ codes " -port "
      ++ w.decimal rd.port
      ++ codes " "
      ++ rd.username
      ++ codes "@"
      ++ text rd.domain
      ++ codes " "
      ++ rd.password

  -- The signals for a reply, with its error or without one.
  unfoldable answer : Registration → Option w.lm.Node → List Call
  unfolding answer_code connect_command
  answer rd (some node) = failed rd.username rd.domain (answer_code node) ∷ []
  answer rd none = succeed rd.username rd.domain ∷ send_command (connect_command rd) ∷ []

  unfoldable answered : Registration → w.lm.Node → List Call
  unfolding answer
  answered rd message = answer rd (w.lm.get_child message (codes "error"))

  -- Whether `id == NULL || strcmp(id, rd->id) != 0` is false. `none` stands for the fault of `strcmp`
  -- where `rd->id` is NULL, as it is until the message is made.
  abbrev pub is_reply : Option Str → Option Str → Option Bool
  is_reply none expected = some false
  is_reply (some id) none = none
  is_reply (some id) (some expected) = some (str_eq id expected)

  unfoldable pub handle_register : Bool → Registration → w.lm.Node → State → Option State
  unfolding answered rd_cleanup
  handle_register closed rd message s =
      let done = rd_cleanup closed rd (called s (answered rd message)) in
      elim (is_reply (w.lm.get_attribute message (codes "id")) rd.id) [
        | none ↦ none
        | some same ↦ some (if same then done else s)
      ]

  register_message : Registration → Message
  register_message rd = record {
    type = MessageType.iq;
    sub_type = SubType.set;
    to = rd.domain;
    attributes = [];
    content =
        element (codes "query") none (xmlns (codes "jabber:iq:register") ∷ []) (
          elements (
            text_element (codes "username") (xmpp_recode_out w.charsets (some rd.username))
            ∷ text_element (codes "password") (xmpp_recode_out w.charsets (some rd.password))
            ∷ []))
        ∷ [];
  }

  -- The registration fails with that code.
  abbrev failing : ℤ → Bool → Registration → State → State
  failing code closed rd s =
      rd_cleanup closed rd (called s (failed rd.username rd.domain code ∷ []))

  unfoldable pub send_register : Sending → Registration → State → State
  unfolding register_message write_rd rd_cleanup
  send_register sending rd s =
      let known = write_rd rd.addr (with_id sending.id) s in
      let sent = called known (send rd.lmconn (register_message rd) ∷ []) in
      if sending.sent then sent else failing (negsuc 1) sending.closed (with_id sending.id rd) sent

  unfoldable pub register_lm_close_cb : Bool → Bool → Registration → State → State
  unfolding rd_cleanup
  register_lm_close_cb reason_ok closed rd s =
      if reason_ok then s else failing (negsuc 3) closed rd s

  unfoldable pub register_lm_open_cb : Sending → Bool → Registration → State → State
  unfolding send_register rd_cleanup write_rd
  register_lm_open_cb sending success rd s =
      if success
      then send_register sending (with_handler rd) (write_rd rd.addr with_handler s)
      else failing (negsuc 2) sending.closed rd s
