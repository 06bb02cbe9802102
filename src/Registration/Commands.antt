-- ===== src/Registration/Commands.antt =====
-- src/core/xep/registration.c: the commands.
use irssi_xmpp.Prelude.{
  ℕ, suc, Bool, true, false, not, ◌||◌, Option, none, some, [], ◌∷◌, ◌++◌, if◌then◌else◌,
}
use irssi_xmpp.Prelude.Int.{pos}
use irssi_xmpp.Prelude.Str.{Str, codes, str_eq, atoi}
use irssi_xmpp.Tools.{xmpp_recode_out, xmpp_have_domain, xmpp_extract_user, xmpp_extract_domain}
use irssi_xmpp.Loudmouth.{SubType}
use irssi_xmpp.Loudmouth.Elements.{element, elements, Message, MessageType, text_element, xmlns}
use irssi_xmpp.Registration.{Registration, State, World, started}
use irssi_xmpp.Registration.Start.{Outcome, start_registration}

-- What irssi reads of a command line.
pub record Params : Type 0 where
  pub jid : Str
  pub password : Str
  pub host : Option Str
  pub port : Option Str
  pub ssl : Bool

-- CMDERR_*
pub data CommandError : Type 0 where
  not_enough_params not_good_idea not_connected : CommandError

abbrev pub is_empty : Str → Bool
is_empty [] = true
is_empty (c ∷ s) = false

-- The host that was given, or the domain.
abbrev address_of : Params → Option Str
address_of p = elim p.host [
  | none ↦ xmpp_extract_domain p.jid
  | some host ↦ if is_empty host then xmpp_extract_domain p.jid else some host
]

-- `g_new0`, and the fields that are set.
unfoldable pub registration_of : Params → ℕ → Registration
unfolding xmpp_extract_user xmpp_extract_domain atoi
registration_of p addr = record {
  addr = addr;
  username = xmpp_extract_user p.jid;
  domain = xmpp_extract_domain p.jid;
  password = p.password;
  address = address_of p;
  port = elim p.port [ none ↦ pos 0 | some port ↦ atoi port ];
  use_ssl = p.ssl;
  id = none;
  lmconn = none;
  handler = false;
}

unfoldable pub register : World → Outcome → Registration → State → State
unfolding start_registration
register w outcome rd s =
    start_registration w outcome rd
      (record s { next = suc s.next; calls = s.calls ++ started rd.username rd.domain ∷ [] })

unfoldable pub cmd_xmppregister :
    World → Outcome → Option Params → State → State × Option CommandError
unfolding registration_of register xmpp_have_domain
cmd_xmppregister w outcome none s = (s, none)
cmd_xmppregister w outcome (some p) s =
    if is_empty p.jid || is_empty p.password || not (xmpp_have_domain p.jid)
    then (s, some CommandError.not_enough_params)
    else (register w outcome (registration_of p s.next) s, none)

-- The fields of a server that the commands use.
pub record Server : Type 0 where
  pub is_xmpp : Bool
  pub connected : Bool
  pub user : Str
  pub domain : Str
  pub password : Str

-- A command sends a stanza, fails, or does nothing.
pub data Result : Type 0 where
  sent : Message → Result
  error : CommandError → Result
  ignored : Result

-- CMD_XMPP_SERVER: the command runs on a connected server of XMPP.
abbrev on_server : Option Server → (Server → Result) → Result
on_server none f = error CommandError.not_connected
on_server (some server) f =
    if not server.is_xmpp
    then ignored
    else if not server.connected
    then error CommandError.not_connected
    else f server

-- `parsed` says whether the option "yes" was given.
pub cmd_xmppunregister : Option Server → Option Bool → Result
cmd_xmppunregister server parsed = on_server server (λ server. elim parsed [
  | none ↦ ignored
  | some agreed ↦
      if not agreed
      then error CommandError.not_good_idea
      else sent (record {
        type = MessageType.iq;
        sub_type = SubType.set;
        to = none;
        attributes = [];
        content =
            element (codes "query") none (xmlns (codes "jabber:iq:register") ∷ [])
              (elements (text_element (codes "remove") none ∷ []))
            ∷ [];
      })
])

-- `parsed` has the option "yes", the old and the new password.
pub cmd_xmpppasswd : World → Option Server → Option (Bool × Str × Str) → Result
unfolding str_eq
cmd_xmpppasswd w server parsed = on_server server (λ server. elim parsed [
  | none ↦ ignored
  | some (agreed, old_password, new_password) ↦
      if not agreed
      then error CommandError.not_good_idea
      else if not (str_eq old_password server.password)
      then error CommandError.not_enough_params
      else sent (record {
        type = MessageType.iq;
        sub_type = SubType.set;
        to = some server.domain;
        attributes = [];
        content =
            element (codes "query") none (xmlns (codes "jabber:iq:register") ∷ []) (
              elements (
                text_element (codes "username") (xmpp_recode_out w.charsets (some server.user))
                ∷ text_element (codes "password") (xmpp_recode_out w.charsets (some new_password))
                ∷ []))
            ∷ [];
      })
])
