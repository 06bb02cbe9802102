-- ===== src/Servers/Identity.antt =====
-- src/core/xmpp-servers.c, xmpp-servers-reconnect.c: who one is after a reconnection.
use irssi_xmpp.Prelude.{◌≡◌, refl, sym, ap, ◌∙◌, false, ◌||◌, Option, none, some, if◌then◌else◌}
use irssi_xmpp.Prelude.Str.{Str}
use irssi_xmpp.Tools.{xmpp_extract_user}
use irssi_xmpp.Servers.{
  Connrec, Server, World, is_empty, domain_of, jid_of, resource_of, kept_jid, initialised,
  new_server, server_for, xmpp_server_init_connect,
}
use irssi_xmpp.Servers.Reconnect.{sig_server_connect_copy}

-- irssi on a copy of the record of a connection: after the signal, the nick and the address of the
-- source are recopied.
pub record Copies (copy : Connrec → Connrec → Connrec) : Type 0 where
  pub nick : (dest src : Connrec) → (copy dest src).nick ≡ src.nick
  pub address : (dest src : Connrec) → (copy dest src).address ≡ src.address

abbrev pub Identity : Type 0
Identity = Option Str × Option Str × Option Str × Option Str

abbrev pub identity : Server → Identity
identity s = (s.jid, s.user, s.domain, s.resource)

-- One's JID, user, domain and resource, by the nick and the address of a connection.
abbrev pub identity_of : Str → Option Str → Identity
identity_of nick address = (
  some (jid_of nick address),
  some (xmpp_extract_user nick),
  domain_of nick address,
  some (resource_of nick),
)

abbrev InitialisedServer : (w : World) (conn : Connrec) (nick : Str) → Type 0
InitialisedServer w conn nick =
    (s : Server) × (xmpp_server_init_connect w conn ≡ some s)
    × (identity s ≡ identity_of nick conn.address)
    × (s.connrec.real_jid ≡ kept_jid conn.real_jid nick)
    × (s.connrec.address ≡ conn.address)

init_connect :
    (w : World) (conn : Connrec) (nick : Str)
    → conn.nick ≡ some nick
    → is_empty conn.address || is_empty (some nick) ≡ false
    → InitialisedServer w conn nick
unfolding xmpp_server_init_connect server_for new_server initialised
init_connect w conn nick named given = (
  new_server w conn nick,
  ap (server_for w conn) named ∙ ap (λ b. if b then none else some (new_server w conn nick)) given,
  refl,
  refl,
  refl,
)

-- irssi's copy of the record of a server's connection.
abbrev pub recopied : (Connrec → Connrec → Connrec) → Server → Connrec
recopied copy s = let (dest, src) = sig_server_connect_copy s.connrec in copy dest src

-- A connection with a nick and an address gives a server, and a copy of its record gives another:
-- both have the JID, user, domain and resource of that nick, although the first one has replaced the
-- nick in the record.
pub xmpp_server_init_connect_again :
    (w : World) (copy : Connrec → Connrec → Connrec) (conn : Connrec) (nick : Str)
    → Copies copy
    → conn.nick ≡ some nick
    → conn.real_jid ≡ none
    → is_empty conn.address || is_empty (some nick) ≡ false
    → (s : Server) × (t : Server) × (xmpp_server_init_connect w conn ≡ some s)
      × (xmpp_server_init_connect w (recopied copy s) ≡ some t)
      × (identity s ≡ identity_of nick conn.address)
      × (identity t ≡ identity s)
unfolding sig_server_connect_copy
xmpp_server_init_connect_again w copy conn nick c named fresh given =
    let (s, is, same, kept, at) = init_connect w conn nick named given in
    let (dest, src) = sig_server_connect_copy s.connrec in
    let again : (copy dest src).address ≡ conn.address = c.address dest src ∙ at in
    let named_again : (copy dest src).nick ≡ some nick =
      c.nick dest src ∙ kept ∙ ap (λ o. kept_jid o nick) fresh in
    let (t, is_too, same_too, kept_too, at_too) =
      init_connect w (copy dest src) nick named_again
        (ap (λ o. is_empty o || is_empty (some nick)) again ∙ given) in
    (s, t, is, is_too, same, same_too ∙ ap (identity_of nick) again ∙ sym same)
