-- ===== src/Servers/Connect.antt =====
-- src/core/xmpp-servers.c: the callbacks of Loudmouth, and presences.
use irssi_xmpp.Prelude.{
  map, ◌==◌, Bool, true, false, not, ◌&&◌, ◌||◌, Option, none, some, List, [], ◌∷◌, ◌++◌,
  if◌then◌else◌,
}
use irssi_xmpp.Prelude.Str.{Str, codes}
use irssi_xmpp.Tools.{xmpp_recode_out, xmpp_presence_changed}
use irssi_xmpp.Loudmouth.{SubType}
use irssi_xmpp.Loudmouth.Elements.{Message, MessageType, text_element}
use irssi_xmpp.Roster.{Presence, rank}
use irssi_xmpp.Servers.{
  Connrec, Server, World, Call, connect_failed, connect_finished, server_disconnect, warning,
  status, redraw, authenticate, server_connecting, presence_out, calling, untimed,
}

-- LM_SSL_STATUS_*
pub data SslStatus : Type 0 where
  no_cert_found untrusted_cert cert_expired cert_not_activated : SslStatus
  cert_hostname_mismatch cert_fingerprint_mismatch generic_error : SslStatus

ssl_text : SslStatus → Str
ssl_text no_cert_found = codes "no certificate found"
ssl_text untrusted_cert = codes "certificate is not trusted"
ssl_text cert_expired = codes "certificate has expired"
ssl_text cert_not_activated = codes "certificate has not been activated"
ssl_text cert_hostname_mismatch = codes "certificate hostname does not match expected hostname"
ssl_text cert_fingerprint_mismatch =
    codes "certificate fingerprint does not match expected fingerprint"
ssl_text generic_error = codes "generic error"

-- The address, as "%s" prints it.
abbrev printed : Option Str → Str
printed none = []
printed (some s) = s

-- The connection goes on whatever the status is.
pub lm_ssl_cb : Server → SslStatus → Server
unfolding ssl_text
lm_ssl_cb s ssl =
    calling s
      (warning (codes "SSL (" ++ printed s.connrec.address ++ codes "): " ++ ssl_text ssl) ∷ [])

unfoldable pub lm_close_cb : Bool → Server → Server
lm_close_cb reason_ok s =
    if not s.connected || reason_ok
    then s
    else calling (record s { connection_lost = true }) (server_disconnect ∷ [])

-- The end of the process of connecting.
unfoldable pub marked_connected : Server → Server
marked_connected s = record s {
  lookup = false;
  show = Presence.available;
  connected = true;
  calls = s.calls ++ status (codes "Authenticated successfully.") ∷ [];
}

unfoldable pub authenticated : Server → Server
unfolding untimed marked_connected
authenticated s = calling (untimed (marked_connected s)) (connect_finished ∷ [])

unfoldable pub lm_auth_cb : Bool → Server → Server
unfolding authenticated
lm_auth_cb success s =
    if success
    then authenticated s
    else calling s (connect_failed (some (codes "Authentication failed")) ∷ [])

-- No password, an empty one, or one that begins with a carriage return.
abbrev is_missing : Option Str → Bool
is_missing none = true
is_missing (some []) = true
is_missing (some (c ∷ s)) = c == 13

abbrev pub or_empty : Option Str → Str
or_empty none = []
or_empty (some s) = s

-- The password that was typed once is used again; else one is asked for where none is known.
-- `typed` is what get_password gives.
unfoldable pub with_password : Option Str → Connrec → Connrec × List Call
with_password typed conn = elim conn.prompted_password [
  | some p ↦ (record conn { password = some p }, [])
  | none ↦
      if is_missing conn.password
      then (
        record conn { prompted_password = typed; password = some (or_empty typed) },
        redraw ∷ [],
      )
      else (conn, [])
]

encryption : Bool → Bool → List Call
encryption use_tls use_starttls =
    if use_tls
    then status (codes "Using SSL encryption.") ∷ []
    else if use_starttls
    then status (codes "Using STARTTLS encryption.") ∷ []
    else []

unfoldable pub lm_open_cb : World → Option Str → Bool → Bool → Server → Server
unfolding with_password encryption xmpp_recode_out
lm_open_cb w typed use_starttls success s =
    let (conn, asked) = with_password typed s.connrec in
    let first = server_connecting ∷ encryption s.connrec.use_tls use_starttls in
    let login =
      authenticate (xmpp_recode_out w.charsets s.user) (xmpp_recode_out w.charsets conn.password)
        (xmpp_recode_out w.charsets s.resource) in
    let opened = calling (record s { connrec = conn }) (first ++ asked ++ login ∷ []) in
    if success then opened else s

-- A server that is in the list of those looked up when its time is over.
unfoldable pub overdue : Server → Server
overdue s =
    let text = printed s.connrec.address ++ codes ": no response from server" in
    let lost =
      calling (record s { connection_lost = true }) (warning text ∷ server_disconnect ∷ []) in
    if s.connected then record s { timeout_tag = false } else lost

unfoldable pub check_connection_timeout : Server → Server
unfolding overdue
check_connection_timeout s = if not s.lookup then s else overdue s

presence_stanza : SubType → Str → Option Str → Message
presence_stanza type name text = record {
  type = MessageType.presence;
  sub_type = type;
  to = none;
  attributes = [];
  content = text_element name text ∷ [];
}

-- A server that was connected before, with another presence, is told that one elsewhere.
pub sig_connected : World → Server → Server
unfolding xmpp_presence_changed presence_stanza
sig_connected w s =
    let m = presence_stanza SubType.available (codes "priority") (some (w.decimal s.priority)) in
    let changed =
      xmpp_presence_changed (rank s.connrec.show) (rank s.show) s.connrec.away_reason s.away_reason
        s.connrec.priority s.priority in
    if s.connrec.reconnection && changed then s else calling s (presence_out m ∷ [])

pub sig_server_quit : World → Server → Option Str → Server
unfolding presence_stanza xmpp_recode_out
sig_server_quit w s reason =
    let text : Str = elim reason [ none ↦ w.quit_message | some r ↦ r ] in
    calling s (
      presence_out (
        presence_stanza SubType.unavailable (codes "status")
          (xmpp_recode_out w.charsets (some text)))
      ∷ [])

-- The loops over the servers of XMPP that are looked up, and over those that are connected.
pub disconnect_all : List Server → List Server → List Server × List Server
disconnect_all lookup_servers servers = (
  map (λ s. calling s (connect_failed none ∷ [])) lookup_servers,
  map (λ s. calling s (server_disconnect ∷ [])) servers,
)
