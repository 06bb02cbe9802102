-- ===== src/Servers.antt =====
-- src/core/xmpp-servers.h, xmpp-servers.c: a server and its connection.
--
-- `calls` lists the calls of irssi and Loudmouth, and the signals, in order. A source of GLib or an
-- address of Loudmouth is only told from none.
pub mod Connect
pub mod Open
pub mod Reconnect
pub mod Identity
pub mod Steps
mod Tests
use irssi_xmpp.Prelude.{
  ℕ, Bool, true, false, not, ◌&&◌, ◌||◌, Option, none, some, List, [], ◌∷◌, ◌++◌, if◌then◌else◌,
}
use irssi_xmpp.Prelude.Int.{ℤ, pos, is_pos}
use irssi_xmpp.Prelude.Str.{Str, codes}
use irssi_xmpp.Glib.{Glib}
use irssi_xmpp.Tools.{
  Charsets, xmpp_recode_out, xmpp_extract_user, xmpp_extract_domain, xmpp_have_domain,
  xmpp_strip_resource, xmpp_extract_resource, xmpp_priority_out_of_bound,
}
use irssi_xmpp.Loudmouth.{SubType}
use irssi_xmpp.Loudmouth.Elements.{Message, MessageType, text_element}
use irssi_xmpp.Roster.{Presence}

-- XMPP_SERVER_CONNECT_REC, with the fields of irssi's record that the code uses.
pub record Connrec : Type 0 where
  pub address : Option Str
  pub nick : Option Str
  pub real_jid : Option Str
  pub port : ℤ
  pub use_tls : Bool
  pub no_connect : Bool
  pub reconnection : Bool
  pub password : Option Str
  pub prompted_password : Option Str
  pub show : Presence
  pub away_reason : Option Str
  pub priority : ℤ

pub data Call : Type 0 where
  connection_new lm_open lm_close lm_unref redraw : Call
  set_jid : Option Str → Call
  set_ssl : Bool → Call
  set_proxy : Str → ℤ → Option Str → Option Str → Call
  authenticate : Option Str → Option Str → Option Str → Call
  source_remove timeout_add server_looking server_connecting : Call
  connect_failed : Option Str → Call
  connect_finished server_disconnect : Call
  warning status : Str → Call
  presence_out message_out : Message → Call
  set_presence : Presence → Option Str → ℤ → Call

-- XMPP_SERVER_REC. `lookup` says whether the server is in irssi's list `lookup_servers`.
pub record Server : Type 0 where
  pub jid : Option Str
  pub user : Option Str
  pub domain : Option Str
  pub resource : Option Str
  pub show : Presence
  pub away_reason : Option Str
  pub priority : ℤ
  pub ping_id : Option Str
  pub connected : Bool
  pub connection_lost : Bool
  pub lookup : Bool
  pub timeout_tag : Bool
  pub lmconn : Bool
  pub connrec : Connrec
  pub calls : List Call

-- The settings, Loudmouth's ports, and how "%d" prints a number.
pub record World : Type 1 where
  pub glib : Glib
  pub charsets : Charsets
  pub xmpp_priority : ℤ
  pub xmpp_set_nick_as_username : Bool
  pub xmpp_use_proxy : Bool
  pub xmpp_proxy_type : Option Str
  pub xmpp_proxy_address : Option Str
  pub xmpp_proxy_port : ℤ
  pub xmpp_proxy_user : Option Str
  pub xmpp_proxy_password : Option Str
  pub quit_message : Str
  pub default_port : ℤ
  pub default_port_ssl : ℤ
  pub decimal : ℤ → Str

abbrev pub calling : Server → List Call → Server
calling s l = record s { calls = s.calls ++ l }

-- `s == NULL || *s == '\0'`
abbrev pub is_empty : Option Str → Bool
is_empty none = true
is_empty (some []) = true
is_empty (some (c ∷ s)) = false

unfoldable pub domain_of : Str → Option Str → Option Str
unfolding xmpp_have_domain xmpp_extract_domain
domain_of nick address = if xmpp_have_domain nick then xmpp_extract_domain nick else address

-- `g_strconcat(user, "@", domain, NULL)`, which ends at a domain that is NULL.
abbrev address_text : Option Str → Str
address_text none = []
address_text (some s) = s

unfoldable pub jid_of : Str → Option Str → Str
unfolding xmpp_have_domain xmpp_strip_resource xmpp_extract_user domain_of
jid_of nick address =
    if xmpp_have_domain nick
    then xmpp_strip_resource nick
    else xmpp_extract_user nick ++ b'@' ∷ address_text (domain_of nick address)

abbrev or_default : Option Str → Str
or_default none = codes "irssi-xmpp"
or_default (some r) = r

unfoldable pub resource_of : Str → Str
unfolding xmpp_extract_resource
resource_of nick = or_default (xmpp_extract_resource nick)

-- `if (conn->real_jid == NULL) conn->real_jid = conn->nick`
abbrev pub kept_jid : Option Str → Str → Option Str
kept_jid none nick = some nick
kept_jid (some jid) nick = some jid

abbrev default_port_of : World → Connrec → ℤ
default_port_of w conn =
    if is_pos conn.port
    then conn.port
    else if conn.use_tls
    then w.default_port_ssl
    else w.default_port

-- The writes to the record of the connection.
unfoldable pub initialised : World → Connrec → Str → Connrec
unfolding jid_of xmpp_extract_user
initialised w conn nick = record conn {
  no_connect = true;
  port = default_port_of w conn;
  real_jid = kept_jid conn.real_jid nick;
  nick =
      some
        (if w.xmpp_set_nick_as_username then xmpp_extract_user nick else jid_of nick conn.address);
}

unfoldable pub new_server : World → Connrec → Str → Server
unfolding initialised jid_of domain_of resource_of xmpp_extract_user xmpp_priority_out_of_bound
    xmpp_recode_out
new_server w conn nick = record {
  jid = some (jid_of nick conn.address);
  user = some (xmpp_extract_user nick);
  domain = domain_of nick conn.address;
  resource = some (resource_of nick);
  show = Presence.unavailable;
  away_reason = none;
  priority = if xmpp_priority_out_of_bound w.xmpp_priority then pos 0 else w.xmpp_priority;
  ping_id = none;
  connected = false;
  connection_lost = false;
  lookup = false;
  timeout_tag = false;
  lmconn = true;
  connrec = initialised w conn nick;
  calls =
      connection_new ∷ set_jid (xmpp_recode_out w.charsets (some (jid_of nick conn.address))) ∷ [];
}

-- No server where the address or the nick is missing.
unfoldable server_for : World → Connrec → Option Str → Option Server
unfolding new_server
server_for w conn none = none
server_for w conn (some nick) =
    if is_empty conn.address || is_empty (some nick) then none else some (new_server w conn nick)

unfoldable pub xmpp_server_init_connect : World → Connrec → Option Server
unfolding server_for
xmpp_server_init_connect w conn = server_for w conn conn.nick

-- `if (server->timeout_tag) g_source_remove(...)`
unfoldable pub untimed : Server → Server
untimed s =
    let removed = calling (record s { timeout_tag = false }) (source_remove ∷ []) in
    if s.timeout_tag then removed else s

-- The release of the connection, which may be closed already, and the fields that are freed.
unfoldable pub taken_down : Bool → Server → Server
taken_down closed s = record s {
  lmconn = false;
  jid = none;
  user = none;
  domain = none;
  resource = none;
  ping_id = none;
  calls = s.calls ++ (if closed then [] else lm_close ∷ []) ++ lm_unref ∷ [];
}

unfoldable pub server_cleanup : Bool → Server → Server
unfolding untimed taken_down
server_cleanup closed s = let t = untimed s in if t.lmconn then taken_down closed t else t

-- `resolved` is what rosters_resolve_name finds, and `recode_in` irssi's function of that name.
pub send_message : World → (Str → Str) → Server → Str → Bool → Option Str → Str → Server
unfolding xmpp_recode_out
send_message w recode_in s target is_channel resolved msg =
    let dest : Str = elim resolved [ none ↦ target | some name ↦ name ] in
    let m : Message = record {
      type = MessageType.message;
      sub_type = if is_channel then SubType.groupchat else SubType.chat;
      to = xmpp_recode_out w.charsets (some (if is_channel then target else dest));
      attributes = [];
      content =
          text_element (codes "body") (xmpp_recode_out w.charsets (some (recode_in msg))) ∷ [];
    } in
    calling s (message_out m ∷ [])
