-- ===== src/Servers/Reconnect.antt =====
-- src/core/xmpp-servers-reconnect.c: what is kept of a server for a new connection.
use irssi_xmpp.Prelude.{false, none, [], ◌∷◌, if◌then◌else◌}
use irssi_xmpp.Prelude.Int.{pos}
use irssi_xmpp.Servers.{Connrec, Server, set_presence, calling}

-- `g_new0`, and the fields that are set.
unfoldable new_connrec : Connrec → Connrec
new_connrec src = record {
  address = none;
  nick = none;
  real_jid = none;
  port = pos 0;
  use_tls = false;
  no_connect = false;
  reconnection = false;
  password = none;
  prompted_password = src.prompted_password;
  show = src.show;
  away_reason = none;
  priority = src.priority;
}

-- The new record, and the source, which gets back the JID that it was given first.
unfoldable pub sig_server_connect_copy : Connrec → Connrec × Connrec
unfolding new_connrec
sig_server_connect_copy src = (new_connrec src, record src { nick = src.real_jid; real_jid = none })

pub sig_save_status : Connrec → Server → Connrec
sig_save_status conn server =
    if server.connected
    then record conn { show = server.show; priority = server.priority }
    else conn

pub sig_connected : Server → Server
sig_connected server =
    let conn = server.connrec in
    let told = calling server (set_presence conn.show conn.away_reason conn.priority ∷ []) in
    if conn.reconnection
    then record told { connrec = record conn { away_reason = none } }
    else server
