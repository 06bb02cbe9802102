-- ===== src/Servers/Tests.antt =====
-- A server that connects and is asked again whether its time is over.
use irssi_xmpp.Prelude.{arith, ◌≡◌, refl, true, false, none, some}
use irssi_xmpp.Prelude.Int.{pos}
use irssi_xmpp.Prelude.Str.{codes}
use irssi_xmpp.Glib.{concrete}
use irssi_xmpp.Tools.Sample.{utf8}
use irssi_xmpp.Roster.{Presence}
use irssi_xmpp.Servers.{
  Connrec, Server, World, new_server, xmpp_server_init_connect, untimed, server_cleanup,
}
use irssi_xmpp.Servers.Connect.{
  marked_connected, lm_auth_cb, authenticated, check_connection_timeout,
}
use irssi_xmpp.Servers.Open.{opening, xmpp_server_connect}
use irssi_xmpp.Servers.Identity.{
  Copies, identity, identity_of, recopied, xmpp_server_init_connect_again,
}
use irssi_xmpp.Servers.Steps.{
  Reaches, here, connected, auth_answered, IsCalm, connected_not_timed_out, server_cleanup_twice,
}

abbrev world : World
world = record {
  glib = concrete;
  charsets = utf8;
  xmpp_priority = pos 5;
  xmpp_set_nick_as_username = true;
  xmpp_use_proxy = false;
  xmpp_proxy_type = none;
  xmpp_proxy_address = none;
  xmpp_proxy_port = pos 8080;
  xmpp_proxy_user = none;
  xmpp_proxy_password = none;
  quit_message = codes "bye";
  default_port = pos 5222;
  default_port_ssl = pos 5223;
  decimal = λ n. codes "5";
}

abbrev conn : Connrec
conn = record {
  address = some (codes "host");
  nick = some (codes "me@host/home");
  real_jid = none;
  port = pos 0;
  use_tls = false;
  no_connect = false;
  reconnection = false;
  password = some (codes "secret");
  prompted_password = none;
  show = Presence.available;
  away_reason = none;
  priority = pos 0;
}

-- A copy that takes the nick and the address from the source.
abbrev copy : Connrec → Connrec → Connrec
copy dest src = record dest { nick = src.nick; address = src.address }

copy-Copies : Copies copy
copy-Copies = record { nick = λ dest src. refl; address = λ dest src. refl }

xmpp_server_init_connect_again_example :
    (s : Server) × (t : Server) × (xmpp_server_init_connect world conn ≡ some s)
    × (xmpp_server_init_connect world (recopied copy s) ≡ some t)
    × (identity s ≡ identity_of (codes "me@host/home") (some (codes "host")))
    × (identity t ≡ identity s)
xmpp_server_init_connect_again_example =
    xmpp_server_init_connect_again world copy conn (codes "me@host/home") copy-Copies refl refl refl

abbrev fresh : Server
fresh = new_server world conn (codes "me@host/home")

abbrev up : Server
up = lm_auth_cb true (xmpp_server_connect world true opening fresh)

up_reached : Reaches world fresh up
unfolding new_server
up_reached = auth_answered true (connected {s = fresh} {t = fresh} true opening refl here)

fresh-IsCalm : IsCalm fresh
unfolding new_server
fresh-IsCalm = refl

up_connected : up.connected ≡ true
unfolding lm_auth_cb authenticated marked_connected untimed new_server xmpp_server_connect
up_connected = ground arith

connected_not_timed_out_example : (check_connection_timeout up ≡ up) × (up.timeout_tag ≡ false)
connected_not_timed_out_example =
    connected_not_timed_out world {s = fresh} {t = up} fresh-IsCalm up_reached up_connected

server_cleanup_twice_example :
    server_cleanup true (server_cleanup false up) ≡ server_cleanup false up
server_cleanup_twice_example = server_cleanup_twice false true up
