-- ===== src/Muc/Requests/Connected.antt =====
-- src/core/xep/muc.c: the rooms joined on connecting, and the presence told to every room.
use irssi_xmpp.Prelude.{Bool, ◌&&◌, Option, some, List, [], ◌∷◌, if◌then◌else◌}
use irssi_xmpp.Prelude.Str.{Str, codes, str_eq}
use irssi_xmpp.Tools.{xmpp_recode_out}
use irssi_xmpp.Loudmouth.{SubType}
use irssi_xmpp.Loudmouth.Elements.{MessageType, text_element}
use irssi_xmpp.Roster.{Presence, xmpp_presence_show}
use irssi_xmpp.Muc.{Channel}
use irssi_xmpp.Muc.Requests.{
  Client, Server, is_available, muc_join, full_name, recoded_child, sending,
}

-- A room of the settings.
pub record Setup : Type 0 where
  pub name : Str
  pub chatnet : Str
  pub autojoin : Bool

-- The loop over the rooms of the settings.
autojoin : Client → Str → Server → List Setup → Server
unfolding muc_join str_eq
autojoin client chatnet server [] = server
autojoin client chatnet server (s ∷ l) =
    let joined = autojoin client chatnet (muc_join client server s.name) l in
    let rest = autojoin client chatnet server l in
    if s.autojoin && str_eq s.chatnet chatnet then joined else rest

unfoldable pub sig_connected : Client → Server → Str → Bool → List Setup → Server
unfolding autojoin
sig_connected client server chatnet no_autojoin_channels setups =
    let joined = autojoin client chatnet server setups in
    if no_autojoin_channels then server else joined

send_muc_presence : Client → Server → Presence → Option Str → Channel → Server
send_muc_presence client server show status channel =
    let text = recoded_child client (codes "status") status in
    let shown =
      if is_available show
      then text
      else text_element (codes "show") (some (xmpp_presence_show show)) ∷ text in
    sending server (record {
      type = MessageType.presence;
      sub_type = SubType.not_set;
      to = xmpp_recode_out client.charsets (some (full_name channel));
      attributes = [];
      content = shown;
    })

tell_rooms : Client → Server → Presence → Option Str → List Channel → Server
unfolding send_muc_presence
tell_rooms client server show status [] = server
tell_rooms client server show status (c ∷ l) =
    tell_rooms client (send_muc_presence client server show status c) show status l

unfoldable pub sig_set_presence : Client → Server → Presence → Option Str → Server
unfolding tell_rooms
sig_set_presence client server show status =
    let told = tell_rooms client server show status server.channels in
    if server.connected then told else server
