-- ===== src/Muc/Requests.antt =====
-- src/core/xep/muc.c: joining, leaving and finding rooms.
--
-- The rooms of a server are all of XMPP. `sent` lists the stanzas handed to "xmpp send presence" and
-- "xmpp send iq", in order.
pub mod Admin
pub mod Features
pub mod JoinData
pub mod Connected
pub mod Rooms
pub mod Reconnect
pub mod Invite
mod Tests
use irssi_xmpp.Prelude.{
  ℕ, ◌==◌, Bool, true, false, not, ◌&&◌, Option, none, some, List, [], ◌∷◌, ◌++◌, if◌then◌else◌,
  find_first,
}
use irssi_xmpp.Prelude.Int.{is_zero}
use irssi_xmpp.Prelude.Str.{Str, codes, str_eq}
use irssi_xmpp.Glib.{Glib}
use irssi_xmpp.Tools.{Charsets, xmpp_recode_out, xmpp_extract_resource, xmpp_strip_resource}
use irssi_xmpp.Loudmouth.{SubType}
use irssi_xmpp.Loudmouth.Elements.{
  Element, element, elements, Message, MessageType, text_element, optional_element, xmlns, end,
}
use irssi_xmpp.Roster.{Presence, xmpp_presence_show}
use irssi_xmpp.Muc.{Nicks, Channel, channel_destroy, message_part, Nick, Irssi}
use irssi_xmpp.Muc.Room.{calling}

abbrev pub xmlns_muc : Str
xmlns_muc = codes "http://jabber.org/protocol/muc"

-- The fields of a server that the rooms use.
pub record Server : Type 0 where
  pub jid : Str
  pub user : Str
  pub show : Presence
  pub away_reason : Option Str
  pub connected : Bool
  pub disconnected : Bool
  pub channels : List Channel
  pub next : ℕ
  pub sent : List Message

-- Settings, and what the requests ask of elsewhere. `cmd_get_params` is irssi's function for two
-- parameters, the last with the rest of the line; `none` is a failure to parse.
pub record Client : Type 1 where
  pub glib : Glib
  pub charsets : Charsets
  pub nick : Str
  pub part_message : Str
  pub history_maxstanzas : Str
  pub cmd_get_params : Str → Option (Str × Str)

abbrev pub quoted : Str → Str
quoted s = b'"' ∷ s ++ b'"' ∷ []

-- The line for a room of that key and full name.
unfoldable line_of : Option Str → Str → Str
line_of none full = quoted full
line_of (some key) full = quoted full ++ b' ' ∷ quoted key

abbrev pub full_name : Channel → Str
full_name channel = channel.name ++ b'/' ∷ channel.nick

unfoldable pub get_join_data : Channel → Str
unfolding line_of
get_join_data channel = line_of channel.key (full_name channel)

abbrev pub sending : Server → Message → Server
sending server m = record server { sent = server.sent ++ m ∷ [] }

-- The nick to join with: the one given, the setting, or the user of the JID.
abbrev pub own_nick : Client → Server → Option Str → Str
own_nick client server (some nick) = nick
own_nick client server none = elim client.nick [ [] ↦ server.user | c ∷ s ↦ client.nick ]

-- The fields that `muc_create` and irssi's `channel_init` set, and the hash table of sig_channel_created.
unfoldable pub muc_create : Client → Server → Str → Option Str → Channel
muc_create client server name nick = record {
  name = name;
  nick = own_nick client server nick;
  mode = [];
  key = none;
  topic = none;
  topic_by = none;
  nicks = λ k. [];
  ownnick = none;
  next = 0;
  joined = false;
  names_got = false;
  left = false;
  kicked = false;
  chanop = false;
  calls = [];
}

-- `strcmp` on the test `show != XMPP_PRESENCE_AVAILABLE`
abbrev pub is_available : Presence → Bool
is_available Presence.available = true
is_available p = false

abbrev history : Client → Element
history client =
    element (codes "history") none ((codes "maxstanzas", some client.history_maxstanzas) ∷ []) end

-- The children of <x/> of a first presence to the room.
first_join : Client → Channel → List Element
first_join client channel = elim channel.key [
  | none ↦ history client ∷ []
  | some key ↦
      text_element (codes "password") (xmpp_recode_out client.charsets (some key))
      ∷ history client
      ∷ []
]

-- `if (value != NULL)`: a child with the text recoded.
unfoldable pub recoded_child : Client → Str → Option Str → List Element
recoded_child client name none = []
recoded_child client name (some value) =
    text_element name (xmpp_recode_out client.charsets (some value)) ∷ []

-- The presence that a first presence to the room carries.
first_presence : Client → Server → List Element
first_presence client server =
    let status = recoded_child client (codes "status") server.away_reason in
    if is_available server.show
    then status
    else text_element (codes "show")
        (xmpp_recode_out client.charsets (some (xmpp_presence_show server.show)))
      ∷ status

unfoldable pub muc_nick : Client → Server → Channel → Str → Server
unfolding first_join first_presence recoded_child
muc_nick client server channel nick =
    let inner = if channel.joined then [] else first_join client channel in
    let outer = if channel.joined then [] else first_presence client server in
    let x = element (codes "x") none (xmlns xmlns_muc ∷ []) (elements inner) in
    let m : Message = record {
      type = MessageType.presence;
      sub_type = SubType.not_set;
      to = xmpp_recode_out client.charsets (some (channel.name ++ b'/' ∷ nick));
      attributes = [];
      content = x ∷ outer;
    } in
    if server.connected then sending server m else server

unfoldable pub send_join : Client → Server → Channel → Server
unfolding muc_nick
send_join client server channel =
    let joined = muc_nick client server channel channel.nick in
    if server.connected then joined else server

-- The server's `channel_find_func`, by which irssi's channel_find looks up a room: `muc_find`.
unfoldable pub channel_find_func : Glib → Server → Str → Option Channel
unfolding find_first
channel_find_func glib server name =
    find_first (λ c. is_zero (glib.ascii_strcasecmp name c.name)) server.channels

-- The key of the room, where one is given.
abbrev pub key_of : Str → Option Str
key_of [] = none
key_of (c ∷ s) = some (c ∷ s)

abbrev pub keyed : Channel → Str → Channel
keyed channel key = record channel { key = key_of key }

-- `if (muc_find(server, channame) == NULL)`, on what was found.
unfoldable pub join_unless : Client → Server → Str → Option Str → Str → Option Channel → Server
unfolding muc_create send_join
join_unless client server name nick key (some c) = server
join_unless client server name nick key none =
    let c = keyed (muc_create client server name nick) key in
    send_join client (record server { channels = server.channels ++ c ∷ [] }) c

-- What follows a parsed line.
join_parsed : Client → Server → Option (Str × Str) → Server
unfolding join_unless channel_find_func
join_parsed client server none = server
join_parsed client server (some (chanline, key)) =
    let name = xmpp_strip_resource chanline in
    join_unless client server name (xmpp_extract_resource chanline) key
      (channel_find_func client.glib server name)

unfoldable pub muc_join : Client → Server → Str → Server
unfolding join_parsed
muc_join client server line =
    if server.connected then join_parsed client server (client.cmd_get_params line) else server

send_part : Client → Server → Channel → Option Str → Server
send_part client server channel reason =
    let status = recoded_child client (codes "status") reason in
    let m : Message = record {
      type = MessageType.presence;
      sub_type = SubType.unavailable;
      to = xmpp_recode_out client.charsets (some (full_name channel));
      attributes = [];
      content = element (codes "x") none (xmlns xmlns_muc ∷ []) end ∷ status;
    } in
    if server.connected then sending server m else server

-- The server, and the room with the calls. `ownnick` is the nick at the address of that field.
unfoldable pub muc_part : Client → Server → Channel → Option Nick → Option Str → Server × Channel
unfolding send_part
muc_part client server channel ownnick reason =
    let left : Channel = record channel { left = true } in
    let told : Channel = elim ownnick [
      | none ↦ left
      | some n ↦ calling left (message_part n.nick n.host reason ∷ [])
    ] in
    (send_part client server channel reason, calling told (channel_destroy ∷ []))

-- The handler of a room's destruction.
unfoldable pub sig_channel_destroyed : Client → Server → Channel → Option Nick → Server × Channel
unfolding muc_part
sig_channel_destroyed client server channel ownnick =
    let parted = muc_part client server channel ownnick (some client.part_message) in
    if not server.disconnected && not channel.left then parted else (server, channel)

-- Automatic joins by irssi are left alone.
unfoldable pub channels_join_func : Client → Server → Str → Bool → Server
unfolding muc_join
channels_join_func client server line automatic =
    let joined = muc_join client server line in if automatic then server else joined

-- The bare part is computed, but the whole text is looked up.
unfoldable pub ischannel_func : Glib → Server → Str → Bool
unfolding channel_find_func
ischannel_func glib server text = elim (channel_find_func glib server text) [
  | none ↦ false
  | some c ↦ true
]

unfoldable pub get_muc : Glib → Server → Str → Option Channel
unfolding channel_find_func
get_muc glib server text = channel_find_func glib server (xmpp_strip_resource text)
