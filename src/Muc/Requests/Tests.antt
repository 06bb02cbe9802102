-- ===== src/Muc/Requests/Tests.antt =====
-- A client whose first parameter is taken out of its quotes, and a room that is left and joined again.
use mathlib.Core.List.{append_assoc}
use irssi_xmpp.Prelude.{
  ℕ, ◌≡◌, refl, true, false, Option, none, some, List, [], ◌∷◌, ◌==◌, if◌then◌else◌,
}
use irssi_xmpp.Prelude.Str.{Str, codes, has, before, after, before-append, after-append}
use irssi_xmpp.Glib.{concrete}
use irssi_xmpp.Tools.Sample.{utf8}
use irssi_xmpp.Roster.{Presence}
use irssi_xmpp.Disco.Listed.{somes}
use irssi_xmpp.Muc.{Channel}
use irssi_xmpp.Muc.Sample.{new_room}
use irssi_xmpp.Muc.Requests.{
  Client, Server, get_join_data, muc_join, send_join, channel_find_func, ischannel_func, get_muc,
}
use irssi_xmpp.Muc.Requests.JoinData.{ReadsQuotes, rejoined, get_join_data-muc_join}
use irssi_xmpp.Muc.Requests.Rooms.{
  BareNames, nothing, room, ischannel_func-occupant, muc_join-BareNames,
}
use irssi_xmpp.Loudmouth.Trees.{tree_nodes}
use irssi_xmpp.Muc.Requests.Invite.{joined_if_asked, invited_room, joined_if_asked-password}
use irssi_xmpp.Muc.Requests.Reconnect.{Conn, sig_save_status, sig_connected, saved_rooms_stay_away}
use irssi_xmpp.Muc.Requests.Features.{features_mode, announced, feature_of, features_mode_letters}

-- The rest of a line, behind a blank.
abbrev last : Option Str → Str
last none = []
last (some []) = []
last (some (c ∷ s)) = s

abbrev params : Str → Option (Str × Str)
params [] = some ([], [])
params (c ∷ s) =
    if c == b'"'
    then some (before b'"' s, last (after b'"' s))
    else some (before 32 (c ∷ s), last (after 32 (c ∷ s)))

abbrev client : Client
client = record {
  glib = concrete;
  charsets = utf8;
  nick = [];
  part_message = [];
  history_maxstanzas = codes "30";
  cmd_get_params = params;
}

reads_quotes : ReadsQuotes client
reads_quotes = record {
  alone = λ a q s. rw (before-append b'"' a [] q, after-append b'"' a [] q) refl;
  followed = λ a c b q s n.
      rw
        (
          append_assoc a (b'"' ∷ []) (b' ' ∷ c ∷ b),
          before-append b'"' a _ q,
          after-append b'"' a _ q,
        )
        refl;
}

abbrev server_with : List Channel → Server
server_with channels = record {
  jid = codes "me@x";
  user = codes "me";
  show = Presence.available;
  away_reason = none;
  connected = true;
  disconnected = false;
  channels = channels;
  next = 5;
  sent = [];
}

abbrev locked_room : Channel
locked_room = record new_room { key = some (codes "sesame") }

get_join_data-muc_join_example :
    (muc_join client (server_with []) (get_join_data locked_room)
      ≡ send_join client
          (server_with (rejoined client (server_with []) locked_room ∷ []))
          (rejoined client (server_with []) locked_room))
    × ((rejoined client (server_with []) locked_room).name ≡ codes "room@host")
    × ((rejoined client (server_with []) locked_room).nick ≡ codes "alice")
unfolding has channel_find_func
get_join_data-muc_join_example =
    get_join_data-muc_join client (server_with []) locked_room reads_quotes refl refl refl refl refl

one_room : BareNames (locked_room ∷ [])
unfolding has
one_room = room refl nothing

ischannel_func-occupant_example :
    (ischannel_func concrete (server_with (locked_room ∷ [])) (codes "room@host/bob") ≡ false)
    × (get_muc concrete (server_with (locked_room ∷ [])) (codes "room@host/bob")
        ≡ channel_find_func concrete (server_with (locked_room ∷ [])) (codes "room@host"))
unfolding has
ischannel_func-occupant_example =
    ischannel_func-occupant concrete (server_with (locked_room ∷ [])) (codes "room@host")
      (codes "bob") one_room refl

muc_join-BareNames_example :
    BareNames (muc_join client (server_with (locked_room ∷ [])) (codes "other@host/me")).channels
muc_join-BareNames_example =
    muc_join-BareNames client (server_with (locked_room ∷ [])) (codes "other@host/me") one_room

abbrev conn : Conn
conn = record { is_xmpp = true; reconnection = true; channels_list = [] }

saved_rooms_stay_away_example :
    ((sig_save_status conn (server_with (locked_room ∷ []))).channels_list
      ≡ codes "\"room@host/alice\" \"sesame\"" ∷ [])
    × (sig_connected client (server_with []) (sig_save_status conn (server_with (locked_room ∷ [])))
        ≡ (server_with [], sig_save_status conn (server_with (locked_room ∷ []))))
unfolding get_join_data
saved_rooms_stay_away_example =
    saved_rooms_stay_away client (server_with (locked_room ∷ [])) (server_with []) conn refl refl

features_mode_letters_example :
    (c : Channel) × (features_mode new_room (somes (codes "muc_public" ∷ codes "muc_open" ∷ []))
      ≡ some c)
    × ((letter : ℕ)
        → has letter c.mode
          ≡ announced (codes "muc_public" ∷ codes "muc_open" ∷ []) (feature_of letter))
features_mode_letters_example =
    features_mode_letters new_room (codes "muc_public" ∷ codes "muc_open" ∷ []) refl

joined_if_asked-password_example :
    (joined_if_asked tree_nodes client
        (λ s. true)
        true
        (server_with [])
        (codes "other@host")
        (some (codes "pw"))
      ≡ send_join client
          (server_with (
            invited_room tree_nodes client
              (λ s. true)
              true
              (server_with [])
              (codes "other@host")
              (codes "pw")
            ∷ []))
          (invited_room tree_nodes client
            (λ s. true)
            true
            (server_with [])
            (codes "other@host")
            (codes "pw")))
    × ((invited_room tree_nodes client
          (λ s. true)
          true
          (server_with [])
          (codes "other@host")
          (codes "pw")).key
        ≡ some (codes "pw"))
unfolding has channel_find_func
joined_if_asked-password_example =
    joined_if_asked-password tree_nodes client (λ s. true) true (server_with [])
      (codes "other@host") b'p' (codes "w") reads_quotes refl refl refl refl refl refl refl
