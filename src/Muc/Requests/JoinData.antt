-- ===== src/Muc/Requests/JoinData.antt =====
-- src/core/xep/muc.c: what muc_join reads in the line that get_join_data prints.
use irssi_xmpp.Prelude.{
  ℕ, ◌==◌, ◌≡◌, refl, ap, ◌∙◌, true, false, Option, none, some, [], ◌∷◌, ◌++◌, if◌then◌else◌,
}
use irssi_xmpp.Prelude.Str.{Str, has}
use irssi_xmpp.Tools.{xmpp_extract_resource, xmpp_strip_resource}
use irssi_xmpp.Tools.Split.{strip-extract_iff}
use irssi_xmpp.Muc.{Channel}
use irssi_xmpp.Muc.Requests.{
  Client, Server, quoted, line_of, full_name, get_join_data, muc_create, send_join,
  channel_find_func, keyed, join_unless, join_parsed, muc_join,
}

-- irssi on its parameters: the first one, in quotes, is what stands between them; the last one is
-- the rest of the line as it stands, and empty where there is none.
pub record ReadsQuotes (client : Client) : Type 0 where
  pub alone :
      (a : Str)
      → has b'"' a ≡ false
      → has b'\\' a ≡ false
      → client.cmd_get_params (quoted a) ≡ some (a, [])
  pub followed :
      (a : Str) (c : ℕ) (b : Str)
      → has b'"' a ≡ false
      → has b'\\' a ≡ false
      → (c == b' ') ≡ false
      → client.cmd_get_params (quoted a ++ b' ' ∷ c ∷ b) ≡ some (a, c ∷ b)

-- What a room's line leaves for the last parameter.
abbrev pub printed_key : Option Str → Str
printed_key none = []
printed_key (some key) = quoted key

line_read :
    (client : Client)
    → ReadsQuotes client
    → (key : Option Str) (full : Str) → has b'"' full ≡ false
    → has b'\\' full ≡ false
    → client.cmd_get_params (line_of key full) ≡ some (full, printed_key key)
unfolding line_of
line_read client reads none full q b = reads.alone full q b
line_read client reads (some key) full q b = reads.followed full b'"' (key ++ b'"' ∷ []) q b refl

-- The room that is created for a line.
abbrev pub rejoined : Client → Server → Channel → Channel
rejoined client server channel =
    keyed (muc_create client server channel.name (some channel.nick)) (printed_key channel.key)

join_data_read :
    (client : Client) (channel : Channel)
    → ReadsQuotes client
    → has b'"' (full_name channel) ≡ false
    → has b'\\' (full_name channel) ≡ false
    → client.cmd_get_params (get_join_data channel)
      ≡ some (full_name channel, printed_key channel.key)
unfolding get_join_data
join_data_read client channel reads = line_read client reads channel.key (full_name channel)

pub line_joined :
    (client : Client) (server : Server) (line chanline name : Str) (nick : Option Str) (key : Str)
    → server.connected ≡ true
    → client.cmd_get_params line ≡ some (chanline, key)
    → xmpp_strip_resource chanline ≡ name
    → xmpp_extract_resource chanline ≡ nick
    → channel_find_func client.glib server name ≡ none
    → muc_join client server line ≡ join_unless client server name nick key none
unfolding muc_join join_parsed
line_joined client server line chanline name nick key up read strip extract new =
    ap (λ b. if b then join_parsed client server (client.cmd_get_params line) else server) up
    ∙ ap (join_parsed client server) read
    ∙ ap
        (λ n.
          join_unless client server n (xmpp_extract_resource chanline) key
            (channel_find_func client.glib server n))
        strip
    ∙ ap (λ r. join_unless client server name r key (channel_find_func client.glib server name))
        extract
    ∙ ap (join_unless client server name nick key) new

-- A server that is connected and has no room of that name creates, for the line that get_join_data
-- prints for a room, one room with the same name and nick, and asks to join it. A key comes back in
-- the quotes that it was printed in. The room has no '/' in its name, and neither the name nor the
-- nick a quote or backslash.
pub get_join_data-muc_join :
    (client : Client) (server : Server) (channel : Channel)
    → ReadsQuotes client
    → has b'/' channel.name ≡ false
    → has b'"' (full_name channel) ≡ false
    → has b'\\' (full_name channel) ≡ false
    → server.connected ≡ true
    → channel_find_func client.glib server channel.name ≡ none
    → (muc_join client server (get_join_data channel)
        ≡ send_join client
            (record server { channels = server.channels ++ rejoined client server channel ∷ [] })
            (rejoined client server channel))
      × ((rejoined client server channel).name ≡ channel.name)
      × ((rejoined client server channel).nick ≡ channel.nick)
unfolding muc_create join_unless
get_join_data-muc_join client server channel reads slash quote back up new =
    let parts = (strip-extract_iff (full_name channel) channel.name channel.nick).1 (refl, slash) in
    (
      line_joined client server (get_join_data channel) (full_name channel) channel.name
          (some channel.nick) (printed_key channel.key) up
          (join_data_read client channel reads quote back) parts.0 parts.1 new,
      refl,
      refl,
    )
