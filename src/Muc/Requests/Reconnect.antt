-- ===== src/Muc/Requests/Reconnect.antt =====
-- src/core/xep/muc-reconnect.c: the rooms kept for a new connection.
--
-- The lines of a connection's list are copies, so freeing them empties the list.
use mathlib.Core.List.{append_assoc, append-nil}
use irssi_xmpp.Prelude.{
  ◌≡◌, refl, sym, ap, ◌∙◌, Bool, true, false, map, ◌&&◌, List, [], ◌∷◌, ◌++◌, if◌then◌else◌,
}
use irssi_xmpp.Prelude.Str.{Str}
use irssi_xmpp.Muc.{Channel}
use irssi_xmpp.Muc.Requests.{Client, Server, get_join_data, muc_join}

-- The fields of irssi's SERVER_CONNECT_REC that the code uses; `is_xmpp` is the test
-- IS_XMPP_SERVER_CONNECT.
pub record Conn : Type 0 where
  pub is_xmpp : Bool
  pub reconnection : Bool
  pub channels_list : List Str

-- The loop that appends a copy of each line.
copied : List Str → List Str → List Str
copied list [] = list
copied list (line ∷ l) = copied (list ++ line ∷ []) l

pub sig_conn_copy : Conn → Conn → Conn
unfolding copied
sig_conn_copy dest src =
    let copy : Conn = record dest { channels_list = copied [] src.channels_list } in
    if src.is_xmpp then copy else dest

pub sig_conn_remove : Conn → Conn
sig_conn_remove conn = if conn.is_xmpp then record conn { channels_list = [] } else conn

-- The loop that appends the line of each room.
saved : List Str → List Channel → List Str
unfolding get_join_data
saved list [] = list
saved list (channel ∷ l) = saved (list ++ get_join_data channel ∷ []) l

unfoldable pub save_channels : Server → Conn → Conn
unfolding saved
save_channels server conn = record conn { channels_list = saved [] server.channels }

-- The loop that joins the room of each line.
joined_again : Client → Server → List Str → Server
unfolding muc_join
joined_again client server [] = server
joined_again client server (line ∷ l) = joined_again client (muc_join client server line) l

-- `if (server->connrec->channels_list != NULL) return`, and what follows.
restored : Client → Server → Conn → List Str → Server × Conn
unfolding joined_again
restored client server conn (line ∷ l) = (server, conn)
restored client server conn [] = (joined_again client server [], record conn { channels_list = [] })

unfoldable pub restore_channels : Client → Server → Conn → Server × Conn
unfolding restored
restore_channels client server conn = restored client server conn conn.channels_list

unfoldable pub sig_save_status : Conn → Server → Conn
unfolding save_channels
sig_save_status conn server =
    if conn.is_xmpp && server.connected then save_channels server conn else conn

unfoldable pub sig_connected : Client → Server → Conn → Server × Conn
unfolding restore_channels
sig_connected client server conn =
    if conn.reconnection then restore_channels client server conn else (server, conn)

saved_lem : (list : List Str) (l : List Channel) → saved list l ≡ list ++ map get_join_data l
unfolding saved
saved_lem list [] = sym (append-nil list)
saved_lem list (c ∷ l) =
    saved_lem (list ++ get_join_data c ∷ []) l ∙ append_assoc list (get_join_data c ∷ []) _

restored_same :
    (client : Client) (server : Server) (conn : Conn) (l : List Str)
    → conn.channels_list ≡ l
    → restored client server conn l ≡ (server, conn)
unfolding restored joined_again
restored_same client server conn [] e =
    ap (λ l. (server, record conn { channels_list = l })) (sym e)
restored_same client server conn (line ∷ l) e = refl

connected_alone :
    (client : Client) (server : Server) (conn : Conn) (b : Bool)
    → (if b then restore_channels client server conn else (server, conn)) ≡ (server, conn)
unfolding restore_channels
connected_alone client server conn true = restored_same client server conn conn.channels_list refl
connected_alone client server conn false = refl

-- When a connection is lost, the line of each room is kept, in order. But the server that is
-- connected anew joins none of them, whatever lines were kept, and the lines stay.
pub saved_rooms_stay_away :
    (client : Client) (server again : Server) (conn : Conn)
    → conn.is_xmpp ≡ true
    → server.connected ≡ true
    → ((sig_save_status conn server).channels_list ≡ map get_join_data server.channels)
      × (sig_connected client again (sig_save_status conn server)
          ≡ (again, sig_save_status conn server))
unfolding sig_save_status save_channels sig_connected restore_channels
saved_rooms_stay_away client server again conn xmpp up = (
  ap (λ b. (if b && server.connected then save_channels server conn else conn).channels_list) xmpp
      ∙ ap (λ b. (if b then save_channels server conn else conn).channels_list) up
      ∙ saved_lem [] server.channels,
  connected_alone client again (sig_save_status conn server)
      (sig_save_status conn server).reconnection,
)
