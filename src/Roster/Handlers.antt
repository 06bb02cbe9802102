-- ===== src/Roster/Handlers.antt =====
-- src/core/rosters.c: the handlers of the stanzas that carry roster items and presences.
--
-- `ischannel` is the server's test for the address of a chat room.
pub mod Pushes
mod Tests
use irssi_xmpp.Prelude.{Bool, true, false, Option, none, some, List, [], ◌∷◌, ◌++◌, if◌then◌else◌}
use irssi_xmpp.Prelude.Str.{Str, codes, str_eq}
use irssi_xmpp.Glib.{Glib}
use irssi_xmpp.Tools.{Charsets, xmpp_recode_in}
use irssi_xmpp.Loudmouth.{Loudmouth, SubType, lm_find_node}
use irssi_xmpp.Roster.{
  presence_subscribe, presence_unsubscribe, presence_subscribed, presence_unsubscribed, Signal,
  Server,
}
use irssi_xmpp.Roster.Update.{update_user}
use irssi_xmpp.Roster.Presences.{update_user_presence, user_unavailable, user_presence_error}

abbrev xmlns_roster : Str
xmlns_roster = codes "jabber:iq:roster"

-- What the handlers ask of elsewhere.
pub record Reader : Type 1 where
  pub glib : Glib
  pub lm : Loudmouth
  pub charsets : Charsets
  pub ischannel : Str → Bool

module _ (r : Reader) where
  -- `xmpp_recode_in(lm_message_node_get_attribute(item, name))`
  unfoldable pub recoded : r.lm.Node → Str → Option Str
  unfolding xmpp_recode_in
  recoded item name = xmpp_recode_in r.charsets (r.lm.get_attribute item name)

  text_of : Option r.lm.Node → Option Str
  unfolding xmpp_recode_in
  text_of none = none
  text_of (some node) = xmpp_recode_in r.charsets (r.lm.value node)

  value_of : Option r.lm.Node → Option Str
  value_of none = none
  value_of (some node) = r.lm.value node

  -- One item; update_user returns at once where there is no JID.
  unfoldable pub read_item : Server → r.lm.Node → Server
  unfolding recoded text_of
  read_item server item = elim (recoded item (codes "jid")) [
    | none ↦ server
    | some jid ↦
        update_user r.glib server jid (r.lm.get_attribute item (codes "subscription"))
          (recoded item (codes "name")) (text_of (r.lm.get_child item (codes "group")))
  ]

  unfoldable pub read_items : Server → List r.lm.Node → Server
  unfolding read_item str_eq
  read_items server [] = server
  read_items server (item ∷ l) =
      if str_eq (r.lm.name item) (codes "item")
      then read_items (read_item server item) l
      else read_items server l

  read_query : Server → r.lm.Node → Server
  unfolding lm_find_node read_items
  read_query server message =
      elim (lm_find_node r.lm (some message) (codes "query") (codes "xmlns") xmlns_roster) [
        | none ↦ server
        | some query ↦ read_items server (r.lm.children query)
      ]

  unfoldable pub sig_recv_iq : Server → r.lm.Node → SubType → Server
  unfolding read_query
  sig_recv_iq server message SubType.result = read_query server message
  sig_recv_iq server message SubType.set = read_query server message
  sig_recv_iq server message type = server

  status_of : r.lm.Node → Option Str
  unfolding text_of
  status_of message = text_of (r.lm.get_child message (codes "status"))

  abbrev emitting : Server → Signal → Server
  emitting server s = record server { emitted = server.emitted ++ s ∷ [] }

  -- The switch on the type. `none` is the fault of update_user_presence.
  unfoldable pub read_presence : Server → r.lm.Node → SubType → Str → Option Server
  unfolding status_of value_of
  read_presence server message SubType.available from =
      update_user_presence r.glib server from (value_of (r.lm.get_child message (codes "show")))
        (status_of message) (value_of (r.lm.get_child message (codes "priority")))
  read_presence server message SubType.unavailable from =
      some (user_unavailable r.glib server from (status_of message))
  read_presence server message SubType.subscribe from =
      some (emitting server (presence_subscribe from (status_of message)))
  read_presence server message SubType.unsubscribe from =
      some (emitting server (presence_unsubscribe from))
  read_presence server message SubType.subscribed from =
      some (emitting server (presence_subscribed from))
  read_presence server message SubType.unsubscribed from =
      some (emitting server (presence_unsubscribed from))
  read_presence server message SubType.error from = some (user_presence_error r.glib server from)
  read_presence server message type from = some server

  unfoldable pub sig_recv_presence : Server → r.lm.Node → SubType → Str → Option Server
  unfolding read_presence
  sig_recv_presence server message type from =
      let read = read_presence server message type from in
      if r.ischannel from then some server else read
