-- ===== src/Muc/Stanzas.antt =====
-- src/core/xep/muc-events.c: the stanzas that come from a room that get_muc found.
--
-- `lm` reads the stanza, `charsets` the settings of recoding; `now` is the text of the current time.
pub mod Keeps
use irssi_xmpp.Prelude.{Bool, true, false, Option, none, some, [], ◌∷◌, ◌++◌, map, if◌then◌else◌}
use irssi_xmpp.Prelude.Int.{ℤ, pos, eqb_ℤ}
use irssi_xmpp.Prelude.Str.{Str, codes, str_eq, atoi}
use irssi_xmpp.Glib.{Glib}
use irssi_xmpp.Tools.{Charsets, xmpp_recode_in, xmpp_recode_out, xmpp_extract_resource}
use irssi_xmpp.Loudmouth.{Loudmouth, SubType, lm_find_node}
use irssi_xmpp.Muc.{
  Call, request_instant_room, event_329, message_affiliation, message_admin_mode, Channel, Irssi,
}
use irssi_xmpp.Muc.Modes.{xmpp_nicklist_get_affiliation, xmpp_nicklist_get_role}
use irssi_xmpp.Muc.Room.{calling, error_join, error_presence}
use irssi_xmpp.Muc.Events.{
  nick_changed, own_event, nick_event, nick_part, nick_presence, nick_kicked,
}

-- What the handlers ask of elsewhere.
pub record World : Type 1 where
  pub glib : Glib
  pub irssi : Irssi
  pub lm : Loudmouth
  pub charsets : Charsets
  pub now : Str
  pub alternate_nick : Option Str
  pub server_jid : Str

abbrev pub xmlns_muc_user : Str
xmlns_muc_user = codes "http://jabber.org/protocol/muc#user"

abbrev xmlns_muc_admin : Str
xmlns_muc_admin = codes "http://jabber.org/protocol/muc#admin"

module _ (w : World) where
  -- `node != NULL ? xmpp_recode_in(node->value) : NULL`
  unfoldable pub text_of : Option w.lm.Node → Option Str
  unfolding xmpp_recode_in
  text_of none = none
  text_of (some node) = xmpp_recode_in w.charsets (w.lm.value node)

  unfoldable pub value_of : Option w.lm.Node → Option Str
  value_of none = none
  value_of (some node) = w.lm.value node

  -- `node != NULL ? xmpp_recode_in(lm_message_node_get_attribute(node, name)) : NULL`
  pub attribute_of : Option w.lm.Node → Str → Option Str
  unfolding xmpp_recode_in
  attribute_of none name = none
  attribute_of (some node) name = xmpp_recode_in w.charsets (w.lm.get_attribute node name)

  pub child_of : Option w.lm.Node → Str → Option w.lm.Node
  child_of none name = none
  child_of (some node) name = w.lm.get_child node name

  -- `lm_find_node(node, "status", "code", code) != NULL`
  pub has_status : w.lm.Node → Str → Bool
  unfolding lm_find_node
  has_status node code = elim (lm_find_node w.lm (some node) (codes "status") (codes "code") code) [
    | none ↦ false
    | some s ↦ true
  ]

  unfoldable pub room_created : Channel → Channel
  unfolding xmpp_recode_out
  room_created channel = calling channel (
      request_instant_room (xmpp_recode_out w.charsets (some w.server_jid))
      ∷ event_329 (b'_' ∷ b' ' ∷ channel.name ++ b' ' ∷ w.now)
      ∷ [])

  -- The item of an available presence, for the nick that it names.
  unfoldable pub item_event : Channel → Str → w.lm.Node → Bool → Bool → Option Channel
  unfolding own_event nick_event attribute_of str_eq
  item_event channel nick item own forced =
      let affiliation = w.lm.get_attribute item (codes "affiliation") in
      let role = w.lm.get_attribute item (codes "role") in
      let jid = attribute_of (some item) (codes "jid") in
      if own
      then own_event w.glib w.irssi channel nick jid affiliation role forced
      else if str_eq nick channel.nick
      then own_event w.glib w.irssi channel nick jid affiliation role forced
      else some (nick_event w.glib w.irssi channel nick jid affiliation role)

  abbrev pub or_from : Option Str → Option Str → Option Str
  or_from none from = from
  or_from (some nick) from = some nick

  unfoldable pub available : Channel → Option Str → w.lm.Node → Option Channel
  unfolding lm_find_node has_status room_created item_event attribute_of nick_presence text_of
      value_of
  available channel from message =
      elim (lm_find_node w.lm (some message) (codes "x") (codes "xmlns") xmlns_muc_user) [
        | none ↦ some channel
        | some x ↦
            let own = has_status x (codes "110") in
            let forced = has_status x (codes "210") in
            let c = if has_status x (codes "201") then room_created channel else channel in
            elim (w.lm.get_child x (codes "item")) [
              | none ↦ some c
              | some item ↦ elim (or_from (attribute_of (some item) (codes "nick")) from) [
                | none ↦ some c
                | some nick ↦ elim (item_event c nick item own forced) [
                  | none ↦ none
                  | some d ↦ some (
                      nick_presence w.glib w.irssi d nick
                        (value_of (w.lm.get_child message (codes "show")))
                        (text_of (w.lm.get_child message (codes "status"))))
                ]
              ]
            ]
      ]

  -- The switch on the number of a status code.
  unfoldable pub status_event :
      Channel → ℤ → Option Str → Option Str → Option Str → Option Str → Option Channel
  unfolding nick_changed nick_kicked
  status_event channel code nick item_nick actor reason =
      if eqb_ℤ code (pos 303)
      then nick_changed w.irssi channel nick item_nick
      else if eqb_ℤ code (pos 307)
      then some (nick_kicked w.irssi channel nick actor reason)
      else if eqb_ℤ code (pos 301)
      then some (nick_kicked w.irssi channel nick actor reason)
      else some channel

  -- `status_code`: the code of the first <status/>.
  pub status_code : Option w.lm.Node → Option Str
  status_code none = none
  status_code (some status) = w.lm.get_attribute status (codes "code")

  unfoldable pub unavailable : Channel → Option Str → w.lm.Node → Option Channel
  unfolding lm_find_node child_of status_code attribute_of text_of status_event nick_part
  unavailable channel nick message =
      let x = lm_find_node w.lm (some message) (codes "x") (codes "xmlns") xmlns_muc_user in
      let item = child_of x (codes "item") in
      let item_nick = attribute_of item (codes "nick") in
      let reason = text_of (child_of item (codes "reason")) in
      let actor = attribute_of (child_of item (codes "actor")) (codes "jid") in
      elim (status_code (child_of x (codes "status"))) [
        | some code ↦ status_event channel (atoi code) nick item_nick actor reason
        | none ↦
            some
              (nick_part w.irssi channel nick (text_of (w.lm.get_child message (codes "status"))))
      ]

  admin_item : w.lm.Node → Call
  unfolding attribute_of
  admin_item item =
      let a =
        xmpp_nicklist_get_affiliation w.glib (w.lm.get_attribute item (codes "affiliation")) in
      let nick = attribute_of (some item) (codes "nick") in
      elim (w.lm.get_attribute item (codes "role")) [
        | none ↦ message_affiliation (attribute_of (some item) (codes "jid")) nick a
        | some role ↦ message_admin_mode nick a (xmpp_nicklist_get_role w.glib (some role))
      ]

  unfoldable pub admin : Channel → w.lm.Node → Channel
  unfolding lm_find_node admin_item
  admin channel message =
      elim (lm_find_node w.lm (some message) (codes "query") (codes "xmlns") xmlns_muc_admin) [
        | none ↦ channel
        | some query ↦ calling channel (map admin_item (w.lm.children query))
      ]

  unfoldable pub error_event : Channel → Option Str → Option Str → Channel
  unfolding error_join error_presence
  error_event channel code nick =
      if channel.joined
      then error_presence channel code nick
      else error_join w.alternate_nick channel code nick

  unfoldable pub sig_recv_presence : Channel → w.lm.Node → SubType → Str → Option Channel
  unfolding error_event available unavailable xmpp_extract_resource
  sig_recv_presence channel message SubType.error from =
      elim (w.lm.get_child message (codes "error")) [
        | none ↦ some channel
        | some node ↦ some (
            error_event channel (w.lm.get_attribute node (codes "code"))
              (xmpp_extract_resource from))
      ]
  sig_recv_presence channel message SubType.available from =
      available channel (xmpp_extract_resource from) message
  sig_recv_presence channel message SubType.unavailable from =
      unavailable channel (xmpp_extract_resource from) message
  sig_recv_presence channel message type from = some channel
