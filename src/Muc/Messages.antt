-- ===== src/Muc/Messages.antt =====
-- src/core/xep/muc-events.c: messages and replies from a room that get_muc found.
use irssi_xmpp.Prelude.{Option, none, some, List, [], ◌∷◌, map, if◌then◌else◌}
use irssi_xmpp.Prelude.Str.{Str, codes, str_eq, ascii_lower}
use irssi_xmpp.Tools.{xmpp_recode_in, xmpp_extract_resource}
use irssi_xmpp.Loudmouth.{SubType, lm_find_node}
use irssi_xmpp.Muc.{
  Call, message_own_action, message_own_public, message_room, message_action, message_public,
  Channel,
}
use irssi_xmpp.Muc.Room.{calling, topic, error_message, error_destroy}
use irssi_xmpp.Muc.Stanzas.{World, text_of, value_of, admin}

abbrev xmlns_muc_owner : Str
xmlns_muc_owner = codes "http://jabber.org/protocol/muc#owner"

module _ (w : World) where
  -- `g_ascii_strncasecmp(str, "/me ", 4) == 0`, and `str + 4`.
  after_me : Str → Option Str
  after_me (a ∷ b ∷ c ∷ d ∷ s) =
      if str_eq (map ascii_lower (a ∷ b ∷ c ∷ d ∷ [])) (codes "/me ") then some s else none
  after_me s = none

  -- The signal for the body of a message.
  body_call : Channel → Option Str → Str → Call
  unfolding after_me str_eq
  body_call channel none str = message_room (some str)
  body_call channel (some nick) str = elim (after_me str) [
    | some action ↦
        if str_eq nick channel.nick then message_own_action action else message_action action nick
    | none ↦ if str_eq nick channel.nick then message_own_public str else message_public str nick
  ]

  subject_event : Channel → Option Str → Option w.lm.Node → Channel
  unfolding topic xmpp_recode_in
  subject_event channel nick none = channel
  subject_event channel nick (some node) =
      topic channel (xmpp_recode_in w.charsets (w.lm.value node)) nick

  -- The recoding of an empty body is NULL, which a room may say; from a nick, the code compares it
  -- and reads behind it: that fault is `none`.
  unfoldable pub body_event : Channel → Option Str → Option Str → Option Channel
  unfolding body_call xmpp_recode_in
  body_event channel nick none = some channel
  body_event channel nick (some value) = elim (xmpp_recode_in w.charsets (some value)) [
    | none ↦ elim nick [ none ↦ some (calling channel (message_room none ∷ [])) | some n ↦ none ]
    | some str ↦ some (calling channel (body_call channel nick str ∷ []))
  ]

  unfoldable pub sig_recv_message : Channel → w.lm.Node → SubType → Str → Option Channel
  unfolding subject_event body_event value_of xmpp_extract_resource
  sig_recv_message channel message SubType.error from =
      elim (w.lm.get_child message (codes "error")) [
        | none ↦ some channel
        | some node ↦ some (error_message channel (w.lm.get_attribute node (codes "code")))
      ]
  sig_recv_message channel message SubType.groupchat from =
      let nick = xmpp_extract_resource from in
      body_event (subject_event channel nick (w.lm.get_child message (codes "subject"))) nick
        (value_of w (w.lm.get_child message (codes "body")))
  sig_recv_message channel message type from = some channel

  -- The loop over the children of a query of the owner; `text` is read also where it is NULL.
  destroy_events : Channel → Option Str → Option w.lm.Node → List w.lm.Node → Option Channel
  unfolding str_eq error_destroy text_of
  destroy_events channel code text [] = some channel
  destroy_events channel code none (node ∷ l) =
      let rest = destroy_events channel code none l in
      if str_eq (w.lm.name node) (codes "destroy") then none else rest
  destroy_events channel code (some text) (node ∷ l) =
      let after =
        destroy_events (error_destroy channel code (text_of w (some text))) code (some text) l in
      let rest = destroy_events channel code (some text) l in
      if str_eq (w.lm.name node) (codes "destroy") then after else rest

  unfoldable pub sig_recv_iq : Channel → w.lm.Node → SubType → Option Channel
  unfolding lm_find_node destroy_events admin
  sig_recv_iq channel message SubType.error = elim (w.lm.get_child message (codes "error")) [
    | none ↦ some channel
    | some error ↦
        elim (lm_find_node w.lm (some message) (codes "query") (codes "xmlns") xmlns_muc_owner) [
          | none ↦ some channel
          | some query ↦
              destroy_events channel (w.lm.get_attribute error (codes "code"))
                (w.lm.get_child error (codes "text")) (w.lm.children query)
        ]
  ]
  sig_recv_iq channel message SubType.result = some (admin w channel message)
  sig_recv_iq channel message type = some channel
