-- ===== src/Dispatch.antt =====
-- src/core/stanzas.c: stanzas received from Loudmouth and handed to it.
--
-- A handler of Loudmouth is the type of message that it is registered for; `freed` lists those that
-- were invalidated and released, in order.
use irssi_xmpp.Prelude.{Option, none, some, List, [], ◌∷◌, ◌++◌}
use irssi_xmpp.Prelude.Str.{Str, codes}
use irssi_xmpp.Tools.{Charsets, xmpp_recode_in}
use irssi_xmpp.Loudmouth.{Loudmouth, SubType}
use irssi_xmpp.Loudmouth.Elements.{MessageType}

-- What the code reads of a stanza besides its node: the types, and the text of the node.
pub record Stanza (lm : Loudmouth) : Type 0 where
  pub node : lm.Node
  pub type : MessageType
  pub sub_type : SubType
  pub xml : Str

-- The signals, with the type, the id, and the addresses from which and to which the stanza goes.
pub data Event (lm : Loudmouth) : Type 0 where
  xmpp_xml_in xmpp_xml_out : Option Str → Event lm
  recv_message recv_presence recv_iq recv_others : lm.Node → SubType → Str → Str → Str → Event lm
  connection_send : Stanza lm → Event lm

-- A text that is NULL is taken for the empty one.
abbrev or_empty : Option Str → Str
or_empty none = []
or_empty (some s) = s

module _ (lm : Loudmouth) (charsets : Charsets) where
  recv : MessageType → lm.Node → SubType → Str → Str → Str → Event lm
  recv MessageType.message node type id from to = recv_message node type id from to
  recv MessageType.presence node type id from to = recv_presence node type id from to
  recv MessageType.iq node type id from to = recv_iq node type id from to
  recv MessageType.other node type id from to = recv_others node type id from to

  -- An address of the stanza.
  stanza_address : lm.Node → Str → Str
  unfolding xmpp_recode_in
  stanza_address node name = or_empty (xmpp_recode_in charsets (lm.get_attribute node name))

  pub handle_stanza : Stanza lm → List (Event lm)
  unfolding recv stanza_address xmpp_recode_in
  handle_stanza m =
      xmpp_xml_in (xmpp_recode_in charsets (some m.xml))
      ∷ recv m.type m.node m.sub_type (or_empty (lm.get_attribute m.node (codes "id")))
          (stanza_address m.node (codes "from")) (stanza_address m.node (codes "to"))
      ∷ []

  pub send_stanza : Stanza lm → List (Event lm)
  unfolding xmpp_recode_in
  send_stanza m = xmpp_xml_out (xmpp_recode_in charsets (some m.xml)) ∷ connection_send m ∷ []

-- The handlers of a server.
pub record Handlers : Type 0 where
  pub msg_handlers : List MessageType
  pub freed : List MessageType

abbrev message_types : List MessageType
message_types = MessageType.message ∷ MessageType.presence ∷ MessageType.iq ∷ []

unfoldable pub unregister_stanzas : Handlers → Handlers
unregister_stanzas h = record { msg_handlers = []; freed = h.freed ++ h.msg_handlers }

-- The loop over the types.
handlers_prepended : List MessageType → List MessageType → List MessageType
handlers_prepended list [] = list
handlers_prepended list (t ∷ l) = handlers_prepended (t ∷ list) l

-- Handlers that are left are taken away first.
unfoldable pub handlers_cleared : Handlers → List MessageType → Handlers
unfolding unregister_stanzas
handlers_cleared h [] = h
handlers_cleared h (t ∷ l) = unregister_stanzas h

unfoldable pub register_stanzas : Handlers → Handlers
unfolding handlers_prepended handlers_cleared
register_stanzas h =
    let c = handlers_cleared h h.msg_handlers in
    record c { msg_handlers = handlers_prepended c.msg_handlers message_types }
