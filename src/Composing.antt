-- ===== src/Composing.antt =====
-- src/core/xep/composing.c, chatstates.c: who is composing a message.
--
-- A server is its address. Of irssi's query, only the flag matters; a stanza that is sent or a signal
-- is kept in `calls`, in order.
pub mod Asked
mod Tests
use irssi_xmpp.Prelude.{
  ℕ, Bool, true, false, not, ◌&&◌, ◌||◌, Option, none, some, List, [], ◌∷◌, ◌++◌, if◌then◌else◌,
}
use irssi_xmpp.Prelude.Str.{Str, codes}
use irssi_xmpp.Tools.{Charsets, xmpp_recode_out}
use irssi_xmpp.Loudmouth.{Loudmouth, SubType, lm_find_node}
use irssi_xmpp.Loudmouth.Elements.{
  Element, element, elements, end, Message, MessageType, text_element, xmlns,
}
use irssi_xmpp.Datalist.{
  Datalist, Rec, datalist_find, datalist_add, datalist_remove, datalist_cleanup,
}

abbrev xmlns_event : Str
xmlns_event = codes "jabber:x:event"

abbrev xmlns_chatstates : Str
xmlns_chatstates = codes "http://jabber.org/protocol/chatstates"

pub data Call : Type 0 where
  composing_show composing_hide : ℕ → Str → Call
  message_out : ℕ → Message → Call

-- `composings` keeps the id of the last message that asked to be told.
pub record State : Type 0 where
  pub composings : Datalist Str
  pub calls : List Call

abbrev pub calling : State → Call → State
calling s call = record s { calls = s.calls ++ call ∷ [] }

abbrev id_child : Option Str → List Element
id_child none = []
id_child (some id) = text_element (codes "id") (some id) ∷ []

-- The stanza of send_composing_event.
unfoldable pub composing_event : Charsets → Str → Option Str → Bool → Message
unfolding xmpp_recode_out
composing_event charsets dest id composing =
    let content =
      (if composing then text_element (codes "composing") none ∷ [] else []) ++ id_child id in
    record {
      type = MessageType.message;
      sub_type = SubType.chat;
      to = xmpp_recode_out charsets (some dest);
      attributes = [];
      content = element (codes "x") none (xmlns xmlns_event ∷ []) (elements content) ∷ [];
    }

unfoldable pub send_composing_event : Charsets → State → ℕ → Str → Option Str → Bool → State
unfolding composing_event
send_composing_event charsets s server dest id composing =
    calling s (message_out server (composing_event charsets dest id composing))

-- An event for a contact that asked to be told.
unfoldable told_if_asked : Charsets → Bool → State → ℕ → Str → Option (Rec Str) → State
unfolding send_composing_event
told_if_asked charsets composing s server dest none = s
told_if_asked charsets composing s server dest (some r) =
    send_composing_event charsets s server dest (some r.content) composing

unfoldable pub sig_composing_start : Charsets → State → ℕ → Str → State
unfolding told_if_asked datalist_find
sig_composing_start charsets s server dest =
    told_if_asked charsets true s server dest (datalist_find s.composings server dest)

unfoldable pub sig_composing_stop : Charsets → State → ℕ → Str → State
unfolding told_if_asked datalist_find
sig_composing_stop charsets s server dest =
    told_if_asked charsets false s server dest (datalist_find s.composings server dest)

-- The types of a message from a contact.
abbrev pub is_chat : SubType → Bool
is_chat SubType.not_set = true
is_chat SubType.headline = true
is_chat SubType.normal = true
is_chat SubType.chat = true
is_chat type = false

-- The list and the signal for a message with an event. `text` says whether it has a body or a subject.
unfoldable heard : Datalist Str → ℕ → Str → Str → Bool → Bool → Datalist Str × Call
unfolding datalist_add datalist_remove
heard dl server from id true true = (datalist_add dl server from id, composing_hide server from)
heard dl server from id true false = (datalist_remove dl server from, composing_hide server from)
heard dl server from id false true = (dl, composing_show server from)
heard dl server from id false false = (dl, composing_hide server from)

module _ (lm : Loudmouth) where
  -- `lm_message_node_get_child(node, name) != NULL`
  abbrev pub has_child : lm.Node → Str → Bool
  has_child node name = elim (lm.get_child node name) [ none ↦ false | some n ↦ true ]

  unfoldable pub find_event : lm.Node → Option lm.Node
  unfolding lm_find_node
  find_event message = lm_find_node lm (some message) (codes "x") (codes "xmlns") xmlns_event

  -- What a message from a contact does, with its event or without one.
  unfoldable from_contact : State → ℕ → lm.Node → Str → Str → Option lm.Node → State
  unfolding heard
  from_contact s server message id from none = calling s (composing_hide server from)
  from_contact s server message id from (some node) =
      let text = has_child message (codes "body") || has_child message (codes "subject") in
      let (dl, call) =
        heard s.composings server from id text (has_child node (codes "composing")) in
      calling (record s { composings = dl }) call

  -- `is_channel` is what the server's ischannel says of the sender.
  unfoldable pub sig_recv_message : State → ℕ → lm.Node → SubType → Str → Str → Bool → State
  unfolding from_contact find_event
  sig_recv_message s server message type id from is_channel =
      if not (is_chat type) || is_channel
      then s
      else from_contact s server message id from (find_event message)

  -- The request that is added to a stanza sent, where it has a text.
  pub sig_send_message : lm.Node → SubType → List Element
  sig_send_message message type =
      let text = has_child message (codes "body") || has_child message (codes "subject") in
      if is_chat type && text
      then element (codes "x") none (xmlns xmlns_event ∷ [])
          (elements (text_element (codes "composing") none ∷ []))
        ∷ []
      else []

  -- Whether the stanza has a chat state of that name.
  has_state : lm.Node → Str → Bool
  unfolding lm_find_node
  has_state message name =
      elim (lm_find_node lm (some message) name (codes "xmlns") xmlns_chatstates) [
        | none ↦ false
        | some n ↦ true
      ]

  -- sig_recv_message of chatstates.c
  pub recv_chatstate : State → ℕ → lm.Node → SubType → Str → Bool → State
  unfolding has_state
  recv_chatstate s server message type from is_channel =
      if not (is_chat type) || is_channel
      then s
      else if has_state message (codes "composing")
      then calling s (composing_show server from)
      else if has_state message (codes "active") || has_state message (codes "paused")
      then calling s (composing_hide server from)
      else s

pub sig_offline : State → ℕ → Str → State
unfolding datalist_remove
sig_offline s server jid = record s { composings = datalist_remove s.composings server jid }

pub sig_disconnected : State → ℕ → State
unfolding datalist_cleanup
sig_disconnected s server = record s { composings = datalist_cleanup s.composings (some server) }

-- `query->composing_visible`, of the query that xmpp_query_find finds.
abbrev set_visible : Bool → Option Bool → Option Bool
set_visible visible none = none
set_visible visible (some old) = some visible

pub sig_composing_show : Option Bool → Option Bool
sig_composing_show query = set_visible true query

pub sig_composing_hide : Option Bool → Option Bool
sig_composing_hide query = set_visible false query
