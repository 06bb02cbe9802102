-- ===== src/Muc/Requests/Admin.antt =====
-- src/core/xep/muc.c: what an owner or an admin asks of a room.
use irssi_xmpp.Prelude.{ℕ, ◌==◌, Option, none, some, List, [], ◌∷◌, if◌then◌else◌, map}
use irssi_xmpp.Prelude.Str.{Str, codes}
use irssi_xmpp.Tools.{xmpp_recode_out}
use irssi_xmpp.Loudmouth.{SubType}
use irssi_xmpp.Loudmouth.Elements.{
  Element, element, elements, end, Message, MessageType, text_element, xmlns,
}
use irssi_xmpp.Muc.{Channel}
use irssi_xmpp.Muc.Requests.{Client, Server, sending, recoded_child}

abbrev xmlns_muc_admin : Str
xmlns_muc_admin = codes "http://jabber.org/protocol/muc#admin"

abbrev xmlns_muc_owner : Str
xmlns_muc_owner = codes "http://jabber.org/protocol/muc#owner"

-- The room's name is the address as it is; one's own JID is recoded.
iq : Client → Server → Channel → SubType → List Element → Message
iq client server channel type content = record {
  type = MessageType.iq;
  sub_type = type;
  to = some channel.name;
  attributes = (codes "from", xmpp_recode_out client.charsets (some server.jid)) ∷ [];
  content = content;
}

abbrev query : Str → List Element → Element
query uri content = element (codes "query") none (xmlns uri ∷ []) (elements content)

send : Server → Message → Server
send server m = if server.connected then sending server m else server

-- An item with one recoded attribute.
ask_items : Client → Server → Channel → Str → Option Str → Server
unfolding iq send
ask_items client server channel name value = send server (
    iq client server channel SubType.get (
      query xmlns_muc_admin
        (element (codes "item") none ((name, xmpp_recode_out client.charsets value) ∷ []) end ∷ [])
      ∷ []))

pub muc_get_affiliation : Client → Server → Channel → Option Str → Server
unfolding ask_items
muc_get_affiliation client server channel type =
    ask_items client server channel (codes "affiliation") type

pub muc_get_role : Client → Server → Channel → Option Str → Server
unfolding ask_items
muc_get_role client server channel type = ask_items client server channel (codes "role") type

-- An item with two recoded attributes, and a reason where there is one.
set_item : Client → Server → Channel → Str → Option Str → Str → Option Str → Option Str → Server
unfolding iq send recoded_child
set_item client server channel name value who_name who reason = send server (
    iq client server channel SubType.set (
      query xmlns_muc_admin (
        element (codes "item") none
          ((name, xmpp_recode_out client.charsets value)
            ∷ (who_name, xmpp_recode_out client.charsets who)
            ∷ [])
          (elements (recoded_child client (codes "reason") reason))
        ∷ [])
      ∷ []))

pub muc_set_affiliation : Client → Server → Channel → Option Str → Option Str → Option Str → Server
unfolding set_item
muc_set_affiliation client server channel type jid reason =
    set_item client server channel (codes "affiliation") type (codes "jid") jid reason

pub muc_set_role : Client → Server → Channel → Option Str → Option Str → Option Str → Server
unfolding set_item
muc_set_role client server channel type nick reason =
    set_item client server channel (codes "role") type (codes "nick") nick reason

-- The option of the room that a letter stands for.
unfoldable pub room_option : ℕ → Option Str
room_option c =
    if c == b'm'
    then some (codes "muc#roomconfig_membersonly")
    else if c == b'M'
    then some (codes "muc#roomconfig_moderatedroom")
    else if c == b'k'
    then some (codes "muc#roomconfig_passwordprotectedroom")
    else if c == b'p'
    then some (codes "muc#roomconfig_persistentroom")
    else if c == b'u'
    then some (codes "muc#roomconfig_publicroom")
    else none

-- The field of a letter: it stays empty where the letter stands for nothing.
unfoldable pub field : Str → ℕ → Element
unfolding room_option
field new_value c = elim (room_option c) [
  | none ↦ element (codes "field") none [] end
  | some feature ↦
      element (codes "field") none ((codes "var", some feature) ∷ [])
        (elements (text_element (codes "value") (some new_value) ∷ []))
]

-- "1" where the mode begins with a plus, and the letters behind its first character.
abbrev new_value : Str → Str
new_value [] = codes "0"
new_value (c ∷ s) = if c == b'+' then codes "1" else codes "0"

abbrev letters : Str → Str
letters [] = []
letters (c ∷ s) = s

abbrev form_type : Element
form_type = element (codes "field") none ((codes "var", some (codes "FORM_TYPE")) ∷ []) (
    elements (
      text_element (codes "value") (some (codes "http://jabber.org/protocol/muc#roomconfig")) ∷ []))

-- Sent whether the server is connected or not.
pub muc_set_mode : Client → Server → Channel → Str → Server
unfolding iq field
muc_set_mode client server channel mode =
    let x =
      element (codes "x") none
        (xmlns (codes "jabber:x:data") ∷ (codes "type", some (codes "submit")) ∷ [])
        (elements (form_type ∷ map (field (new_value mode)) (letters mode))) in
    sending server (iq client server channel SubType.set (query xmlns_muc_owner (x ∷ []) ∷ []))

pub muc_destroy : Client → Server → Channel → Option Str → Option Str → Server
unfolding iq send recoded_child
muc_destroy client server channel alternate reason =
    let jid : List (Str × Option Str) = elim alternate [
      | none ↦ []
      | some a ↦ (codes "jid", xmpp_recode_out client.charsets (some a)) ∷ []
    ] in
    send server (
      iq client server channel SubType.set (
        query xmlns_muc_owner (
          element (codes "destroy") none jid
            (elements (recoded_child client (codes "reason") reason))
          ∷ [])
        ∷ []))
