-- ===== src/Loudmouth/Elements.antt =====
-- Stanzas that the code builds and sends, as the calls of Loudmouth build them.
--
-- An element has its name and value, the attributes that lm_message_node_set_attribute set, and the
-- children that lm_message_node_add_child added, each in the order of the calls.
use irssi_xmpp.Prelude.{Option, none, some, List, [], ◌∷◌}
use irssi_xmpp.Prelude.Str.{Str, codes}
use irssi_xmpp.Loudmouth.{SubType}

mutual
  pub data Element : Type 0 where
    element : Str → Option Str → List (Str × Option Str) → Elements → Element

  pub data Elements : Type 0 where
    end : Elements
    and : Element → Elements → Elements

abbrev pub elements : List Element → Elements
elements [] = end
elements (e ∷ l) = and e (elements l)

-- LM_MESSAGE_TYPE_*
pub data MessageType : Type 0 where
  message presence iq other : MessageType

-- A stanza: its root has the attributes `type` and `to` besides.
pub record Message : Type 0 where
  pub type : MessageType
  pub sub_type : SubType
  pub to : Option Str
  pub attributes : List (Str × Option Str)
  pub content : List Element

-- A child with a text.
abbrev pub text_element : Str → Option Str → Element
text_element name value = element name value [] end

-- `if (value != NULL) lm_message_node_add_child(node, name, value)`
abbrev pub optional_element : Str → Option Str → List Element
optional_element name none = []
optional_element name (some value) = text_element name (some value) ∷ []

abbrev pub xmlns : Str → Str × Option Str
xmlns uri = (codes "xmlns", some uri)
