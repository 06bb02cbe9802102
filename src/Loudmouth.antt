-- ===== src/Loudmouth.antt =====
-- src/core/loudmouth-tools.c: the search for a child of a stanza's node.
--
-- A node and the functions that read it belong to the Loudmouth library: its name, its value, its
-- children in order, lm_message_node_get_attribute and lm_message_node_get_child.
pub mod Trees
pub mod Elements
use irssi_xmpp.Prelude.{Bool, false, ◌&&◌, Option, none, some, List, find_first}
use irssi_xmpp.Prelude.Str.{Str, str_eq}

pub record Loudmouth : Type 1 where
  pub Node : Type 0
  pub name : Node → Str
  pub value : Node → Option Str
  pub children : Node → List Node
  pub get_attribute : Node → Str → Option Str
  pub get_child : Node → Str → Option Node

-- LM_MESSAGE_SUB_TYPE_*
pub data SubType : Type 0 where
  not_set available normal chat groupchat headline unavailable : SubType
  probe subscribe unsubscribe subscribed unsubscribed get set result error : SubType

-- `v != NULL && strcmp(value, v) == 0`
abbrev pub value_is : Str → Option Str → Bool
value_is value none = false
value_is value (some v) = str_eq value v

unfoldable pub lm_find_node : (lm : Loudmouth) → Option lm.Node → Str → Str → Str → Option lm.Node
unfolding find_first str_eq
lm_find_node lm none name attribute value = none
lm_find_node lm (some node) name attribute value =
    find_first (λ l. str_eq (lm.name l) name && value_is value (lm.get_attribute l attribute))
      (lm.children node)
