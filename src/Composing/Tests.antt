-- ===== src/Composing/Tests.antt =====
-- A contact that asks to be told.
use irssi_xmpp.Prelude.{
  if◌then◌else◌, ◌≡◌, refl, true, false, none, some, [], ◌∷◌, find_first, arith,
}
use irssi_xmpp.Prelude.Str.{codes, str_eq, strcmp}
use irssi_xmpp.Tools.Sample.{utf8}
use irssi_xmpp.Loudmouth.{SubType, lm_find_node}
use irssi_xmpp.Loudmouth.Trees.{Tree, node, leaf, sprout, tree_nodes}
use irssi_xmpp.Composing.{
  State, send_composing_event, sig_composing_start, find_event, has_child, sig_recv_message,
}
use irssi_xmpp.Composing.Asked.{sig_composing_start-asked}

abbrev event : Tree
event =
    node (codes "x") none ((codes "xmlns", codes "jabber:x:event") ∷ [])
      (sprout (node (codes "composing") none [] leaf) leaf)

-- A message with a text, and an event that asks to be told.
abbrev message : Tree
message =
    node (codes "message") none []
      (sprout event (sprout (node (codes "body") (some (codes "hi")) [] leaf) leaf))

abbrev nobody : State
nobody = record { composings = record { list = []; freed = [] }; calls = [] }

abbrev after_message : State
after_message =
    sig_recv_message tree_nodes nobody 1 message SubType.chat (codes "id1") (codes "ann@x") false

event_found : find_event tree_nodes message ≡ some event
unfolding find_event lm_find_node find_first str_eq strcmp
event_found = refl

sig_composing_start-asked_example : sig_composing_start utf8 after_message 1 (codes "ann@x") ≡ (
    if has_child tree_nodes event (codes "composing")
    then send_composing_event utf8 after_message 1 (codes "ann@x") (some (codes "id1")) true
    else after_message)
unfolding find_first str_eq strcmp
sig_composing_start-asked_example =
    sig_composing_start-asked tree_nodes utf8 nobody 1 message SubType.chat (codes "id1")
      (codes "ann@x") event (λ s j. omega arith) refl event_found refl
