-- ===== src/Roster/Handlers/Tests.antt =====
-- The theorems on the handlers, for a push of two items.
use irssi_xmpp.Prelude.{false, find_first, arith, none, [], ◌∷◌, refl}
use irssi_xmpp.Prelude.Str.{Str, codes, str_eq, has}
use irssi_xmpp.Glib.{concrete}
use irssi_xmpp.Tools.{xmpp_recode_in}
use irssi_xmpp.Tools.Sample.{utf8}
use irssi_xmpp.Loudmouth.{SubType, lm_find_node}
use irssi_xmpp.Loudmouth.Trees.{Tree, node, leaf, sprout, tree_nodes}
use irssi_xmpp.Roster.Sample.{server, server-IsWellFormed, server-HasUniqueJids}
use irssi_xmpp.Roster.Update.Valid.{IsWellFormed}
use irssi_xmpp.Roster.Update.Unique.{HasUniqueJids}
use irssi_xmpp.Roster.Handlers.{Reader, recoded, sig_recv_iq}
use irssi_xmpp.Roster.Handlers.Pushes.{
  NamesBareJid, sig_recv_iq-IsWellFormed, sig_recv_iq-HasUniqueJids,
}

abbrev reader : Reader
reader = record { glib = concrete; lm = tree_nodes; charsets = utf8; ischannel = λ s. false }

abbrev item_for : Str → Tree
item_for jid = node (codes "item") none ((codes "jid", jid) ∷ []) leaf

abbrev query : Tree
query =
    node (codes "query") none ((codes "xmlns", codes "jabber:iq:roster") ∷ [])
      (sprout (item_for (codes "cat@x")) (sprout (item_for (codes "ann@x")) leaf))

abbrev push : Tree
push = node (codes "iq") none [] (sprout query leaf)

sig_recv_iq-IsWellFormed_example : IsWellFormed (sig_recv_iq reader server push SubType.set)
sig_recv_iq-IsWellFormed_example =
    sig_recv_iq-IsWellFormed reader server push SubType.set server-IsWellFormed

cat-NamesBareJid : NamesBareJid reader (item_for (codes "cat@x"))
unfolding recoded xmpp_recode_in str_eq has
cat-NamesBareJid jid e = ground arith

ann-NamesBareJid : NamesBareJid reader (item_for (codes "ann@x"))
unfolding recoded xmpp_recode_in str_eq has
ann-NamesBareJid jid e = ground arith

sig_recv_iq-HasUniqueJids_example : HasUniqueJids (sig_recv_iq reader server push SubType.set)
unfolding lm_find_node find_first str_eq
sig_recv_iq-HasUniqueJids_example =
    sig_recv_iq-HasUniqueJids reader server push query SubType.set refl
      (cat-NamesBareJid, (ann-NamesBareJid, tt)) server-IsWellFormed server-HasUniqueJids
