-- ===== src/Roster/Handlers/Pushes.antt =====
-- src/core/rosters.c: what a stanza with roster items keeps, and the presences that fault.
use irssi_xmpp.Prelude.{◌≡◌, false, some, List, [], ◌∷◌, Bool-cases, Option-cases, inl, inr}
use irssi_xmpp.Prelude.Str.{Str, codes, str_eq, has}
use irssi_xmpp.Loudmouth.{SubType, lm_find_node}
use irssi_xmpp.Roster.{Server}
use irssi_xmpp.Roster.Update.Valid.{IsWellFormed}
use irssi_xmpp.Roster.Update.Items.{update_user-IsWellFormed}
use irssi_xmpp.Roster.Update.Unique.{HasUniqueJids, update_user-HasUniqueJids}
use irssi_xmpp.Roster.Handlers.{Reader, recoded, read_item, read_items, read_query, sig_recv_iq}

module _ (r : Reader) where
  -- The item has no JID, or a bare one.
  abbrev pub NamesBareJid : r.lm.Node → Type 0
  NamesBareJid item = (jid : Str) → recoded r item (codes "jid") ≡ some jid → has b'/' jid ≡ false

  abbrev pub NameBareJids : List r.lm.Node → Type 0
  NameBareJids [] = Unit
  NameBareJids (item ∷ l) = NamesBareJid item × NameBareJids l

  read_item-IsWellFormed :
      (s : Server) (item : r.lm.Node) → IsWellFormed s → IsWellFormed (read_item r s item)
  unfolding read_item
  read_item-IsWellFormed s item v = elim (Option-cases (recoded r item (codes "jid"))) [
    | inl e ↦ rw (e, read_item) v
    | inr (jid, e) ↦ rw (e, read_item) (update_user-IsWellFormed r.glib s jid _ _ _ v)
  ]

  read_items-IsWellFormed :
      (s : Server) (l : List r.lm.Node) → IsWellFormed s → IsWellFormed (read_items r s l)
  unfolding read_items
  read_items-IsWellFormed s [] v = v
  read_items-IsWellFormed s (item ∷ l) v =
      elim (Bool-cases (str_eq (r.lm.name item) (codes "item"))) [
        | inl e ↦
            rw e (read_items-IsWellFormed (read_item r s item) l (read_item-IsWellFormed s item v))
        | inr e ↦ rw e (read_items-IsWellFormed s l v)
      ]

  read_item-HasUniqueJids :
      (s : Server) (item : r.lm.Node)
      → IsWellFormed s
      → NamesBareJid item
      → HasUniqueJids s
      → HasUniqueJids (read_item r s item)
  unfolding read_item
  read_item-HasUniqueJids s item v bare unique =
      elim (Option-cases (recoded r item (codes "jid"))) [
        | inl e ↦ rw (e, read_item) unique
        | inr (jid, e) ↦
            rw (e, read_item) (update_user-HasUniqueJids r.glib s jid _ _ _ v (bare jid e) unique)
      ]

  -- Where the JIDs of the items are bare and no contact has a JID twice, it is so after the items.
  pub read_items-HasUniqueJids :
      (s : Server) (l : List r.lm.Node)
      → IsWellFormed s
      → NameBareJids l
      → HasUniqueJids s
      → HasUniqueJids (read_items r s l)
  unfolding read_items
  read_items-HasUniqueJids s [] v bare unique = unique
  read_items-HasUniqueJids s (item ∷ l) v bare unique =
      elim (Bool-cases (str_eq (r.lm.name item) (codes "item"))) [
        | inl e ↦ rw e (
            read_items-HasUniqueJids (read_item r s item) l (read_item-IsWellFormed s item v) bare.1
              (read_item-HasUniqueJids s item v bare.0 unique))
        | inr e ↦ rw e (read_items-HasUniqueJids s l v bare.1 unique)
      ]

  read_query-IsWellFormed :
      (s : Server) (message : r.lm.Node) → IsWellFormed s → IsWellFormed (read_query r s message)
  unfolding read_query
  read_query-IsWellFormed s message v =
      elim (Option-cases (
        lm_find_node r.lm (some message) (codes "query") (codes "xmlns")
          (codes "jabber:iq:roster"))) [
            | inl e ↦ rw (e, read_query) v
            | inr (query, e) ↦
                rw (e, read_query) (read_items-IsWellFormed s (r.lm.children query) v)
          ]

  -- Whatever stanza arrives, the handler of roster items keeps a roster well formed: the
  -- addresses of groups and contacts stay apart, and the next one stays unused.
  pub sig_recv_iq-IsWellFormed :
      (s : Server) (message : r.lm.Node) (type : SubType)
      → IsWellFormed s
      → IsWellFormed (sig_recv_iq r s message type)
  unfolding sig_recv_iq
  sig_recv_iq-IsWellFormed s message SubType.result v = read_query-IsWellFormed s message v
  sig_recv_iq-IsWellFormed s message SubType.set v = read_query-IsWellFormed s message v
  sig_recv_iq-IsWellFormed s message type v = v

  -- In a well-formed roster where no contact has a JID twice, a stanza with a roster query whose
  -- items have bare JIDs, or none, keeps it so.
  pub sig_recv_iq-HasUniqueJids :
      (s : Server) (message query : r.lm.Node) (type : SubType)
      → lm_find_node r.lm (some message) (codes "query") (codes "xmlns") (codes "jabber:iq:roster")
        ≡ some query
      → NameBareJids (r.lm.children query)
      → IsWellFormed s
      → HasUniqueJids s
      → HasUniqueJids (sig_recv_iq r s message type)
  unfolding sig_recv_iq read_query
  sig_recv_iq-HasUniqueJids s message query SubType.result e bare v unique =
      rw (e, read_query) (read_items-HasUniqueJids s (r.lm.children query) v bare unique)
  sig_recv_iq-HasUniqueJids s message query SubType.set e bare v unique =
      rw (e, read_query) (read_items-HasUniqueJids s (r.lm.children query) v bare unique)
  sig_recv_iq-HasUniqueJids s message query type e bare v unique = unique
