-- ===== src/Disco.antt =====
-- src/core/xep/disco.c: the features one announces, and those of others.
--
-- A feature read from a stanza may be NULL: `none`. A comparison with it is a fault, also `none`.
pub mod Listed
mod Tests
use irssi_xmpp.Prelude.{
  Bool, true, false, Option, none, some, List, [], ◌∷◌, ◌++◌, map, if◌then◌else◌,
}
use irssi_xmpp.Prelude.Str.{Str, codes, strcmp, str_eq}
use irssi_xmpp.Glib.{Glib}
use irssi_xmpp.Tools.{Charsets, xmpp_recode_in, xmpp_recode_out}
use irssi_xmpp.Loudmouth.{Loudmouth, SubType, lm_find_node}
use irssi_xmpp.Loudmouth.Elements.{Element, element, elements, end, Message, MessageType, xmlns}

abbrev pub xmlns_disco : Str
xmlns_disco = codes "http://jabber.org/protocol/disco#info"

pub disco_add_feature : Glib → List Str → Str → List Str
disco_add_feature glib my_features [] = my_features
disco_add_feature glib my_features (c ∷ s) = glib.slist_insert_sorted strcmp my_features (c ∷ s)

-- The list of one's own features at the start.
pub disco_init : Glib → List Str
unfolding disco_add_feature
disco_init glib = disco_add_feature glib [] xmlns_disco

unfoldable pub disco_have_feature : List (Option Str) → Str → Option Bool
unfolding str_eq
disco_have_feature [] feature = some false
disco_have_feature (none ∷ l) feature = none
disco_have_feature (some f ∷ l) feature =
    let rest = disco_have_feature l feature in if str_eq feature f then some true else rest

-- The signals that the code emits.
pub data Event : Type 0 where
  send_iq : Message → Event
  features : Str → List (Option Str) → Event
  server_features_known : Event

-- The fields of a server that the code uses.
pub record Server : Type 0 where
  pub domain : Str
  pub server_features : List (Option Str)
  pub emitted : List Event

abbrev emitting : Server → Event → Server
emitting server e = record server { emitted = server.emitted ++ e ∷ [] }

query : SubType → Option Str → List Element → Message
query type dest content = record {
  type = MessageType.iq;
  sub_type = type;
  to = dest;
  attributes = [];
  content = element (codes "query") none (xmlns xmlns_disco ∷ []) (elements content) ∷ [];
}

pub disco_request : Charsets → Server → Str → Server
unfolding query
disco_request charsets server [] = server
disco_request charsets server (c ∷ s) =
    emitting server (send_iq (query SubType.get (xmpp_recode_out charsets (some (c ∷ s))) []))

feature_element : Str → Element
feature_element f = element (codes "feature") none ((codes "var", some f) ∷ []) end

-- `program` is the name of the program.
pub send_disco : Charsets → Str → List Str → Server → Str → Server
unfolding query feature_element
send_disco charsets program my_features server dest =
    let identity =
      element (codes "identity") none
        ((codes "category", some (codes "client"))
          ∷ (codes "type", some (codes "console"))
          ∷ (codes "name", some program)
          ∷ [])
        end in
    emitting server (
      send_iq (
        query SubType.result (xmpp_recode_out charsets (some dest))
          (identity ∷ map feature_element my_features)))

-- What the handlers ask of elsewhere.
pub record World : Type 1 where
  pub lm : Loudmouth
  pub charsets : Charsets
  pub program : Str
  pub my_features : List Str

module _ (w : World) where
  -- The loop over the children prepends: the features come out in reverse.
  unfoldable pub read_features : List (Option Str) → List w.lm.Node → List (Option Str)
  unfolding xmpp_recode_in str_eq
  read_features read [] = read
  read_features read (node ∷ l) =
      if str_eq (w.lm.name node) (codes "feature")
      then read_features (xmpp_recode_in w.charsets (w.lm.get_attribute node (codes "var")) ∷ read)
          l
      else read_features read l

  -- The features of the server itself are kept.
  unfoldable pub hear_features : Server → Str → List (Option Str) → Server
  unfolding str_eq
  hear_features server from read =
      let told = emitting server (features from read) in
      if str_eq from server.domain
      then emitting (record told { server_features = read }) server_features_known
      else told

  find_query : w.lm.Node → Option w.lm.Node
  unfolding lm_find_node
  find_query message = lm_find_node w.lm (some message) (codes "query") (codes "xmlns") xmlns_disco

  unfoldable pub sig_recv_iq : Server → w.lm.Node → SubType → Str → Server
  unfolding find_query hear_features read_features send_disco
  sig_recv_iq server message SubType.result from = elim (find_query message) [
    | none ↦ server
    | some query ↦ hear_features server from (read_features [] (w.lm.children query))
  ]
  sig_recv_iq server message SubType.get from = elim (find_query message) [
    | none ↦ server
    | some query ↦ send_disco w.charsets w.program w.my_features server from
  ]
  sig_recv_iq server message type from = server

pub sig_connected : Charsets → Server → Server
unfolding disco_request
sig_connected charsets server = disco_request charsets server server.domain

pub sig_disconnected : Server → Server
sig_disconnected server = record server { server_features = [] }
