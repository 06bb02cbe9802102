-- ===== src/Muc/Sample.antt =====
-- An irssi that meets the laws of the hash table, and a room with two nicks.
use irssi_xmpp.Glib.{concrete}
use irssi_xmpp.Tools.Sample.{utf8}
use irssi_xmpp.Loudmouth.Trees.{Tree, node, leaf, sprout, tree_nodes}
use irssi_xmpp.Muc.Stanzas.{World}
use irssi_xmpp.Muc.Placed.Reach.{nobody}
use irssi_xmpp.Prelude.{
  ℕ, ◌≡◌, refl, Bool, true, false, Option, none, some, List, [], ◌∷◌, ◌++◌, Bool-cases, inl, inr,
  remove_first,
}
use irssi_xmpp.Prelude.Str.{Str, codes, str_eq, str_eq_iff}
use irssi_xmpp.Roster.{Presence}
use irssi_xmpp.Muc.{Affiliation, Role, Nick, Nicks, Channel, put, at_nick, Irssi}

abbrev first_of : List Nick → Option Nick
first_of [] = none
first_of (n ∷ l) = some n

find : Nicks → Option Str → Option Nick
find t none = none
find t (some name) = first_of (t name)

found_empty : (t : Nicks) (name : Str) → t name ≡ [] → find t (some name) ≡ none
unfolding find
found_empty t name e = rw e refl

found_first :
    (t : Nicks) (name : Str) (n : Nick) (l : List Nick)
    → t name ≡ n ∷ l
    → find t (some name) ≡ some n
unfolding find
found_first t name n l e = rw e refl

-- Names are keys as they are.
unfoldable pub hash_table : Irssi
unfolding find found_empty found_first
hash_table = record {
  nick_key = λ name. name;
  nicklist_find = find;
  nicklist_insert = λ t n. put n.nick (t n.nick ++ n ∷ []) t;
  nicklist_remove = λ t n. put n.nick (remove_first (at_nick n.addr) (t n.nick)) t;
  nicklist_set_own = λ t n. put n.nick (n ∷ remove_first (at_nick n.addr) (t n.nick)) t;
  nicklist_find_null = λ t. refl;
  nicklist_find_empty = found_empty;
  nicklist_find_first = found_first;
  nicklist_insert_lem = λ t n k. refl;
  nicklist_remove_lem = λ t n k. refl;
  nicklist_set_own_lem = λ t n k. refl;
}

abbrev nick_at : ℕ → Str → Nick
nick_at a name = record {
  addr = a;
  nick = name;
  host = [];
  show = Presence.available;
  status = none;
  affiliation = Affiliation.nothing;
  role = Role.nothing;
  prefixes = [];
  op = false;
  halfop = false;
  voice = false;
}

abbrev pub alice : Nick
alice = nick_at 1 (codes "alice")

abbrev pub bob : Nick
bob = nick_at 2 (codes "bob")

abbrev pub two_nicks : Nicks
two_nicks = put (codes "alice") (alice ∷ []) (put (codes "bob") (bob ∷ []) nobody)

abbrev room_with : Nicks → Option ℕ → Bool → Channel
room_with nicks ownnick joined = record {
  name = codes "room@host";
  nick = codes "alice";
  mode = [];
  key = none;
  topic = none;
  topic_by = none;
  nicks = nicks;
  ownnick = ownnick;
  next = 3;
  joined = joined;
  names_got = joined;
  left = false;
  kicked = false;
  chanop = false;
  calls = [];
}

-- A room that alice is in, with bob, and one that alice asked to join.
abbrev pub joined_room : Channel
joined_room = room_with two_nicks (some 1) true

abbrev pub new_room : Channel
new_room = room_with nobody none false

-- What holds of the chain put at a key, and of every other chain, holds of all.
pub put_each :
    (P : Str → List Nick → Type 0) (key : Str) (l : List Nick) (t : Nicks)
    → P key l
    → ((k : Str) → str_eq k key ≡ false → P k (t k))
    → (k : Str) → P k (put key l t k)
unfolding put
put_each P key l t h rest k = elim (Bool-cases (str_eq k key)) [
  | inl e ↦ rw (e, (str_eq_iff k key).0 e) h
  | inr e ↦ rw e (rest k e)
]

abbrev pub world : World
world = record {
  glib = concrete;
  irssi = hash_table;
  lm = tree_nodes;
  charsets = utf8;
  now = codes "0";
  alternate_nick = none;
  server_jid = codes "me@x";
}

-- A presence that makes bob an owner and moderator.
abbrev pub promotion : Tree
promotion = node (codes "presence") none [] (
    sprout
      (node (codes "x") none ((codes "xmlns", codes "http://jabber.org/protocol/muc#user") ∷ []) (
        sprout
          (node (codes "item") none
            ((codes "affiliation", codes "owner") ∷ (codes "role", codes "moderator") ∷ []) leaf)
          leaf))
      leaf)
