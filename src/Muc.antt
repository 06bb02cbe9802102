-- ===== src/Muc.antt =====
-- src/core/xep/muc.h, muc-nicklist.h, muc-affiliation.c, muc-role.c: a chat room and the nicks in it.
--
-- The hash table of nicks maps a key to the chain of the nicks with that key. A nick that the code
-- holds by pointer has its address in `addr`; `next` is the address that the next `g_new0` returns.
pub mod Modes
pub mod Nicks
pub mod Room
pub mod Events
pub mod Stanzas
pub mod Flags
pub mod Placed
pub mod Requests
pub mod Messages
mod Sample
mod Tests
use irssi_xmpp.Prelude.{
  ℕ, ◌==◌, ◌≡◌, Bool, Option, none, some, List, [], ◌∷◌, ◌++◌, map, if◌then◌else◌, remove_first,
}
use irssi_xmpp.Prelude.Int.{ℤ}
use irssi_xmpp.Prelude.Str.{Str, codes, str_eq}
use irssi_xmpp.Roster.{Presence}

-- XMPP_AFFILIATION_*
pub data Affiliation : Type 0 where
  nothing owner admin member outcast : Affiliation

-- `xmpp_affiliation`
abbrev pub xmpp_affiliation : Affiliation → Str
xmpp_affiliation Affiliation.nothing = codes "none"
xmpp_affiliation Affiliation.owner = codes "owner"
xmpp_affiliation Affiliation.admin = codes "admin"
xmpp_affiliation Affiliation.member = codes "member"
xmpp_affiliation Affiliation.outcast = codes "outcast"

-- XMPP_ROLE_*
pub data Role : Type 0 where
  nothing moderator participant visitor : Role

-- `xmpp_role`
abbrev pub xmpp_role : Role → Str
xmpp_role Role.nothing = codes "none"
xmpp_role Role.moderator = codes "moderator"
xmpp_role Role.participant = codes "participant"
xmpp_role Role.visitor = codes "visitor"

-- The fields of irssi's NICK_REC that the code writes, and those of XMPP_NICK_REC.
pub record Nick : Type 0 where
  pub addr : ℕ
  pub nick : Str
  pub host : Str
  pub show : Presence
  pub status : Option Str
  pub affiliation : Affiliation
  pub role : Role
  pub prefixes : Str
  pub op : Bool
  pub halfop : Bool
  pub voice : Bool

-- `channel->nicks`: the chain at each key, empty where there is none.
abbrev pub Nicks : Type 0
Nicks = Str → List Nick

-- The signals that the code emits for a room, and its calls of code elsewhere.
pub data Call : Type 0 where
  nicklist_changed : Nick → Str → Call
  channel_topic_changed channel_mode_changed channel_joined channel_sync send_autocommands
        channel_destroy :
      Call
  message_topic : Str → Str → Call
  event_332 : Str → Call
  message_own_nick message_nick : Nick → Option Str → Call
  message_join : Str → Str → Call
  message_mode : Str → Affiliation → Role → Call
  disco_request send_join : Str → Call
  message_part : Str → Str → Option Str → Call
  message_kick : Str → Str → Str → Option Str → Call
  muc_error : Call
  muc_joinerror : ℤ → Call
  message_nick_in_use muc_destroyerror : Option Str → Call
  request_instant_room : Option Str → Call
  event_329 : Str → Call
  message_affiliation : Option Str → Option Str → Affiliation → Call
  message_admin_mode : Option Str → Affiliation → Role → Call
  message_own_action message_own_public : Str → Call
  message_room : Option Str → Call
  message_action message_public : Str → Str → Call

-- MUC_REC, with the fields of irssi's channel that the code uses.
pub record Channel : Type 0 where
  pub name : Str
  pub nick : Str
  pub mode : Str
  pub key : Option Str
  pub topic : Option Str
  pub topic_by : Option Str
  pub nicks : Nicks
  pub ownnick : Option ℕ
  pub next : ℕ
  pub joined : Bool
  pub names_got : Bool
  pub left : Bool
  pub kicked : Bool
  pub chanop : Bool
  pub calls : List Call

-- A write of one entry of the hash table.
unfoldable pub put : Str → List Nick → Nicks → Nicks
unfolding str_eq
put key chain t k = if str_eq k key then chain else t k

unfoldable pub at_nick : ℕ → Nick → Bool
at_nick a n = n.addr == a

-- What the code relies on of irssi's nick lists. `nick_key` is the equality of the hash table: two
-- names share a key where irssi's hash table takes them for the same.
pub record Irssi : Type 0 where
  pub nick_key : Str → Str
  pub nicklist_find : Nicks → Option Str → Option Nick
  pub nicklist_insert : Nicks → Nick → Nicks
  pub nicklist_remove : Nicks → Nick → Nicks
  pub nicklist_set_own : Nicks → Nick → Nicks
  pub nicklist_find_null : (t : Nicks) → nicklist_find t none ≡ none
  pub nicklist_find_empty :
      (t : Nicks) (name : Str) → t (nick_key name) ≡ [] → nicklist_find t (some name) ≡ none
  pub nicklist_find_first :
      (t : Nicks) (name : Str) (n : Nick) (l : List Nick)
      → t (nick_key name) ≡ n ∷ l
      → nicklist_find t (some name) ≡ some n
  pub nicklist_insert_lem :
      (t : Nicks) (n : Nick) (k : Str)
      → nicklist_insert t n k ≡ put (nick_key n.nick) (t (nick_key n.nick) ++ n ∷ []) t k
  pub nicklist_remove_lem :
      (t : Nicks) (n : Nick) (k : Str)
      → nicklist_remove t n k
        ≡ put (nick_key n.nick) (remove_first (at_nick n.addr) (t (nick_key n.nick))) t k
  pub nicklist_set_own_lem :
      (t : Nicks) (n : Nick) (k : Str)
      → nicklist_set_own t n k
        ≡ put (nick_key n.nick) (n ∷ remove_first (at_nick n.addr) (t (nick_key n.nick))) t k

-- `nick->f = v`, through the pointer.
unfoldable pub write_nick : ℕ → (Nick → Nick) → Nick → Nick
write_nick a f n = if n.addr == a then f n else n

unfoldable pub set_nick : ℕ → (Nick → Nick) → Nicks → Nicks
unfolding write_nick
set_nick a f t k = map (write_nick a f) (t k)
