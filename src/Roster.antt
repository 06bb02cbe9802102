-- ===== src/Roster.antt =====
-- src/core/rosters.h: the contacts of a server, by groups, and the resources of each contact.
--
-- A contact or group that the code holds by pointer has its address in the field `addr`; `next` is
-- the address that the next `g_new` returns. A signal that the code emits is kept in `emitted`.
pub mod Compare
pub mod Find
pub mod Store
pub mod Update
pub mod Presences
pub mod Handlers
mod Sample
mod Tests
use irssi_xmpp.Prelude.{ℕ, Bool, Option, List}
use irssi_xmpp.Prelude.Int.{ℤ}
use irssi_xmpp.Prelude.Str.{Str, codes}

-- XMPP_PRESENCE_*, in the order of the enumeration.
pub data Presence : Type 0 where
  unavailable error xa dnd away available chat online : Presence

-- The number of a constant.
abbrev pub rank : Presence → ℕ
rank Presence.unavailable = 0
rank Presence.error = 1
rank Presence.xa = 2
rank Presence.dnd = 3
rank Presence.away = 4
rank Presence.available = 5
rank Presence.chat = 6
rank Presence.online = 7

-- `xmpp_presence_show`
abbrev pub xmpp_presence_show : Presence → Str
xmpp_presence_show Presence.unavailable = codes "-"
xmpp_presence_show Presence.error = codes "X"
xmpp_presence_show Presence.xa = codes "xa"
xmpp_presence_show Presence.dnd = codes "dnd"
xmpp_presence_show Presence.away = codes "away"
xmpp_presence_show Presence.available = codes "+"
xmpp_presence_show Presence.chat = codes "chat"
xmpp_presence_show Presence.online = codes "online"

-- XMPP_SUBSCRIPTION_*
pub data Subscription : Type 0 where
  remove nothing to from both : Subscription

-- `xmpp_subscription`
abbrev pub xmpp_subscription : Subscription → Str
xmpp_subscription Subscription.remove = codes "remove"
xmpp_subscription Subscription.nothing = codes "none"
xmpp_subscription Subscription.to = codes "to"
xmpp_subscription Subscription.from = codes "from"
xmpp_subscription Subscription.both = codes "both"

-- The name of a resource is never NULL: `create_resource` sets it, and nothing writes it later.
pub record Resource : Type 0 where
  pub name : Str
  pub priority : ℤ
  pub show : Presence
  pub status : Option Str
  pub composing_id : Option Str

pub record User : Type 0 where
  pub addr : ℕ
  pub jid : Str
  pub name : Option Str
  pub subscription : Subscription
  pub error : Bool
  pub resources : List Resource

pub record Group : Type 0 where
  pub addr : ℕ
  pub name : Option Str
  pub users : List User

-- The signals that the roster emits.
pub data Signal : Type 0 where
  presence_online : Str → Str → Option Str → Signal
  presence_offline : Str → Str → Option Str → Signal
  presence_changed : Str → Presence → Option Str → Signal
  presence_subscribe : Str → Option Str → Signal
  presence_unsubscribe presence_subscribed presence_unsubscribed : Str → Signal

-- The fields of a server that the roster uses.
pub record Server : Type 0 where
  pub jid : Str
  pub resource : Str
  pub roster : List Group
  pub my_resources : List Resource
  pub next : ℕ
  pub emitted : List Signal
