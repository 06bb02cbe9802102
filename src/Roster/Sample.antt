-- ===== src/Roster/Sample.antt =====
-- A server with two contacts in one group, for the tests.
use irssi_xmpp.Roster.Find.{find_user_func}
use irssi_xmpp.Roster.Update.Unique.{HasUniqueJids}
use irssi_xmpp.Prelude.{arith}
use irssi_xmpp.Prelude.Str.{str_eq_iff}
use irssi_xmpp.Prelude.{◌≡◌, refl, true, false, none, some, [], ◌∷◌, arith}
use irssi_xmpp.Prelude.Int.{pos}
use irssi_xmpp.Prelude.Str.{codes}
use irssi_xmpp.Glib.{concrete}
use irssi_xmpp.Roster.{Presence, Subscription, Resource, User, Group, Server}
use irssi_xmpp.Roster.Find.{rosters_find_user}
use irssi_xmpp.Roster.Store.{at_user, at_group}
use irssi_xmpp.Roster.Update.{subscription_of}
use irssi_xmpp.Roster.Update.Valid.{IsWellFormed}

abbrev pub home : Resource
home = record {
  name = codes "home";
  priority = pos 5;
  show = Presence.available;
  status = none;
  composing_id = none;
}

abbrev pub ann : User
ann = record {
  addr = 1;
  jid = codes "ann@x";
  name = some (codes "Ann");
  subscription = Subscription.both;
  error = false;
  resources = home ∷ [];
}

abbrev pub bob : User
bob = record {
  addr = 2;
  jid = codes "bob@x";
  name = none;
  subscription = Subscription.to;
  error = true;
  resources = [];
}

abbrev pub friends : Group
friends = record { addr = 3; name = some (codes "friends"); users = ann ∷ bob ∷ [] }

abbrev pub server : Server
server = record {
  jid = codes "me@x";
  resource = codes "here";
  roster = friends ∷ [];
  my_resources = [];
  next = 4;
  emitted = [];
}

pub server-IsWellFormed : IsWellFormed server
unfolding at_user at_group
server-IsWellFormed = record {
  users_once = λ a. ground arith;
  groups_once = λ a. ground arith;
  users_fresh = λ a h. ground arith;
  groups_fresh = λ a h. ground arith;
}

pub find_ann : rosters_find_user server.roster (codes "ann@x") ≡ some (friends, ann)
unfolding rosters_find_user
find_ann = refl

pub find_cat : rosters_find_user server.roster (codes "cat@x") ≡ none
unfolding rosters_find_user
find_cat = refl

pub find_cat_phone : rosters_find_user server.roster (codes "cat@x/phone") ≡ none
unfolding rosters_find_user
find_cat_phone = refl

pub reads_to : subscription_of concrete (some (codes "TO")) ≡ some Subscription.to
unfolding subscription_of concrete
reads_to = refl

pub reads_remove : subscription_of concrete (some (codes "remove")) ≡ some Subscription.remove
unfolding subscription_of concrete
reads_remove = refl

pub server-HasUniqueJids : HasUniqueJids server
unfolding find_user_func
server-HasUniqueJids j = ground (arith, str_eq_iff (codes "ann@x") j, str_eq_iff (codes "bob@x") j)
