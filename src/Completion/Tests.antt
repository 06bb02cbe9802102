-- ===== src/Completion/Tests.antt =====
-- A roster with contacts on and off line.
use mathlib.Core.List.{reverse}
use irssi_xmpp.Prelude.{
  ◌≡◌, refl, true, false, none, some, List, [], ◌∷◌, ◌++◌, count, sum_of, ◌&&◌,
}
use irssi_xmpp.Prelude.Int.{pos}
use irssi_xmpp.Prelude.Str.{Str, codes, after, str_eq}
use irssi_xmpp.Glib.{concrete}
use irssi_xmpp.Tools.{xmpp_extract_resource}
use irssi_xmpp.Roster.{Resource, User, Group, Presence, Subscription}
use irssi_xmpp.Completion.{starts, get_jids, get_nicks}
use irssi_xmpp.Completion.Jids.{count-get_jids}
use irssi_xmpp.Completion.Nicks.{offers, get_nicks_reversed}

abbrev phone : Resource
phone = record {
  name = codes "phone";
  priority = pos 0;
  show = Presence.available;
  status = none;
  composing_id = none;
}

abbrev contact : Str → List Resource → User
contact jid resources = record {
  addr = 0;
  jid = jid;
  name = some (codes "An");
  subscription = Subscription.both;
  error = false;
  resources = resources;
}

abbrev roster : List Group
roster =
    record {
      addr = 1;
      name = none;
      users =
          contact (codes "Ann@x") []
          ∷ contact (codes "anna@x") (phone ∷ [])
          ∷ contact (codes "bob@x") (phone ∷ [])
          ∷ [];
    }
    ∷ []

count-get_jids_example :
    count (str_eq (codes "anna@x")) (get_jids concrete roster (codes "an"))
    ≡ sum_of
        (λ g.
          count (λ u. starts concrete u.jid (codes "an") && str_eq (codes "anna@x") u.jid) g.users)
        roster
count-get_jids_example = count-get_jids concrete (codes "an") roster (str_eq (codes "anna@x"))

get_nicks_reversed_example :
    get_nicks concrete roster (codes "an") false true
    ≡ reverse (
        offers concrete (codes "an") false true true roster
        ++ offers concrete (codes "an") false true false roster)
unfolding xmpp_extract_resource after
get_nicks_reversed_example = get_nicks_reversed concrete (codes "an") false true roster refl
