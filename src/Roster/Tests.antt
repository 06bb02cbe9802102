-- ===== src/Roster/Tests.antt =====
-- The roster on concrete data, and each theorem at an input that meets its hypotheses.
use irssi_xmpp.Prelude.{ℕ, ◌+◌, ◌≡◌, refl, Bool, Option, none, some, bit}
use irssi_xmpp.Prelude.Str.{Str, codes, opt_eq, has}
use irssi_xmpp.Glib.{concrete}
use irssi_xmpp.Roster.{Subscription, User}
use irssi_xmpp.Roster.Find.{rosters_find_user}
use irssi_xmpp.Roster.Sample.{
  ann, friends, server, server-IsWellFormed, find_ann, find_cat, find_cat_phone, reads_to,
  reads_remove,
}
use irssi_xmpp.Roster.Update.{create_user, update_user}
use irssi_xmpp.Roster.Update.Contacts.{how_many}
use irssi_xmpp.Roster.Update.Items.{update_user_known, update_user_removed, update_user_new}
use irssi_xmpp.Roster.Update.Unique.{with_jid, full_jid_items_pile_up}

abbrev in_work : Option Str → User → Bool
in_work n u = opt_eq n (some (codes "work"))

update_user_known_example :
    how_many in_work
        (update_user concrete server
          (codes "ann@x")
          (some (codes "TO"))
          none
          (some (codes "work"))).roster
      + bit (in_work friends.name ann)
    ≡ how_many in_work server.roster
      + bit (
          in_work
            (some (codes "work"))
            (record ann { name = none; subscription = Subscription.to }))
update_user_known_example =
    update_user_known concrete server (codes "ann@x") (some (codes "TO")) none (some (codes "work"))
      server-IsWellFormed friends ann find_ann Subscription.to reads_to (λ e. cc) in_work

update_user_removed_example :
    how_many
        (with_jid (codes "ann@x"))
        (update_user concrete server (codes "ann@x") (some (codes "remove")) none none).roster
      + bit (with_jid (codes "ann@x") friends.name ann)
    ≡ how_many (with_jid (codes "ann@x")) server.roster
update_user_removed_example =
    update_user_removed concrete server (codes "ann@x") (some (codes "remove")) none none
      server-IsWellFormed friends ann find_ann reads_remove (with_jid (codes "ann@x"))

update_user_new_example :
    (a : ℕ) × ((p : Option Str → User → Bool)
      → how_many p
          (update_user concrete server (codes "cat@x") (some (codes "TO")) none none).roster
        ≡ how_many p server.roster
          + bit (
              p none
                (record (create_user a (codes "cat@x") none) { subscription = Subscription.to })))
update_user_new_example =
    update_user_new concrete server (codes "cat@x") (some (codes "TO")) none none
      server-IsWellFormed find_cat Subscription.to reads_to (λ e. cc)

full_jid_items_pile_up_example :
    (rosters_find_user
        (update_user concrete server (codes "cat@x/phone") (some (codes "TO")) none none).roster
        (codes "cat@x/phone")
      ≡ none)
    × (how_many
          (with_jid (codes "cat@x/phone"))
          (update_user concrete server (codes "cat@x/phone") (some (codes "TO")) none none).roster
        ≡ how_many (with_jid (codes "cat@x/phone")) server.roster + 1)
unfolding has
full_jid_items_pile_up_example =
    full_jid_items_pile_up concrete server (codes "cat@x/phone") (some (codes "TO")) none none
      server-IsWellFormed Subscription.to refl find_cat_phone reads_to (λ e. cc)
