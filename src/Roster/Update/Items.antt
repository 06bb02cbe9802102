-- ===== src/Roster/Update/Items.antt =====
-- `update_user` as a change of the contacts, each counted with the name of its group: the roster up
-- to the order of groups and contacts.
use irssi_xmpp.Prelude.{
  ℕ, ◌+◌, ◌≡◌, ◌≢◌, refl, ap, Bool, Option, none, some, List, bit, arith, Option-cases, inl, inr,
}
use irssi_xmpp.Prelude.Str.{Str}
use irssi_xmpp.Glib.{Glib}
use irssi_xmpp.Roster.{User, Group, Server, Subscription}
use irssi_xmpp.Roster.Find.{rosters_find_user}
use irssi_xmpp.Roster.Update.{
  create_user, find_or_add_group, add_user, refresh_user, subscription_of, apply_subscription,
  update_subscription, update_user,
}
use irssi_xmpp.Roster.Update.Valid.{IsWellFormed}
use irssi_xmpp.Roster.Update.Contacts.{
  Becomes, Becomes-trans, refresh_user-Becomes, Stands-found, how_many,
}
use irssi_xmpp.Roster.Update.Ends.{
  apply_subscription-Becomes, apply_subscription_renamed, removed-tally, removed-IsWellFormed,
  added, add_user-Stands, fresh,
}

module _ (glib : Glib) (s : Server) (jid : Str) (subscription name group_name : Option Str)
    (v : IsWellFormed s) where
  abbrev after : List Group
  after = (update_user glib s jid subscription name group_name).roster

  module _ (g : Group) (u : User) (found : rosters_find_user s.roster jid ≡ some (g, u)) where
    abbrev renamed : User
    renamed = record u { name = name }

    abbrev refreshed : Server × Group
    refreshed = refresh_user glib s u g name group_name

    refreshing : Becomes s refreshed.0 g.addr g.name u refreshed.1.addr group_name renamed
    refreshing = refresh_user-Becomes glib s g u name group_name (Stands-found s jid g u v found)

    known :
        (t : Option Subscription)
        → subscription_of glib subscription ≡ t
        → update_user glib s jid subscription name group_name
          ≡ apply_subscription refreshed.0 renamed refreshed.1 t
    unfolding update_user update_subscription
    known t e =
        rw (found, update_user) (rw e (apply_subscription_renamed refreshed.0 u refreshed.1 name t))

    -- In a well-formed roster, an item for a contact that is there, with a subscription that is
    -- no removal, exchanges it for one with the name and subscription of the item, in the group
    -- of the item. Nothing else changes, whatever had to be moved, sorted or created.
    pub update_user_known :
        (t : Subscription)
        → subscription_of glib subscription ≡ some t
        → t ≢ Subscription.remove
        → (p : Option Str → User → Bool)
        → how_many p after + bit (p g.name u)
          ≡ how_many p s.roster + bit (p group_name (record u { name = name; subscription = t }))
    update_user_known t reads keeps p = omega (
      arith,
      ap (λ (x : Server). how_many p x.roster) (known (some t) reads),
      (Becomes-trans refreshing (
            apply_subscription-Becomes refreshed.0 renamed refreshed.1 group_name t keeps
              refreshing.stands)).exchanged.swap
          (λ ga n w. bit (p n w)),
    )

    -- In a well-formed roster, an item that removes a contact that is there takes out that
    -- contact, once, and no other.
    pub update_user_removed :
        subscription_of glib subscription ≡ some Subscription.remove
        → (p : Option Str → User → Bool) → how_many p after + bit (p g.name u) ≡ how_many p s.roster
    update_user_removed reads p = omega (
      arith,
      ap (λ (x : Server). how_many p x.roster) (known (some Subscription.remove) reads),
      removed-tally (λ ga n w. bit (p n w)) refreshed.0 renamed refreshed.1 group_name
          refreshing.stands,
      refreshing.exchanged.swap (λ ga n w. bit (p n w)),
    )

    -- A subscription that the code does not know leaves that of the contact.
    pub update_user_unread :
        subscription_of glib subscription ≡ none
        → (p : Option Str → User → Bool)
        → how_many p after + bit (p g.name u)
          ≡ how_many p s.roster + bit (p group_name (record u { name = name }))
    unfolding apply_subscription
    update_user_unread reads p = omega (
      arith,
      ap (λ (x : Server). how_many p x.roster) (known none reads),
      refreshing.exchanged.swap (λ ga n w. bit (p n w)),
    )

    known-IsWellFormed :
        (t : Option Subscription)
        → subscription_of glib subscription ≡ t
        → IsWellFormed (update_user glib s jid subscription name group_name)
    known-IsWellFormed none e =
        rw (known none e) (unfold apply_subscription in refreshing.stands.valid)
    known-IsWellFormed (some Subscription.remove) e =
        rw (known (some Subscription.remove) e)
          (removed-IsWellFormed refreshed.0 renamed refreshed.1 group_name refreshing.stands)
    known-IsWellFormed (some t) e =
        rw (known (some t) e)
          (apply_subscription-Becomes refreshed.0 renamed refreshed.1 group_name t (cc)
            refreshing.stands).stands.valid

  module _ (absent : rosters_find_user s.roster jid ≡ none) where
    abbrev there : Server
    there = (add_user glib s jid name group_name).0

    abbrev group : Group
    group = (find_or_add_group glib s group_name).1

    abbrev newcomer : User
    newcomer = fresh glib s jid name group_name v

    unknown :
        (t : Option Subscription)
        → subscription_of glib subscription ≡ t
        → update_user glib s jid subscription name group_name
          ≡ apply_subscription there newcomer group t
    unfolding update_user update_subscription add_user
    unknown t e = rw (absent, update_user) (rw e)

    -- In a well-formed roster, an item for a contact that is not there, with a subscription that
    -- is no removal, adds one contact with the JID, name and subscription of the item to the
    -- group of the item, and changes no other.
    pub update_user_new :
        (t : Subscription)
        → subscription_of glib subscription ≡ some t
        → t ≢ Subscription.remove
        → (a : ℕ) × ((p : Option Str → User → Bool)
            → how_many p after
              ≡ how_many p s.roster
                + bit (p group_name (record (create_user a jid name) { subscription = t })))
    update_user_new t reads keeps = (
      (find_or_add_group glib s group_name).0.next,
      λ p. omega (
        arith,
        ap (λ (x : Server). how_many p x.roster) (unknown (some t) reads),
        (apply_subscription-Becomes there newcomer group group_name t keeps
              (add_user-Stands glib s jid name group_name v)).exchanged.swap
            (λ ga n w. bit (p n w)),
        added glib s jid name group_name v (λ ga n w. bit (p n w)),
      ),
    )

    -- In a well-formed roster, an item that removes a contact that is not there changes no
    -- contact.
    pub update_user_removed_absent :
        subscription_of glib subscription ≡ some Subscription.remove
        → (p : Option Str → User → Bool) → how_many p after ≡ how_many p s.roster
    update_user_removed_absent reads p = omega (
      arith,
      ap (λ (x : Server). how_many p x.roster) (unknown (some Subscription.remove) reads),
      removed-tally (λ ga n w. bit (p n w)) there newcomer group group_name
          (add_user-Stands glib s jid name group_name v),
      added glib s jid name group_name v (λ ga n w. bit (p n w)),
    )

    pub update_user_new_unread :
        subscription_of glib subscription ≡ none
        → (a : ℕ) × ((p : Option Str → User → Bool)
            → how_many p after ≡ how_many p s.roster + bit (p group_name (create_user a jid name)))
    unfolding apply_subscription
    update_user_new_unread reads = (
      (find_or_add_group glib s group_name).0.next,
      λ p. omega (
        arith,
        ap (λ (x : Server). how_many p x.roster) (unknown none reads),
        added glib s jid name group_name v (λ ga n w. bit (p n w)),
      ),
    )

    unknown-IsWellFormed :
        (t : Option Subscription)
        → subscription_of glib subscription ≡ t
        → IsWellFormed (update_user glib s jid subscription name group_name)
    unknown-IsWellFormed none e =
        rw (unknown none e)
          (unfold apply_subscription in (add_user-Stands glib s jid name group_name v).valid)
    unknown-IsWellFormed (some Subscription.remove) e = rw (unknown (some Subscription.remove) e) (
        removed-IsWellFormed there newcomer group group_name
          (add_user-Stands glib s jid name group_name v))
    unknown-IsWellFormed (some t) e =
        rw (unknown (some t) e)
          (apply_subscription-Becomes there newcomer group group_name t (cc)
            (add_user-Stands glib s jid name group_name v)).stands.valid

  -- Whatever an item says, it keeps a roster well formed: no two groups and no two contacts share
  -- an address, and the next one stays unused.
  pub update_user-IsWellFormed : IsWellFormed (update_user glib s jid subscription name group_name)
  update_user-IsWellFormed = elim (Option-cases (rosters_find_user s.roster jid)) [
    | inl e ↦ unknown-IsWellFormed e (subscription_of glib subscription) refl
    | inr ((g, u), e) ↦ known-IsWellFormed g u e (subscription_of glib subscription) refl
  ]
