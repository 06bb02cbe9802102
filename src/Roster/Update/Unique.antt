-- ===== src/Roster/Update/Unique.antt =====
-- How often a JID stands in the roster.
use irssi_xmpp.Prelude.{
  ◌+◌, ◌≤◌, ◌≡◌, ◌≢◌, refl, ap, ◌∙◌, Bool, true, false, Option, none, some, List, [], ◌∷◌, bit,
  arith, Option-cases, Bool-cases, inl, inr, find_first-none, find_first-absent,
}
use irssi_xmpp.Prelude.Str.{
  Str, str_eq, str_eq_iff, str_eq_refl, has, before, before-absent, has-before,
}
use irssi_xmpp.Glib.{Glib}
use irssi_xmpp.Roster.{User, Group, Server, Subscription}
use irssi_xmpp.Roster.Find.{find_user_func, find_in_groups, rosters_find_user}
use irssi_xmpp.Roster.Update.{create_user, subscription_of, update_user}
use irssi_xmpp.Roster.Update.Valid.{IsWellFormed}
use irssi_xmpp.Roster.Update.Contacts.{how_many}
use irssi_xmpp.Roster.Update.Items.{
  update_user_known, update_user_removed, update_user_unread, update_user_new,
  update_user_removed_absent, update_user_new_unread,
}

abbrev pub with_jid : Str → Option Str → User → Bool
with_jid j n u = find_user_func j u

-- No JID stands in the roster twice.
abbrev pub HasUniqueJids : Server → Type 0
HasUniqueJids s = (j : Str) → how_many (with_jid j) s.roster ≤ 1

absent_none :
    (p : User → Bool) (r : List Group) → find_in_groups p r ≡ none → how_many (λ n u. p u) r ≡ 0
unfolding find_in_groups
absent_none p [] h = refl
absent_none p (g ∷ r) h = ground (arith, absent_none p r, find_first-none p g.users)

absent_found :
    (p : User → Bool) (r : List Group) → how_many (λ n u. p u) r ≡ 0 → find_in_groups p r ≡ none
unfolding find_in_groups
absent_found p [] h = refl
absent_found p (g ∷ r) h = ground (arith, absent_found p r, find_first-absent p g.users)

module _ (glib : Glib) (s : Server) (jid : Str) (subscription name group_name : Option Str)
    (v : IsWellFormed s) where
  abbrev after : List Group
  after = (update_user glib s jid subscription name group_name).roster

  -- An item for a contact that is there adds no contact with any JID.
  known_jids :
      (g : Group) (u : User)
      → rosters_find_user s.roster jid ≡ some (g, u)
      → (t : Option Subscription) → subscription_of glib subscription ≡ t
      → (j : Str) → how_many (with_jid j) after ≤ how_many (with_jid j) s.roster
  unfolding find_user_func
  known_jids g u found none e j =
      omega (
        arith,
        update_user_unread glib s jid subscription name group_name v g u found e (with_jid j),
      )
  known_jids g u found (some Subscription.remove) e j = omega (
    arith,
    update_user_removed glib s jid subscription name group_name v g u found e (with_jid j),
  )
  known_jids g u found (some t) e j = omega (
    arith,
    update_user_known glib s jid subscription name group_name v g u found t e (cc) (with_jid j),
  )

  -- Any other adds one contact at most, with the JID of the item.
  new_jids :
      rosters_find_user s.roster jid ≡ none
      → (t : Option Subscription) → subscription_of glib subscription ≡ t
      → (j : Str)
      → how_many (with_jid j) after ≤ how_many (with_jid j) s.roster + bit (str_eq jid j)
  unfolding find_user_func create_user
  new_jids absent none e j = omega (
    arith,
    (update_user_new_unread glib s jid subscription name group_name v absent e).1 (with_jid j),
  )
  new_jids absent (some Subscription.remove) e j = omega (
    arith,
    update_user_removed_absent glib s jid subscription name group_name v absent e (with_jid j),
  )
  new_jids absent (some t) e j = omega (
    arith,
    (update_user_new glib s jid subscription name group_name v absent t e (cc)).1 (with_jid j),
  )

  none-before :
      rosters_find_user s.roster jid ≡ none → how_many (with_jid (before b'/' jid)) s.roster ≡ 0
  unfolding rosters_find_user
  none-before absent = absent_none (find_user_func (before b'/' jid)) s.roster absent

  -- In a well-formed roster where no contact has a JID twice, an item with a bare JID keeps it
  -- so.
  pub update_user-HasUniqueJids :
      has b'/' jid ≡ false
      → HasUniqueJids s
      → HasUniqueJids (update_user glib s jid subscription name group_name)
  update_user-HasUniqueJids bare unique j = elim (Option-cases (rosters_find_user s.roster jid)) [
    | inr ((g, u), e) ↦
        omega (arith, known_jids g u e (subscription_of glib subscription) refl j, unique j)
    | inl e ↦ elim (Bool-cases (str_eq jid j)) [
      | inl same ↦ omega (
        arith,
        new_jids e (subscription_of glib subscription) refl j,
        ap bit same,
        ap (λ (k : Str). how_many (with_jid k) s.roster)
            (before-absent b'/' jid bare ∙ (str_eq_iff jid j).0 same),
        none-before e,
      )
      | inr other ↦
          omega
            (arith, new_jids e (subscription_of glib subscription) refl j, ap bit other, unique j)
    ]
  ]

  -- In a well-formed roster without a contact of its bare JID, an item whose JID has a resource,
  -- and whose subscription is no removal, is not found afterwards, and adds one more contact with
  -- the full JID.
  pub full_jid_items_pile_up :
      (t : Subscription)
      → has b'/' jid ≡ true
      → rosters_find_user s.roster jid ≡ none
      → subscription_of glib subscription ≡ some t
      → t ≢ Subscription.remove
      → (rosters_find_user after jid ≡ none)
        × (how_many (with_jid jid) after ≡ how_many (with_jid jid) s.roster + 1)
  unfolding rosters_find_user find_user_func create_user
  full_jid_items_pile_up t full absent reads keeps = (
    absent_found (find_user_func (before b'/' jid)) after
        (omega (arith, grown (with_jid (before b'/' jid)), none-before absent, ap bit not_bare)),
    omega (arith, grown (with_jid jid), ap bit (str_eq_refl jid)),
  )
    where
      grown :
          (p : Option Str → User → Bool)
          → how_many p after
            ≡ how_many p s.roster
              + bit (
                  p group_name
                    (record (create_user
                      (update_user_new glib s jid subscription name group_name v absent t reads
                        keeps).0
                      jid
                      name) { subscription = t }))
      grown = (update_user_new glib s jid subscription name group_name v absent t reads keeps).1

      not_bare : str_eq jid (before b'/' jid) ≡ false
      not_bare = elim (Bool-cases (str_eq jid (before b'/' jid))) [
        | inr e ↦ e
        | inl e ↦
            cc (full, has-before b'/' jid, ap (has b'/') ((str_eq_iff jid (before b'/' jid)).0 e))
      ]
