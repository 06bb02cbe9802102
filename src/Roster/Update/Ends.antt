-- ===== src/Roster/Update/Ends.antt =====
-- The two ends of `update_user`: a contact that is added, and what its subscription makes of it.
use irssi_xmpp.Prelude.{
  ℕ, ◌+◌, ◌≤◌, ◌≡◌, ◌≢◌, refl, true, false, Option, none, some, List, [], ◌∷◌, ◌++◌, remove_first,
  find_first, sum_of, count, bit, arith, Option-cases, inl, inr, sum_of-remove_first,
}
use irssi_xmpp.Prelude.Str.{Str}
use irssi_xmpp.Glib.{Glib}
use irssi_xmpp.Roster.{User, Group, Server, Subscription}
use irssi_xmpp.Roster.Store.{at_user, at_group, set_users}
use irssi_xmpp.Roster.Store.Count.{Weight, tally, weight_at}
use irssi_xmpp.Roster.Store.Writes.{groups-set_users, tally-append_held, tally-remove_held}
use irssi_xmpp.Roster.Update.{
  create_user, find_or_add_group, add_user, apply_subscription, drop_if_empty,
}
use irssi_xmpp.Roster.Update.Valid.{IsWellFormed}
use irssi_xmpp.Roster.Update.Groups.{Grouped, find_or_add_group-Grouped}
use irssi_xmpp.Roster.Update.Steps.{Stands, IsWellFormed-within, once-set_users}
use irssi_xmpp.Roster.Update.Contacts.{Becomes, set_user-Becomes}

pub apply_subscription-Becomes :
    (s : Server) (u : User) (g : Group) (n : Option Str) (t : Subscription)
    → t ≢ Subscription.remove
    → Stands s g.addr n u
    → Becomes s
        (apply_subscription s u g (some t))
        g.addr
        n
        u
        g.addr
        n
        (record u { subscription = t })
unfolding apply_subscription
apply_subscription-Becomes s u g n Subscription.remove h st = absurd (h refl)
apply_subscription-Becomes s u g n t h st =
    set_user-Becomes s g.addr n u st (λ v. record v { subscription = t }) refl

-- Only the address of the contact matters.
pub apply_subscription_renamed :
    (s : Server) (u : User) (g : Group) (name : Option Str) (t : Option Subscription)
    → apply_subscription s u g t ≡ apply_subscription s (record u { name = name }) g t
unfolding apply_subscription
apply_subscription_renamed s u g name none = refl
apply_subscription_renamed s u g name (some Subscription.remove) = refl
apply_subscription_renamed s u g name (some _) = refl

no_users :
    (w : Weight) (g : Group)
    → (elim g.users [ [] ↦ true | u ∷ us ↦ false ]) ≡ true
    → sum_of (w g.addr g.name) g.users ≡ 0
no_users w g h = ground arith

-- A group without contacts adds nothing to a sum.
tally-drop_if_empty :
    (w : Weight) (a : ℕ) (r : List Group) → tally w (drop_if_empty a r) ≡ tally w r
unfolding drop_if_empty
tally-drop_if_empty w a r = elim (Option-cases (find_first (at_group a) r)) [
  | inl e ↦ rw (e, drop_if_empty)
  | inr (g, e) ↦
      rw (e, drop_if_empty)
        (ground (
          arith,
          no_users w g,
          sum_of-remove_first (λ x. sum_of (w x.addr x.name) x.users) (at_group a) r g e,
        ))
]

count-drop_if_empty :
    (a b : ℕ) (r : List Group) → count (at_group b) (drop_if_empty a r) ≤ count (at_group b) r
unfolding drop_if_empty
count-drop_if_empty a b r = elim (Option-cases (find_first (at_group a) r)) [
  | inl e ↦ rw (e, drop_if_empty) (omega arith)
  | inr (g, e) ↦
      rw (e, drop_if_empty)
        (ground (arith, sum_of-remove_first (λ x. bit (at_group b x)) (at_group a) r g e))
]

-- The contact leaves, and its group too if that is then empty.
pub removed-tally :
    (w : Weight) (s : Server) (u : User) (g : Group) (n : Option Str)
    → Stands s g.addr n u
    → tally w (apply_subscription s u g (some Subscription.remove)).roster + w g.addr n u
      ≡ tally w s.roster
unfolding apply_subscription
removed-tally w s u g n st = omega (
  arith,
  tally-drop_if_empty w g.addr (set_users g.addr (remove_first (at_user u.addr)) s.roster),
  tally-remove_held w s.roster g.addr n u st.held (st.valid.users_once u.addr),
)

pub removed-IsWellFormed :
    (s : Server) (u : User) (g : Group) (n : Option Str)
    → Stands s g.addr n u
    → IsWellFormed (apply_subscription s u g (some Subscription.remove))
removed-IsWellFormed s u g n st =
    IsWellFormed-within s (apply_subscription s u g (some Subscription.remove)) st.valid
      (unfold apply_subscription in omega arith)
      (λ a. omega (arith, removed-tally (weight_at a) s u g n st))
      (λ a.
        unfold apply_subscription in
        omega (
          arith,
          count-drop_if_empty g.addr a (set_users g.addr (remove_first (at_user u.addr)) s.roster),
          once-set_users a g.addr (remove_first (at_user u.addr)) s.roster,
        ))

module _ (glib : Glib) (s : Server) (jid : Str) (name group_name : Option Str)
    (v : IsWellFormed s) where
  grouped :
      Grouped s
        (find_or_add_group glib s group_name).0
        (find_or_add_group glib s group_name).1
        group_name
  grouped = find_or_add_group-Grouped glib s group_name v

  abbrev pub fresh : User
  fresh = create_user (find_or_add_group glib s group_name).0.next jid name

  pub added :
      (w : Weight)
      → tally w (add_user glib s jid name group_name).0.roster
        ≡ tally w s.roster + w (find_or_add_group glib s group_name).1.addr group_name fresh
  unfolding add_user
  added w = omega (
    arith,
    tally-append_held w (find_or_add_group glib s group_name).0.roster
        (find_or_add_group glib s group_name).1.addr group_name fresh grouped.has
        (grouped.valid.groups_once (find_or_add_group glib s group_name).1.addr),
    grouped.same w,
  )

  abbrev appending : List User → List User
  appending us = us ++ fresh ∷ []

  -- The new contact stands in the group asked for, with the address and fields of `create_user`.
  pub add_user-Stands :
      Stands
        (add_user glib s jid name group_name).0
        (find_or_add_group glib s group_name).1.addr
        group_name
        fresh
  unfolding add_user create_user at_user
  add_user-Stands = record {
    held = record { weighs = λ w. omega (arith, added w) };
    group = record {
      weighs = λ w. omega (
        arith,
        grouped.has.weighs w,
        groups-set_users w (find_or_add_group glib s group_name).1.addr appending
            (find_or_add_group glib s group_name).0.roster,
      );
    };
    valid = record {
      users_once = λ a. ground (
        arith,
        added (weight_at a),
        grouped.same (weight_at a),
        grouped.valid.users_once a,
        grouped.valid.users_fresh a,
      );
      groups_once = λ a. omega (
        arith,
        once-set_users a (find_or_add_group glib s group_name).1.addr appending
            (find_or_add_group glib s group_name).0.roster,
        grouped.valid.groups_once a,
      );
      users_fresh = λ a l.
          ground
            (arith, added (weight_at a), grouped.same (weight_at a), grouped.valid.users_fresh a);
      groups_fresh = λ a l. omega (
        arith,
        once-set_users a (find_or_add_group glib s group_name).1.addr appending
            (find_or_add_group glib s group_name).0.roster,
        grouped.valid.groups_fresh a (omega arith),
      );
    };
  }
