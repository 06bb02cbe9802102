-- ===== src/Roster/Update/Steps.antt =====
-- The steps that `update_user` is made of, each as an exchange of one contact for its new value.
use irssi_xmpp.Prelude.{
  ℕ, ◌+◌, ◌≤◌, ◌≡◌, ◌∙◌, Option, List, [], ◌∷◌, ◌++◌, remove_first, count, bit, arith, ◌==◌,
}
use irssi_xmpp.Prelude.Str.{Str}
use irssi_xmpp.Glib.{Glib, sum_of-slist_sort}
use irssi_xmpp.Roster.{User, Group, Server}
use irssi_xmpp.Roster.Compare.{func_sort_user}
use irssi_xmpp.Roster.Store.{at_user, at_group, set_user, set_users}
use irssi_xmpp.Roster.Store.Count.{Weight, tally, weight_at, Holds, HasGroup}
use irssi_xmpp.Roster.Store.Writes.{
  groups-set_user, groups-set_users, tally-set_users_same, tally-append_held, tally-remove_held,
}
use irssi_xmpp.Roster.Update.{find_or_add_group, move_user, sort_group}
use irssi_xmpp.Roster.Update.Valid.{group_sum, IsWellFormed}
use irssi_xmpp.Roster.Update.Groups.{Grouped, find_or_add_group-Grouped}

-- Contact u of group (ga, n) is exchanged for u' in group (ga', n'), and nothing else changes.
pub record Exchanged (r r' : List Group) (ga : ℕ) (n : Option Str) (u : User) (ga' : ℕ)
    (n' : Option Str) (u' : User) : Type 0 where
  pub swap : (w : Weight) → tally w r' + w ga n u ≡ tally w r + w ga' n' u'
  pub keeps : (w : ℕ → Option Str → ℕ) → group_sum w r ≤ group_sum w r'

-- A contact that stands in the roster of a server with a sound memory.
pub record Stands (s : Server) (ga : ℕ) (n : Option Str) (u : User) : Type 0 where
  pub held : Holds s.roster ga n u
  pub group : HasGroup s.roster ga n
  pub valid : IsWellFormed s

pub Stands-Exchanged :
    {s s' : Server} {ga ga' : ℕ} {n n' : Option Str} {u u' : User}
    → Stands s ga n u
    → Exchanged s.roster s'.roster ga n u ga' n' u'
    → HasGroup s'.roster ga' n'
    → IsWellFormed s'
    → Stands s' ga' n' u'
Stands-Exchanged st ex has v = record {
  held = record { weighs = λ w. omega (arith, ex.swap w, st.held.weighs w) };
  group = has;
  valid = v;
}

-- What adds no address keeps a memory sound.
pub IsWellFormed-within :
    (s s' : Server)
    → IsWellFormed s
    → s.next ≤ s'.next
    → ((a : ℕ) → tally (weight_at a) s'.roster ≤ tally (weight_at a) s.roster)
    → ((a : ℕ) → count (at_group a) s'.roster ≤ count (at_group a) s.roster)
    → IsWellFormed s'
IsWellFormed-within s s' v later users groups = record {
  users_once = λ a. omega (arith, users a, v.users_once a);
  groups_once = λ a. omega (arith, groups a, v.groups_once a);
  users_fresh = λ a l. omega (arith, users a, v.users_fresh a (omega arith));
  groups_fresh = λ a l. omega (arith, groups a, v.groups_fresh a (omega arith));
}

pub once-set_users :
    (a b : ℕ) (f : List User → List User) (r : List Group)
    → count (at_group a) (set_users b f r) ≡ count (at_group a) r
unfolding at_group
once-set_users a b f r = groups-set_users (λ ga n. bit (ga == a)) b f r

pub once-set_user :
    (a b : ℕ) (f : User → User) (r : List Group)
    → count (at_group a) (set_user b f r) ≡ count (at_group a) r
unfolding at_group
once-set_user a b f r = groups-set_user (λ ga n. bit (ga == a)) b f r

module _ (glib : Glib) where
  pub tally-sort_group :
      (w : Weight) (a : ℕ) (r : List Group) → tally w (sort_group glib a r) ≡ tally w r
  unfolding sort_group
  tally-sort_group w a r =
      tally-set_users_same w a (glib.slist_sort func_sort_user) r
        (λ v us. sum_of-slist_sort glib v func_sort_user us)

  pub groups-sort_group :
      (w : ℕ → Option Str → ℕ) (a : ℕ) (r : List Group)
      → group_sum w (sort_group glib a r) ≡ group_sum w r
  unfolding sort_group
  groups-sort_group w a r = groups-set_users w a (glib.slist_sort func_sort_user) r

  pub once-sort_group :
      (a b : ℕ) (r : List Group) → count (at_group a) (sort_group glib b r) ≡ count (at_group a) r
  unfolding sort_group
  once-sort_group a b r = once-set_users a b (glib.slist_sort func_sort_user) r

module _ (glib : Glib) (s : Server) (g : Group) (u : User) (name : Option Str)
    (st : Stands s g.addr g.name u) where
  grouped : Grouped s (find_or_add_group glib s name).0 (find_or_add_group glib s name).1 name
  grouped = find_or_add_group-Grouped glib s name st.valid

  -- The roster between the two steps of a move.
  abbrev between : List Group
  between =
      set_users g.addr (remove_first (at_user u.addr)) (find_or_add_group glib s name).0.roster

  removed :
      (w : Weight)
      → tally w between + w g.addr g.name u ≡ tally w (find_or_add_group glib s name).0.roster
  removed w =
      tally-remove_held w (find_or_add_group glib s name).0.roster g.addr g.name u
        (record { weighs = λ x. omega (arith, grouped.same x, st.held.weighs x) })
        (grouped.valid.users_once u.addr)

  has_between : HasGroup between (find_or_add_group glib s name).1.addr name
  has_between = record {
    weighs = λ w. omega (
      arith,
      groups-set_users w g.addr (remove_first (at_user u.addr))
          (find_or_add_group glib s name).0.roster,
      grouped.has.weighs w,
    );
  }

  appended :
      (w : Weight)
      → tally w (move_user glib s u g name).0.roster
        ≡ tally w between + w (find_or_add_group glib s name).1.addr name u
  unfolding move_user
  appended w =
      tally-append_held w between (find_or_add_group glib s name).1.addr name u has_between (
        omega (
          arith,
          once-set_users (find_or_add_group glib s name).1.addr g.addr
              (remove_first (at_user u.addr)) (find_or_add_group glib s name).0.roster,
          grouped.valid.groups_once (find_or_add_group glib s name).1.addr,
        ))

  groups-moved :
      (w : ℕ → Option Str → ℕ)
      → group_sum w (move_user glib s u g name).0.roster
        ≡ group_sum w (find_or_add_group glib s name).0.roster
  unfolding move_user
  groups-moved w =
      groups-set_users w (find_or_add_group glib s name).1.addr (λ us. us ++ u ∷ []) between
      ∙ groups-set_users w g.addr (remove_first (at_user u.addr))
          (find_or_add_group glib s name).0.roster

  once-moved :
      (a : ℕ)
      → count (at_group a) (move_user glib s u g name).0.roster
        ≡ count (at_group a) (find_or_add_group glib s name).0.roster
  unfolding at_group
  once-moved a = groups-moved (λ ga n. bit (ga == a))

  -- A move takes the contact out of its group and appends it to the group of that name.
  pub move_user-Exchanged :
      Exchanged s.roster
        (move_user glib s u g name).0.roster
        g.addr
        g.name
        u
        (move_user glib s u g name).1.addr
        name
        u
  unfolding move_user
  move_user-Exchanged = record {
    swap = λ w. omega (arith, appended w, removed w, grouped.same w);
    keeps = λ w. omega (arith, groups-moved w, grouped.keeps w);
  }

  pub move_user-named : (move_user glib s u g name).1.name ≡ name
  unfolding move_user
  move_user-named = grouped.named

  pub move_user-Stands :
      Stands (move_user glib s u g name).0 (move_user glib s u g name).1.addr name u
  move_user-Stands =
      Stands-Exchanged st move_user-Exchanged
        (record {
          weighs = λ w. unfold move_user in omega (arith, groups-moved w, grouped.has.weighs w);
        })
        (IsWellFormed-within (find_or_add_group glib s name).0 (move_user glib s u g name).0
          grouped.valid (unfold move_user in omega arith)
          (λ a. omega (arith, appended (weight_at a), removed (weight_at a)))
          (λ a. omega (arith, once-moved a)))

-- A sort keeps all that stands.
module _ (glib : Glib) (s : Server) (a : ℕ) where
  abbrev pub sorted : Server
  sorted = record s { roster = sort_group glib a s.roster }

  pub sort_group-Stands :
      {ga : ℕ} {n : Option Str} {u : User} → Stands s ga n u → Stands sorted ga n u
  sort_group-Stands st = record {
    held = record {
      weighs = λ w. omega (arith, tally-sort_group glib w a s.roster, st.held.weighs w);
    };
    group = record {
      weighs = λ w. omega (arith, groups-sort_group glib w a s.roster, st.group.weighs w);
    };
    valid =
        IsWellFormed-within s sorted st.valid (omega arith)
          (λ b. omega (arith, tally-sort_group glib (weight_at b) a s.roster))
          (λ b. omega (arith, once-sort_group glib b a s.roster));
  }
