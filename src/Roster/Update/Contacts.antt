-- ===== src/Roster/Update/Contacts.antt =====
-- `update_user`: what a roster item of the server does to the contacts.
use mathlib.Core.Path.{subst}
use irssi_xmpp.Prelude.{ℕ, ◌≡◌, refl, Bool, Option, some, List, bit, arith, Bool-cases, inl, inr}
use irssi_xmpp.Prelude.Str.{Str, differ, differ_iff}
use irssi_xmpp.Glib.{Glib}
use irssi_xmpp.Roster.{User, Group, Server, Signal}
use irssi_xmpp.Roster.Find.{rosters_find_user}
use irssi_xmpp.Roster.Store.{at_user, set_user}
use irssi_xmpp.Roster.Store.Count.{tally, weight_at, HasGroup, Holds-found, HasGroup-found}
use irssi_xmpp.Roster.Store.Writes.{groups-set_user, tally-set_user_held}
use irssi_xmpp.Roster.Update.{move_user, change_group, change_name, refresh_user}
use irssi_xmpp.Roster.Update.Valid.{IsWellFormed}
use irssi_xmpp.Roster.Update.Steps.{
  Exchanged, Stands, Stands-Exchanged, IsWellFormed-within, once-set_user, tally-sort_group,
  groups-sort_group, move_user-Exchanged, move_user-Stands, sorted, sort_group-Stands,
}

-- One step: the contact is exchanged, and stands in the new roster.
pub record Becomes (s s' : Server) (ga : ℕ) (n : Option Str) (u : User) (ga' : ℕ) (n' : Option Str)
    (u' : User) : Type 0 where
  pub exchanged : Exchanged s.roster s'.roster ga n u ga' n' u'
  pub stands : Stands s' ga' n' u'

pub Becomes-trans :
    {s₁ s₂ s₃ : Server} {a₁ a₂ a₃ : ℕ} {n₁ n₂ n₃ : Option Str} {u₁ u₂ u₃ : User}
    → Becomes s₁ s₂ a₁ n₁ u₁ a₂ n₂ u₂
    → Becomes s₂ s₃ a₂ n₂ u₂ a₃ n₃ u₃
    → Becomes s₁ s₃ a₁ n₁ u₁ a₃ n₃ u₃
Becomes-trans b c = record {
  exchanged = record {
    swap = λ w. omega (arith, b.exchanged.swap w, c.exchanged.swap w);
    keeps = λ w. omega (arith, b.exchanged.keeps w, c.exchanged.keeps w);
  };
  stands = c.stands;
}

Becomes-refl :
    {s : Server} {ga : ℕ} {n : Option Str} {u : User} → Stands s ga n u → Becomes s s ga n u ga n u
Becomes-refl st = record {
  exchanged = record { swap = λ w. refl; keeps = λ w. omega arith };
  stands = st;
}

pub sort_group-Becomes :
    (glib : Glib) (s : Server) (a : ℕ) {ga : ℕ} {n : Option Str} {u : User}
    → Stands s ga n u
    → Becomes s (sorted glib s a) ga n u ga n u
sort_group-Becomes glib s a st = record {
  exchanged = record {
    swap = λ w. omega (arith, tally-sort_group glib w a s.roster);
    keeps = λ w. omega (arith, groups-sort_group glib w a s.roster);
  };
  stands = sort_group-Stands glib s a st;
}

-- Signals are no part of the roster.
pub Becomes-emitting :
    {s s' : Server} {ga ga' : ℕ} {n n' : Option Str} {u u' : User}
    → Becomes s s' ga n u ga' n' u'
    → (e : List Signal) → Becomes s (record s' { emitted = e }) ga n u ga' n' u'
Becomes-emitting b e = record {
  exchanged = record { swap = b.exchanged.swap; keeps = b.exchanged.keeps };
  stands = record {
    held = b.stands.held;
    group = b.stands.group;
    valid = record {
      users_once = b.stands.valid.users_once;
      groups_once = b.stands.valid.groups_once;
      users_fresh = b.stands.valid.users_fresh;
      groups_fresh = b.stands.valid.groups_fresh;
    };
  };
}

module _ (glib : Glib) (s : Server) (g : Group) (u : User) (st : Stands s g.addr g.name u) where
  change_group-Becomes :
      (name : Option Str)
      → Becomes s
          (change_group glib s u g name).0
          g.addr
          g.name
          u
          (change_group glib s u g name).1.addr
          name
          u
  unfolding change_group
  change_group-Becomes name = elim (Bool-cases (differ g.name name)) [
    | inl e ↦
        rw (e, change_group)
          (Becomes-trans
            (record {
              exchanged = move_user-Exchanged glib s g u name st;
              stands = move_user-Stands glib s g u name st;
            })
            (sort_group-Becomes glib (move_user glib s u g name).0
              (move_user glib s u g name).1.addr (move_user-Stands glib s g u name st)))
    | inr e ↦ rw (e, change_group) (rw (← (differ_iff g.name name).0 e) (Becomes-refl st))
  ]

module _ (s : Server) (ga : ℕ) (n : Option Str) (u : User) (st : Stands s ga n u) (f : User → User)
    (same : (f u).addr ≡ u.addr) where
  abbrev pub written : Server
  written = record s { roster = set_user u.addr f s.roster }

  -- A write to the contact, of any field but the address.
  pub set_user-Becomes : Becomes s written ga n u ga n (f u)
  set_user-Becomes = record { exchanged = ex; stands = Stands-Exchanged st ex has valid }
    where
      ex : Exchanged s.roster written.roster ga n u ga n (f u)
      ex = record {
        swap = λ w. tally-set_user_held w f s.roster ga n u st.held (st.valid.users_once u.addr);
        keeps = λ w. omega (arith, groups-set_user w u.addr f s.roster);
      }

      has : HasGroup written.roster ga n
      has = record {
        weighs = λ w. omega (arith, groups-set_user w u.addr f s.roster, st.group.weighs w);
      }

      addresses : (a : ℕ) → weight_at a ga n (f u) ≡ weight_at a ga n u
      addresses a = unfold at_user in rw same

      valid : IsWellFormed written
      valid =
          IsWellFormed-within s written st.valid (omega arith)
            (λ a. omega (arith, ex.swap (weight_at a), addresses a))
            (λ a. omega (arith, once-set_user a u.addr f s.roster))

change_name-Becomes :
    (glib : Glib) (s : Server) (ga : ℕ) (n : Option Str) (u : User) (name : Option Str)
    → Stands s ga n u
    → Becomes s (change_name glib s u ga name) ga n u ga n (record u { name = name })
unfolding change_name
change_name-Becomes glib s ga n u name st = elim (Bool-cases (differ u.name name)) [
  | inl e ↦
      let b = set_user-Becomes s ga n u st (λ v. record v { name = name }) refl in
      rw (e, change_name) (Becomes-trans b (sort_group-Becomes glib _ ga b.stands))
  | inr e ↦
      rw (e, change_name)
        (subst (λ m. Becomes s s ga n u ga n (record u { name = m })) ((differ_iff u.name name).0 e)
          (Becomes-refl st))
]

-- Found, moved if need be, and renamed.
pub refresh_user-Becomes :
    (glib : Glib) (s : Server) (g : Group) (u : User) (name group_name : Option Str)
    → Stands s g.addr g.name u
    → Becomes s
        (refresh_user glib s u g name group_name).0
        g.addr
        g.name
        u
        (refresh_user glib s u g name group_name).1.addr
        group_name
        (record u { name = name })
unfolding refresh_user
refresh_user-Becomes glib s g u name group_name st =
    let b = change_group-Becomes glib s g u st group_name in
    Becomes-trans b (change_name-Becomes glib _ _ _ u name b.stands)

pub Stands-found :
    (s : Server) (jid : Str) (g : Group) (u : User)
    → IsWellFormed s
    → rosters_find_user s.roster jid ≡ some (g, u)
    → Stands s g.addr g.name u
unfolding rosters_find_user
Stands-found s jid g u v h = record {
  held = Holds-found _ s.roster g u h;
  group = HasGroup-found _ s.roster g u h;
  valid = v;
}

-- How many contacts of the roster, each with its group's name, have a property.
abbrev pub how_many : (Option Str → User → Bool) → List Group → ℕ
how_many p r = tally (λ ga n u. bit (p n u)) r
