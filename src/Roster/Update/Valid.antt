-- ===== src/Roster/Update/Valid.antt =====
-- A roster in memory: no two groups and no two contacts at one address, none at one still free.
use irssi_xmpp.Prelude.{ℕ, ◌≤◌, ◌≡◌, Option, sum_of, count, List}
use irssi_xmpp.Prelude.Str.{Str}
use irssi_xmpp.Roster.{Group, Server}
use irssi_xmpp.Roster.Store.{at_group}
use irssi_xmpp.Roster.Store.Count.{tally, weight_at}

abbrev pub group_sum : (ℕ → Option Str → ℕ) → List Group → ℕ
group_sum w r = sum_of (λ g. w g.addr g.name) r

pub record IsWellFormed (s : Server) : Type 0 where
  pub users_once : (a : ℕ) → tally (weight_at a) s.roster ≤ 1
  pub groups_once : (a : ℕ) → count (at_group a) s.roster ≤ 1
  pub users_fresh : (a : ℕ) → s.next ≤ a → tally (weight_at a) s.roster ≡ 0
  pub groups_fresh : (a : ℕ) → s.next ≤ a → count (at_group a) s.roster ≡ 0
