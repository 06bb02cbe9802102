-- ===== src/Registration/Tests.antt =====
-- A registration whose connection is closed before it opens.
use irssi_xmpp.Prelude.{◌≡◌, refl, true, false, none, some, [], count, find_first, arith}
use irssi_xmpp.Prelude.Int.{pos}
use irssi_xmpp.Prelude.Str.{codes, after}
use irssi_xmpp.Loudmouth.Trees.{tree_nodes}
use irssi_xmpp.Tools.{xmpp_have_domain}
use irssi_xmpp.Tools.Sample.{utf8}
use irssi_xmpp.Registration.{World, State, Registration, register_lm_close_cb, at_addr}
use irssi_xmpp.Registration.Start.{not_opened, opening, attempted, connecting, start_registration}
use irssi_xmpp.Registration.Commands.{Params, cmd_xmppregister, register, registration_of}
use irssi_xmpp.Registration.Settled.{IsSettled, Stands, is_unref}
use irssi_xmpp.Registration.Steps.{
  here, command, closed, registrations_settle, start_registration_twice,
}

abbrev world : World
world = record {
  lm = tree_nodes;
  charsets = utf8;
  cmdchars = codes "/";
  default_port = pos 5222;
  default_port_ssl = pos 5223;
  decimal = λ n. codes "5222";
}

abbrev nothing : State
nothing = record { register_data = []; next = 0; next_conn = 0; calls = [] }

nothing-IsSettled : IsSettled nothing
nothing-IsSettled = record {
  fresh = λ a h. refl;
  once = λ c. ground arith;
  reported = λ p. refl;
  connected = refl;
}

abbrev params : Params
params = record {
  jid = codes "me@host";
  password = codes "secret";
  host = none;
  port = none;
  ssl = false;
}

abbrev asked : State
asked = (cmd_xmppregister world opening (some params) nothing).0

abbrev mine : Registration
mine = connecting world (registration_of params 0) 0

mine-Stands : Stands mine asked
unfolding cmd_xmppregister xmpp_have_domain after register start_registration attempted connecting
    registration_of at_addr find_first
mine-Stands = refl

registrations_settle_example : IsSettled (register_lm_close_cb world false true mine asked)
registrations_settle_example =
    registrations_settle world nothing-IsSettled
      (closed false true mine mine-Stands (command opening (some params) refl here))

start_registration_twice_example :
    count
      (is_unref 0)
      (start_registration world (not_opened none true) (registration_of params 0) nothing).calls
    ≡ 2
start_registration_twice_example =
    start_registration_twice world none true (registration_of params 0) nothing nothing-IsSettled
