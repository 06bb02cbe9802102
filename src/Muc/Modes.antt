-- ===== src/Muc/Modes.antt =====
-- src/core/xep/muc-affiliation.c, muc-role.c, muc-nicklist.c: affiliations, roles, and the flags of a
-- nick that follow from them.
pub mod Kept
use irssi_xmpp.Prelude.{
  ◌==◌, ℕ, Bool, true, false, not, ◌||◌, Option, none, some, [], if◌then◌else◌,
}
use irssi_xmpp.Prelude.Int.{is_zero}
use irssi_xmpp.Prelude.Str.{Str, codes}
use irssi_xmpp.Glib.{Glib}
use irssi_xmpp.Muc.{Affiliation, xmpp_affiliation, Role, xmpp_role, Nick}

pub xmpp_nicklist_get_role : Glib → Option Str → Role
xmpp_nicklist_get_role glib none = Role.nothing
xmpp_nicklist_get_role glib (some role) =
    let reads = λ (r : Role). is_zero (glib.ascii_strcasecmp role (xmpp_role r)) in
    if reads Role.moderator
    then Role.moderator
    else if reads Role.participant
    then Role.participant
    else if reads Role.visitor
    then Role.visitor
    else Role.nothing

pub xmpp_nicklist_get_affiliation : Glib → Option Str → Affiliation
xmpp_nicklist_get_affiliation glib none = Affiliation.nothing
xmpp_nicklist_get_affiliation glib (some affiliation) =
    let reads =
      λ (a : Affiliation). is_zero (glib.ascii_strcasecmp affiliation (xmpp_affiliation a)) in
    if reads Affiliation.owner
    then Affiliation.owner
    else if reads Affiliation.admin
    then Affiliation.admin
    else if reads Affiliation.member
    then Affiliation.member
    else if reads Affiliation.outcast
    then Affiliation.outcast
    else Affiliation.nothing

-- The numbers of the constants.
abbrev pub affiliation_rank : Affiliation → ℕ
affiliation_rank Affiliation.nothing = 0
affiliation_rank Affiliation.owner = 1
affiliation_rank Affiliation.admin = 2
affiliation_rank Affiliation.member = 3
affiliation_rank Affiliation.outcast = 4

abbrev pub role_rank : Role → ℕ
role_rank Role.nothing = 0
role_rank Role.moderator = 1
role_rank Role.participant = 2
role_rank Role.visitor = 3

unfoldable pub xmpp_nicklist_modes_changed : Nick → Affiliation → Role → Bool
xmpp_nicklist_modes_changed n affiliation role =
    not (affiliation_rank n.affiliation == affiliation_rank affiliation)
    || not (role_rank n.role == role_rank role)

-- The first switch.
abbrev pub with_affiliation : Affiliation → Nick → Nick
with_affiliation Affiliation.owner n = record n { prefixes = codes "&"; op = true }
with_affiliation Affiliation.admin n = record n { prefixes = []; op = true }
with_affiliation a n = record n { prefixes = []; op = false }

-- The second switch.
abbrev pub with_role : Role → Nick → Nick
with_role Role.moderator n = record n { voice = true; halfop = true }
with_role Role.participant n = record n { halfop = false; voice = true }
with_role r n = record n { halfop = false; voice = false }

unfoldable pub xmpp_nicklist_set_modes : Affiliation → Role → Nick → Nick
xmpp_nicklist_set_modes affiliation role n =
    with_role role
      (with_affiliation affiliation (record n { affiliation = affiliation; role = role }))
