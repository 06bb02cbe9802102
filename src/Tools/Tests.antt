-- ===== src/Tools/Tests.antt =====
-- The theorems at concrete JIDs and presences.
use irssi_xmpp.Prelude.{◌≡◌, refl, some}
use irssi_xmpp.Prelude.Str.{codes, has}
use irssi_xmpp.Tools.{
  xmpp_strip_resource, xmpp_extract_resource, xmpp_extract_user, xmpp_extract_domain,
}
use irssi_xmpp.Tools.Split.{parts_of_full_jid, at_sign_in_resource}

parts_of_full_jid_example :
    (xmpp_extract_user (codes "ann@x/home") ≡ codes "ann")
    × (xmpp_extract_domain (codes "ann@x/home") ≡ some (codes "x"))
    × (xmpp_strip_resource (codes "ann@x/home") ≡ codes "ann@x")
    × (xmpp_extract_resource (codes "ann@x/home") ≡ some (codes "home"))
unfolding has
parts_of_full_jid_example =
    parts_of_full_jid (codes "ann") (codes "x") (codes "home") refl refl refl

at_sign_in_resource_example :
    (xmpp_extract_user (codes "x/a@b") ≡ codes "x/a")
    × (xmpp_extract_domain (codes "x/a@b") ≡ some (codes "b"))
unfolding has
at_sign_in_resource_example = at_sign_in_resource (codes "x") (codes "a") (codes "b") refl refl
