-- ===== src/Disco/Tests.antt =====
-- Features added twice and out of order.
use irssi_xmpp.Prelude.{refl, ◌≡◌, some, List, [], ◌∷◌}
use irssi_xmpp.Prelude.Str.{Str, codes, strcmp, str_eq}
use irssi_xmpp.Glib.{IsSorted, concrete}
use irssi_xmpp.Disco.{disco_have_feature}
use irssi_xmpp.Disco.Listed.{listed, somes, added, added_features_found}

abbrev three : List Str
three = codes "vcard" ∷ codes "muc" ∷ codes "vcard" ∷ []

added_features_found_example :
    IsSorted strcmp (added concrete [] three)
    × ((f : Str) → disco_have_feature (somes (added concrete [] three)) f ≡ some (listed f three))
unfolding str_eq
added_features_found_example = added_features_found concrete three refl
