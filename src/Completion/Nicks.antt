-- ===== src/Completion/Nicks.antt =====
-- src/fe-common/xmpp-completion.c: what get_nicks offers, and in what order.
use mathlib.Core.List.{reverse_aux, reverse, reverse_aux-append}
use irssi_xmpp.Prelude.{
  ◌≡◌, refl, sym, ap, ◌∙◌, Bool, true, false, not, ◌&&◌, ◌||◌, Option, none, some, List, [], ◌∷◌,
  ◌++◌, if◌then◌else◌,
}
use irssi_xmpp.Prelude.Str.{Str}
use irssi_xmpp.Glib.{Glib}
use irssi_xmpp.Tools.{xmpp_extract_resource, xmpp_strip_resource}
use irssi_xmpp.Roster.{User, Group}
use irssi_xmpp.Completion.{
  starts, offered, is_online, prepend_name, prepend_jid, pass_users, pass, both_passes, get_nicks,
  get_resources,
}

cons_if :
    (b : Bool) (x : Str) (list : List Str)
    → (if b then x ∷ list else list) ≡ reverse_aux (if b then x ∷ [] else []) list
cons_if true x list = refl
cons_if false x list = refl

skip_if :
    (b : Bool) (l list : List Str)
    → (if b then list else reverse_aux l list) ≡ reverse_aux (if b then [] else l) list
skip_if true l list = refl
skip_if false l list = refl

module _ (glib : Glib) (nick : Str) (quoted complete_names : Bool) where
  -- The name of a contact, where it begins with the text typed.
  names_of : Option Str → List Str
  names_of none = []
  names_of (some name) =
      if complete_names && starts glib name nick then offered quoted name none ∷ [] else []

  -- What the code offers for a contact: the name, then the JID, each where it fits.
  offers_of : User → List Str
  offers_of u =
      names_of u.name ++ (if starts glib u.jid nick then offered quoted u.jid none ∷ [] else [])

  -- The offers for the contacts that are online, or for the others, in the order of the roster.
  offers_in : Bool → List User → List Str
  offers_in online [] = []
  offers_in online (u ∷ us) =
      (if (online && not (is_online u)) || (not online && is_online u) then [] else offers_of u)
      ++ offers_in online us

  pub offers : Bool → List Group → List Str
  offers online [] = []
  offers online (g ∷ r) = offers_in online g.users ++ offers online r

  prepend_name_offer :
      (name : Option Str) (list : List Str)
      → prepend_name glib nick quoted complete_names name list ≡ reverse_aux (names_of name) list
  unfolding prepend_name names_of
  prepend_name_offer none list = refl
  prepend_name_offer (some name) list =
      cons_if (complete_names && starts glib name nick) (offered quoted name none) list

  prepended :
      (u : User) (list : List Str)
      → prepend_jid glib nick quoted u.jid
          (prepend_name glib nick quoted complete_names u.name list)
        ≡ reverse_aux (offers_of u) list
  unfolding prepend_jid offers_of
  prepended u list =
      let fits = starts glib u.jid nick in
      let x = offered quoted u.jid none in
      cons_if fits x (prepend_name glib nick quoted complete_names u.name list)
      ∙ ap (reverse_aux (if fits then x ∷ [] else [])) (prepend_name_offer u.name list)
      ∙ sym (reverse_aux-append (names_of u.name) (if fits then x ∷ [] else []) list)

  pass_users-offers :
      (online : Bool) (list : List Str) (us : List User)
      → pass_users glib nick quoted complete_names online list us
        ≡ reverse_aux (offers_in online us) list
  unfolding pass_users offers_in
  pass_users-offers online list [] = refl
  pass_users-offers online list (u ∷ us) =
      let skipped = (online && not (is_online u)) || (not online && is_online u) in
      let more =
        prepend_jid glib nick quoted u.jid
          (prepend_name glib nick quoted complete_names u.name list) in
      pass_users-offers online (if skipped then list else more) us
      ∙ ap (reverse_aux (offers_in online us)) (
          ap (λ m. if skipped then list else m) (prepended u list)
          ∙ skip_if skipped (offers_of u) list)
      ∙ sym (reverse_aux-append (if skipped then [] else offers_of u) (offers_in online us) list)

  pass-offers :
      (online : Bool) (list : List Str) (r : List Group)
      → pass glib nick quoted complete_names online list r ≡ reverse_aux (offers online r) list
  unfolding pass offers
  pass-offers online list [] = refl
  pass-offers online list (g ∷ r) =
      pass-offers online (pass_users glib nick quoted complete_names online list g.users) r
      ∙ ap (reverse_aux (offers online r)) (pass_users-offers online list g.users)
      ∙ sym (reverse_aux-append (offers_in online g.users) (offers online r) list)

  -- Where the text typed names no resource, the list offered is the reverse of what fits for the
  -- contacts that are online, followed by what fits for the others: it begins with the contacts that
  -- are offline, in the reverse order of the roster.
  pub get_nicks_reversed :
      (roster : List Group)
      → xmpp_extract_resource nick ≡ none
      → get_nicks glib roster nick quoted complete_names
        ≡ reverse (offers true roster ++ offers false roster)
  unfolding get_nicks both_passes
  get_nicks_reversed roster plain =
      ap
        (λ o. elim o [
          | some resource ↦
              get_resources glib roster (xmpp_strip_resource nick) (some resource) quoted
          | none ↦ both_passes glib roster nick quoted complete_names
        ])
        plain
      ∙ pass-offers false (pass glib nick quoted complete_names true [] roster) roster
      ∙ ap (reverse_aux (offers false roster)) (pass-offers true [] roster)
      ∙ sym (reverse_aux-append (offers true roster) (offers false roster) [])
