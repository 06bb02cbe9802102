-- ===== src/Muc/Requests/Features.antt =====
-- src/core/xep/muc.c: the mode of a room, from the features that it announces.
use irssi_xmpp.Prelude.{
  ℕ, ◌==◌, ◌≡◌, refl, sym, ap, ◌∙◌, Bool, false, ◌&&◌, ◌||◌, Option, none, some, List, [], ◌∷◌,
  ◌++◌, if◌then◌else◌, update_first, arith, Bool-cases, inl, inr,
}
use irssi_xmpp.Prelude.Int.{is_zero}
use irssi_xmpp.Prelude.Str.{Str, codes, str_eq, str_eq_iff, has}
use irssi_xmpp.Glib.{Glib}
use irssi_xmpp.Disco.{disco_have_feature}
use irssi_xmpp.Disco.Listed.{listed, somes, disco_have_feature_lem}
use irssi_xmpp.Muc.{Channel, channel_mode_changed}
use irssi_xmpp.Muc.Room.{calling}
use irssi_xmpp.Muc.Requests.{Server, channel_find_func}

-- The features that give a letter, in the order of the tests.
abbrev mode_letters : List (Str × ℕ)
mode_letters =
    (codes "muc_hidden", b'h')
    ∷ (codes "muc_membersonly", b'm')
    ∷ (codes "muc_moderated", b'M')
    ∷ (codes "muc_nonanonymous", b'a')
    ∷ (codes "muc_open", b'o')
    ∷ (codes "muc_passwordprotected", b'k')
    ∷ (codes "muc_persistent", b'p')
    ∷ (codes "muc_public", b'u')
    ∷ (codes "muc_semianonymous", b'b')
    ∷ (codes "muc_temporary", b't')
    ∷ (codes "muc_unmoderated", b'n')
    ∷ (codes "muc_unsecured", b'd')
    ∷ []

-- A letter in front of the rest, where a test answers; `none` is its fault.
abbrev appended : Option Bool → ℕ → Option Str → Option Str
appended none letter rest = none
appended (some b) letter none = none
appended (some b) letter (some s) = some (if b then letter ∷ s else s)

unfoldable pub modes : List (Option Str) → List (Str × ℕ) → Option Str
unfolding disco_have_feature
modes list [] = some []
modes list ((feature, letter) ∷ l) =
    appended (disco_have_feature list feature) letter (modes list l)

-- The key, behind the letters, of a room that has one and is protected.
with_key : Option Bool → Option Str → Option Str → Option Str
with_key none key s = none
with_key (some b) key none = none
with_key (some b) none (some s) = some s
with_key (some b) (some key) (some s) = some (if b then s ++ b' ' ∷ key else s)

-- The mode is written, and announced, where it differs.
unfoldable pub change_mode : Channel → Str → Channel
unfolding str_eq
change_mode channel mode =
    if str_eq mode channel.mode
    then channel
    else calling (record channel { mode = mode }) (channel_mode_changed ∷ [])

unfoldable pub mode_of : Option Str → List (Option Str) → Option Str
unfolding modes with_key disco_have_feature
mode_of key list =
    with_key (disco_have_feature list (codes "muc_passwordprotected")) key (modes list mode_letters)

unfoldable pub features_mode : Channel → List (Option Str) → Option Channel
unfolding mode_of change_mode
features_mode channel list = elim (mode_of channel.key list) [
  | none ↦ none
  | some mode ↦ some (change_mode channel mode)
]

unfoldable pub sig_features : Glib → Server → Str → List (Option Str) → Option Server
unfolding features_mode channel_find_func update_first
sig_features glib server name list = elim (channel_find_func glib server name) [
  | none ↦ some server
  | some channel ↦ elim (features_mode channel list) [
    | none ↦ none
    | some changed ↦ some (record server {
      channels =
          update_first (λ c. is_zero (glib.ascii_strcasecmp name c.name)) (λ c. changed)
            server.channels;
    })
  ]
]

-- The letters whose features are listed.
listed_letters : List Str → List (Str × ℕ) → Str
listed_letters l [] = []
listed_letters l ((f, c) ∷ t) =
    let rest = listed_letters l t in if listed f l then c ∷ rest else rest

modes_lem : (l : List Str) (t : List (Str × ℕ)) → modes (somes l) t ≡ some (listed_letters l t)
unfolding modes listed_letters
modes_lem l [] = refl
modes_lem l ((f, c) ∷ t) = rw (disco_have_feature_lem l f, modes_lem l t) refl

-- The feature that a letter of a mode stands for.
abbrev pub feature_of : ℕ → Option Str
feature_of c =
    if c == b'a'
    then some (codes "muc_nonanonymous")
    else if c == b'b'
    then some (codes "muc_semianonymous")
    else if c == b'd'
    then some (codes "muc_unsecured")
    else if c == b'h'
    then some (codes "muc_hidden")
    else if c == b'k'
    then some (codes "muc_passwordprotected")
    else if c == b'M'
    then some (codes "muc_moderated")
    else if c == b'm'
    then some (codes "muc_membersonly")
    else if c == b'n'
    then some (codes "muc_unmoderated")
    else if c == b'o'
    then some (codes "muc_open")
    else if c == b'p'
    then some (codes "muc_persistent")
    else if c == b't'
    then some (codes "muc_temporary")
    else if c == b'u'
    then some (codes "muc_public")
    else none

-- Whether the letter stands for a feature that is listed.
abbrev pub announced : List Str → Option Str → Bool
announced l none = false
announced l (some feature) = listed feature l

letter_listed : List Str → ℕ → List (Str × ℕ) → Bool
letter_listed l c [] = false
letter_listed l c ((f, d) ∷ t) = (d == c && listed f l) || letter_listed l c t

letter_listed_lem :
    (l : List Str) (c : ℕ) → letter_listed l c mode_letters ≡ announced l (feature_of c)
unfolding letter_listed
letter_listed_lem l c = ground arith

has_listed_letters :
    (l : List Str) (c : ℕ) (t : List (Str × ℕ)) → has c (listed_letters l t) ≡ letter_listed l c t
unfolding has listed_letters letter_listed
has_listed_letters l c [] = refl
has_listed_letters l c ((f, d) ∷ t) = ground (arith, has_listed_letters l c t)

changed_mode : (channel : Channel) (mode : Str) → (change_mode channel mode).mode ≡ mode
unfolding change_mode
changed_mode channel mode = elim (Bool-cases (str_eq mode channel.mode)) [
  | inl e ↦ rw (e, change_mode) (sym ((str_eq_iff mode channel.mode).0 e))
  | inr e ↦ rw (e, change_mode) refl
]

open_mode : (l : List Str) → mode_of none (somes l) ≡ some (listed_letters l mode_letters)
unfolding mode_of with_key
open_mode l =
    let feature = codes "muc_passwordprotected" in
    ap (λ o. with_key o none (modes (somes l) mode_letters)) (disco_have_feature_lem l feature)
    ∙ ap (λ o. with_key (some (listed feature l)) none o) (modes_lem l mode_letters)

-- The features of a room without a key, none of them NULL, give it a mode: a letter is in it exactly
-- where the feature that it stands for is listed ('a' nonanonymous, 'b' semianonymous, 'd' unsecured,
-- 'h' hidden, 'k' passwordprotected, 'M' moderated, 'm' membersonly, 'n' unmoderated, 'o' open, 'p'
-- persistent, 't' temporary, 'u' public), and no other letter is in it, whatever the mode was before.
pub features_mode_letters :
    (channel : Channel) (l : List Str)
    → channel.key ≡ none
    → (c : Channel) × (features_mode channel (somes l) ≡ some c)
      × ((letter : ℕ) → has letter c.mode ≡ announced l (feature_of letter))
unfolding features_mode
features_mode_letters channel l open_room =
    let mode = listed_letters l mode_letters in
    let e : mode_of channel.key (somes l) ≡ some mode = rw open_room (open_mode l) in
    (
      change_mode channel mode,
      rw (e, features_mode) refl,
      λ letter.
          rw (changed_mode channel mode)
            (has_listed_letters l letter mode_letters ∙ letter_listed_lem l letter),
    )
