-- ===== src/Tools.antt =====
-- src/core/tools.c: the parts of a Jabber ID, recoding, and tests on presences.
-- An argument that the code asserts not to be NULL (`g_return_val_if_fail`) is a `Str`.
pub mod Split
pub mod Changes
pub mod Sample
mod Tests
use irssi_xmpp.Prelude.{
  ℕ, Bool, true, false, ◌&&◌, ◌||◌, not, Option, none, some, [], ◌∷◌, ◌++◌, if◌then◌else◌,
}
use irssi_xmpp.Prelude.Int.{ℤ, pos, negsuc, leb_ℤ, eqb_ℤ}
use irssi_xmpp.Prelude.Str.{Str, differ, before, after, has}

-- What recoding asks of irssi's settings and of GLib's conversion.
pub record Charsets : Type 0 where
  pub strip_codes : Str → Option Str
  pub local_is_utf8 : Bool
  pub local_charset : Option Str
  pub transliterate : Bool
  pub names_translit : Str → Bool
  pub to_local : Str → Str → Option Str
  pub from_local : Str → Str → Option Str

abbrev or_else : Option Str → Str → Str
or_else none s = s
or_else (some t) s = t

-- The conversion that `xmpp_recode_out` makes: none to UTF-8 or to an unknown charset.
convert_out : Charsets → Option Str → Str → Option Str
convert_out c none s = none
convert_out c (some charset) s = if c.local_is_utf8 then none else c.to_local charset s

unfoldable pub xmpp_recode_out : Charsets → Option Str → Option Str
unfolding convert_out
xmpp_recode_out c none = none
xmpp_recode_out c (some []) = none
xmpp_recode_out c (some (x ∷ s)) =
    let str = or_else (c.strip_codes (x ∷ s)) (x ∷ s) in
    some (or_else (convert_out c c.local_charset str) str)

translit_suffix : Str
translit_suffix = b'/' ∷ b'/' ∷ b'T' ∷ b'R' ∷ b'A' ∷ b'N' ∷ b'S' ∷ b'L' ∷ b'I' ∷ b'T' ∷ []

convert_in : Charsets → Option Str → Str → Option Str
unfolding translit_suffix
convert_in c none s = some s
convert_in c (some charset) s =
    if c.local_is_utf8
    then some s
    else if c.transliterate && not (c.names_translit charset)
    then c.from_local (charset ++ translit_suffix) s
    else c.from_local charset s

unfoldable pub xmpp_recode_in : Charsets → Option Str → Option Str
unfolding convert_in
xmpp_recode_in c none = none
xmpp_recode_in c (some []) = none
xmpp_recode_in c (some (x ∷ s)) = some (or_else (convert_in c c.local_charset (x ∷ s)) (x ∷ s))

-- The text behind the separator, where `xmpp_find_resource_sep` finds one.
unfoldable pub xmpp_extract_resource : Str → Option Str
unfolding after
xmpp_extract_resource jid = after b'/' jid

unfoldable pub xmpp_strip_resource : Str → Str
unfolding before
xmpp_strip_resource jid = before b'/' jid

unfoldable pub xmpp_extract_user : Str → Str
unfolding xmpp_strip_resource before has
xmpp_extract_user jid = if has b'@' jid then before b'@' jid else xmpp_strip_resource jid

-- `pos2 < pos1` says that a '/' stands before the first '@'.
extract_domain_of : Str → Option Str → Option Str
unfolding before has
extract_domain_of jid none = none
extract_domain_of jid (some rest) =
    if has b'/' (before b'@' jid) then some rest else some (before b'/' rest)

unfoldable pub xmpp_extract_domain : Str → Option Str
unfolding extract_domain_of after
xmpp_extract_domain jid = extract_domain_of jid (after b'@' jid)

-- `pos != NULL && *(pos+1) != '\0'`
abbrev is_filled : Option Str → Bool
is_filled none = false
is_filled (some []) = false
is_filled (some (x ∷ s)) = true

unfoldable pub xmpp_have_domain : Str → Bool
unfolding after
xmpp_have_domain jid = is_filled (after b'@' jid)

unfoldable pub xmpp_have_resource : Str → Bool
unfolding after
xmpp_have_resource jid = is_filled (after b'/' jid)

abbrev pub xmpp_priority_min : ℤ
xmpp_priority_min = negsuc 127

abbrev pub xmpp_priority_max : ℤ
xmpp_priority_max = pos 127

unfoldable pub xmpp_priority_out_of_bound : ℤ → Bool
xmpp_priority_out_of_bound priority =
    if leb_ℤ xmpp_priority_min priority && leb_ℤ priority xmpp_priority_max then false else true

unfoldable pub xmpp_presence_changed : ℕ → ℕ → Option Str → Option Str → ℤ → ℤ → Bool
unfolding differ
xmpp_presence_changed show old_show status old_status priority old_priority =
    not (eqb_ℤ (pos show) (pos old_show))
    || differ status old_status
    || not (eqb_ℤ priority old_priority)
