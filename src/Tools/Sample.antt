-- ===== src/Tools/Sample.antt =====
-- Settings of recoding for the tests.
use irssi_xmpp.Prelude.{true, false, none}
use irssi_xmpp.Tools.{Charsets}

-- Recoding leaves texts as they are.
abbrev pub utf8 : Charsets
utf8 = record {
  strip_codes = λ s. none;
  local_is_utf8 = true;
  local_charset = none;
  transliterate = false;
  names_translit = λ s. false;
  to_local = λ c s. none;
  from_local = λ c s. none;
}
