-- ===== src/Datetime/Tests.antt =====
-- A C library that takes off as many characters as a stamp without zone has.
use irssi_xmpp.Prelude.{ℕ, zero, suc, ◌+◌, ◌*◌, ◌≡◌, refl, some, [], ◌∷◌, arith}
use irssi_xmpp.Prelude.Int.{pos}
use irssi_xmpp.Prelude.Str.{Str, codes}
use irssi_xmpp.Datetime.{parse_timezone, Libc, xep82_datetime}
use irssi_xmpp.Datetime.Zones.{parse_timezone_east, xep82_datetime_sign}

abbrev behind : ℕ → Str → Str
behind zero s = s
behind (suc n) [] = []
behind (suc n) (c ∷ s) = behind n s

abbrev libc : Libc
libc = record { Tm = Unit; strptime = λ s. some (tt, behind 19 s); mktime = λ tm. pos 1000 }

parse_timezone_east_example :
    parse_timezone (codes "+1345") ≡ ((1 * 10 + 3) * 60 + (4 * 10 + 5)) * 60
parse_timezone_east_example =
    parse_timezone_east 1 3 4 5 (omega arith) (omega arith) (omega arith) (omega arith)

xep82_datetime_sign_example :
    xep82_datetime libc (codes "2010-01-01T00:00:00+02:00") ≡ some (pos 1000)
xep82_datetime_sign_example =
    xep82_datetime_sign libc (codes "2010-01-01T00:00:00+02:00") tt b'+' b'0' (codes "2:00") refl
      refl refl
