-- ===== src/Datetime.antt =====
-- src/core/xep/datetime.c: the time of a stamp.
--
-- An `unsigned int` has 32 bits, and a `long` holds every value of one. The C library's strptime
-- and mktime are parameters.
pub mod Zones
mod Tests
use irssi_xmpp.Prelude.{
  ℕ, suc, ◌+◌, ◌-◌, ◌*◌, ◌/◌, ◌%◌, ◌^◌, ◌==◌, leb, Bool, true, false, ◌&&◌, ◌||◌, Option, none,
  some, List, [], ◌∷◌, if◌then◌else◌, length,
}
use irssi_xmpp.Prelude.Int.{ℤ, pos, negsuc, ◌-ℤ◌}
use irssi_xmpp.Prelude.Str.{Str, codes, str_eq, atoi, is_digit}

-- The conversion of an `int` to an `unsigned int`.
abbrev pub unsigned : ℤ → ℕ
unsigned (pos n) = n % 2 ^ 32
unsigned (negsuc n) = 2 ^ 32 - 1 - n % 2 ^ 32

-- `rfc822_timezones`
abbrev pub rfc822_timezones : List (List Str)
rfc822_timezones =
    (codes "M" ∷ [])
    ∷ (codes "L" ∷ [])
    ∷ (codes "K" ∷ [])
    ∷ (codes "I" ∷ [])
    ∷ (codes "H" ∷ codes "PST" ∷ [])
    ∷ (codes "G" ∷ codes "MST" ∷ codes "PDT" ∷ [])
    ∷ (codes "F" ∷ codes "CST" ∷ codes "MDT" ∷ [])
    ∷ (codes "E" ∷ codes "EST" ∷ codes "CDT" ∷ [])
    ∷ (codes "D" ∷ codes "EDT" ∷ [])
    ∷ (codes "C" ∷ [])
    ∷ (codes "B" ∷ [])
    ∷ (codes "A" ∷ [])
    ∷ (codes "Z" ∷ codes "UT" ∷ codes "GMT" ∷ [])
    ∷ (codes "N" ∷ [])
    ∷ (codes "O" ∷ [])
    ∷ (codes "P" ∷ [])
    ∷ (codes "Q" ∷ [])
    ∷ (codes "R" ∷ [])
    ∷ (codes "S" ∷ [])
    ∷ (codes "T" ∷ [])
    ∷ (codes "U" ∷ [])
    ∷ (codes "V" ∷ [])
    ∷ (codes "W" ∷ [])
    ∷ (codes "X" ∷ [])
    ∷ (codes "Y" ∷ [])
    ∷ []

unfoldable names_zone : Str → List Str → Bool
unfolding str_eq
names_zone tz [] = false
names_zone tz (name ∷ l) = str_eq name tz || names_zone tz l

-- The loops over the table, from row i on. `(i - 12) * 3600` wraps.
unfoldable search : Str → ℕ → List (List Str) → ℕ
unfolding names_zone
search tz i [] = 0
search tz i (names ∷ l) =
    let rest = search tz (suc i) l in
    if names_zone tz names then (i + (2 ^ 32 - 12)) % 2 ^ 32 * 3600 % 2 ^ 32 else rest

-- Hours and minutes, written as one number, in seconds.
abbrev pub seconds : ℕ → ℕ
seconds i = (i / 100 * 60 + i % 100) * 60 % 2 ^ 32

unfoldable pub parse_timezone : Str → ℕ
unfolding atoi search
parse_timezone [] = search [] 0 rfc822_timezones
parse_timezone (c ∷ s) =
    if (c == b'+' || c == b'-') && length (c ∷ s) == 5
    then seconds (unsigned (atoi (c ∷ s)))
    else search (c ∷ s) 0 rfc822_timezones

-- `while (isdigit(*s)) s++;`
unfoldable skip_digits : Str → Str
skip_digits [] = []
skip_digits (c ∷ s) = let rest = skip_digits s in if is_digit c then rest else c ∷ s

-- `*s != '\0' ? parse_timezone(s) : 0`
unfoldable zone_offset : Str → ℕ
unfolding parse_timezone
zone_offset [] = 0
zone_offset (c ∷ s) = parse_timezone (c ∷ s)

-- The offset for what stands behind the seconds. The first character is skipped, whatever it is;
-- `none` is the read behind the end of the text where there is none.
unfoldable pub offset_of : Str → Option ℕ
unfolding zone_offset skip_digits
offset_of [] = none
offset_of (c ∷ s) = some (zone_offset (if c == b'.' then skip_digits s else s))

-- The C library. `strptime` gives the time read and the rest of the text, or NULL.
pub record Libc : Type 1 where
  pub Tm : Type 0
  pub strptime : Str → Option (Tm × Str)
  pub mktime : Tm → ℤ

module _ (libc : Libc) where
  unfoldable timed : libc.Tm → Option ℕ → Option ℤ
  timed tm none = none
  timed tm (some offset) = some (libc.mktime tm -ℤ pos offset)

  unfoldable stamped : Option (libc.Tm × Str) → Option ℤ
  unfolding offset_of timed
  stamped none = some (negsuc 0)
  stamped (some (tm, s)) = timed tm (offset_of s)

  unfoldable pub xep82_datetime : Str → Option ℤ
  unfolding stamped
  xep82_datetime stamp = stamped (libc.strptime stamp)
