-- ===== src/Datetime/Zones.antt =====
-- src/core/xep/datetime.c: zones as numbers.
use irssi_xmpp.Prelude.{
  ℕ, suc, ◌+◌, ◌*◌, ◌<◌, ◌==◌, ◌≡◌, refl, ap, ◌∙◌, Bool, true, false, ◌&&◌, ◌||◌, not, some, List,
  [], ◌∷◌, if◌then◌else◌, length, arith,
}
use irssi_xmpp.Prelude.Int.{ℤ, pos, negsuc, ◌-ℤ◌, int_of, int_of_same}
use irssi_xmpp.Prelude.Str.{Str, atoi, strtol, digits, is_digit, str_eq, strcmp}
use irssi_xmpp.Datetime.{
  parse_timezone, zone_offset, skip_digits, timed, stamped, offset_of, Libc, xep82_datetime,
  seconds, unsigned, rfc822_timezones, search, names_zone,
}

-- The text of four digits.
abbrev pub four : ℕ → ℕ → ℕ → ℕ → Str
four a b c d = (b'0' + a) ∷ (b'0' + b) ∷ (b'0' + c) ∷ (b'0' + d) ∷ []

digits-four :
    (a b c d : ℕ)
    → a < 10
    → b < 10
    → c < 10
    → d < 10
    → digits 0 (four a b c d) ≡ a * 1000 + b * 100 + c * 10 + d
unfolding digits
digits-four a b c d ha hb hc hd = ground arith

-- A zone east of UTC, written as a plus and four digits, is as many seconds as its hours and
-- minutes have; nothing overflows.
pub parse_timezone_east :
    (a b c d : ℕ)
    → a < 10
    → b < 10
    → c < 10
    → d < 10
    → parse_timezone (b'+' ∷ four a b c d) ≡ ((a * 10 + b) * 60 + (c * 10 + d)) * 60
unfolding parse_timezone atoi strtol
parse_timezone_east a b c d ha hb hc hd =
    let n = a * 1000 + b * 100 + c * 10 + d in
    ap (λ n. seconds (unsigned (int_of (pos n)))) (digits-four a b c d ha hb hc hd)
    ∙ ap (λ e. seconds (unsigned e)) (int_of_same (pos n) (omega arith, omega arith))
    ∙ omega arith

-- Whether no text begins with a digit.
abbrev no_digit_first : List Str → Bool
no_digit_first [] = true
no_digit_first ([] ∷ l) = no_digit_first l
no_digit_first ((c ∷ s) ∷ l) = not (is_digit c) && no_digit_first l

abbrev rows_without_digits : List (List Str) → Bool
rows_without_digits [] = true
rows_without_digits (names ∷ l) = no_digit_first names && rows_without_digits l

names_zone-digit :
    (c : ℕ) (s : Str) (names : List Str)
    → is_digit c ≡ true
    → no_digit_first names ≡ true
    → names_zone (c ∷ s) names ≡ false
unfolding names_zone str_eq strcmp
names_zone-digit c s [] h k = refl
names_zone-digit c s ([] ∷ l) h k = ground (arith, names_zone-digit c s l)
names_zone-digit c s ((d ∷ n) ∷ l) h k = ground (arith, names_zone-digit c s l)

search-digit :
    (c : ℕ) (s : Str) (i : ℕ) (l : List (List Str))
    → is_digit c ≡ true
    → rows_without_digits l ≡ true
    → search (c ∷ s) i l ≡ 0
unfolding search
search-digit c s i [] h k = refl
search-digit c s i (names ∷ l) h k =
    ground (arith, search-digit c s (suc i) l, names_zone-digit c s names)

no_sign :
    (c : ℕ) (s : Str) (a b : ℕ)
    → is_digit c ≡ true
    → (if (c == b'+' || c == b'-') && length (c ∷ s) == 5 then a else b) ≡ b
no_sign c s a b h = ground arith

-- No name of a zone begins with a digit.
parse_timezone-digit : (c : ℕ) (s : Str) → is_digit c ≡ true → parse_timezone (c ∷ s) ≡ 0
unfolding parse_timezone
parse_timezone-digit c s h =
    no_sign c s (seconds (unsigned (atoi (c ∷ s)))) (search (c ∷ s) 0 rfc822_timezones) h
    ∙ search-digit c s 0 rfc822_timezones h refl

minus_zero : (n : ℤ) → n -ℤ pos 0 ≡ n
minus_zero (pos n) = ground arith
minus_zero (negsuc n) = ground arith

-- A zone of a sign and a text that begins with a digit has no effect where the stamp has no
-- fraction of a second: the sign is skipped, and no zone is read in what is left.
pub xep82_datetime_sign :
    (libc : Libc) (stamp : Str) (tm : libc.Tm) (sign c : ℕ) (s : Str)
    → libc.strptime stamp ≡ some (tm, sign ∷ c ∷ s)
    → (sign == b'.') ≡ false
    → is_digit c ≡ true
    → xep82_datetime libc stamp ≡ some (libc.mktime tm)
unfolding xep82_datetime stamped offset_of timed zone_offset
xep82_datetime_sign libc stamp tm sign c s read no_dot digit =
    ap (stamped libc) read
    ∙ ap (λ b. timed libc tm (some (zone_offset (if b then skip_digits (c ∷ s) else c ∷ s)))) no_dot
    ∙ ap (λ n. timed libc tm (some n)) (parse_timezone-digit c s digit)
    ∙ ap some (minus_zero (libc.mktime tm))
