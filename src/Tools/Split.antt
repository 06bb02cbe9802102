-- ===== src/Tools/Split.antt =====
-- The parts of a Jabber ID, against how it is put together.
use mathlib.Core.List.{append_assoc}
use irssi_xmpp.Prelude.{ℕ, ◌≡◌, refl, sym, ap, ◌↔◌, true, false, some, [], ◌∷◌, ◌++◌, arith}
use irssi_xmpp.Prelude.Str.{
  Str, before, after, has, before-append, after-append, has-before, has-append,
}
use irssi_xmpp.Tools.{
  xmpp_extract_resource, xmpp_strip_resource, xmpp_extract_user, xmpp_extract_domain,
}

before-after : (c : ℕ) (s r : Str) → after c s ≡ some r → before c s ++ c ∷ r ≡ s
unfolding before after
before-after c [] r h = ground arith
before-after c (x ∷ s) r h = ground (arith, before-after c s r)

has_here : (c : ℕ) (u s : Str) → has c (u ++ c ∷ s) ≡ true
has_here c u s = rw (has-append c u (c ∷ s)) (unfold has in ground arith)

-- A JID has bare part b and resource r exactly when it is b, '/', r and b holds no '/'.
pub strip-extract_iff :
    (jid b r : Str)
    → ((xmpp_strip_resource jid ≡ b) × (xmpp_extract_resource jid ≡ some r))
      ↔ ((jid ≡ b ++ b'/' ∷ r) × (has b'/' b ≡ false))
unfolding xmpp_strip_resource xmpp_extract_resource
strip-extract_iff jid b r = (
  λ h. (rw (← h.0) (sym (before-after b'/' jid r h.1)), rw (← h.0) (has-before b'/' jid)),
  λ h. rw (h.0) (before-append b'/' b r h.1, after-append b'/' b r h.1),
)

-- The parts of user@domain/resource are read back, where the user holds neither '@' nor '/', and
-- the domain no '/'; the bare part is user@domain.
pub parts_of_full_jid :
    (u d r : Str)
    → has b'@' u ≡ false
    → has b'/' u ≡ false
    → has b'/' d ≡ false
    → (xmpp_extract_user (u ++ b'@' ∷ (d ++ b'/' ∷ r)) ≡ u)
      × (xmpp_extract_domain (u ++ b'@' ∷ (d ++ b'/' ∷ r)) ≡ some d)
      × (xmpp_strip_resource (u ++ b'@' ∷ (d ++ b'/' ∷ r)) ≡ u ++ b'@' ∷ d)
      × (xmpp_extract_resource (u ++ b'@' ∷ (d ++ b'/' ∷ r)) ≡ some r)
parts_of_full_jid u d r hu hs hd = (
  unfold xmpp_extract_user in rw (has_here b'@' u (d ++ b'/' ∷ r)) (before-append b'@' u _ hu),
  unfold xmpp_extract_domain in
      rw (after-append b'@' u _ hu, before-append b'@' u _ hu, hs)
        (ap some (before-append b'/' d r hd)),
  (parts.1 whole).0,
  (parts.1 whole).1,
)
  where
    bare : has b'/' (u ++ b'@' ∷ d) ≡ false
    bare = rw (has-append b'/' u (b'@' ∷ d), hs) (unfold has in hd)

    whole :
        (u ++ b'@' ∷ (d ++ b'/' ∷ r) ≡ (u ++ b'@' ∷ d) ++ b'/' ∷ r)
        × (has b'/' (u ++ b'@' ∷ d) ≡ false)
    whole = (sym (append_assoc u (b'@' ∷ d) (b'/' ∷ r)), bare)

    parts :
        ((xmpp_strip_resource (u ++ b'@' ∷ (d ++ b'/' ∷ r)) ≡ u ++ b'@' ∷ d)
          × (xmpp_extract_resource (u ++ b'@' ∷ (d ++ b'/' ∷ r)) ≡ some r))
        ↔ ((u ++ b'@' ∷ (d ++ b'/' ∷ r) ≡ (u ++ b'@' ∷ d) ++ b'/' ∷ r)
            × (has b'/' (u ++ b'@' ∷ d) ≡ false))
    parts = strip-extract_iff _ (u ++ b'@' ∷ d) r

-- A resource may hold '@'. Where the domain comes with no user, the code then takes what stands
-- before that '@' for the user, the '/' included, and what stands behind it for the domain.
pub at_sign_in_resource :
    (d r s : Str)
    → has b'@' d ≡ false
    → has b'@' r ≡ false
    → (xmpp_extract_user (d ++ b'/' ∷ (r ++ b'@' ∷ s)) ≡ d ++ b'/' ∷ r)
      × (xmpp_extract_domain (d ++ b'/' ∷ (r ++ b'@' ∷ s)) ≡ some s)
at_sign_in_resource d r s hd hr = rw (← append_assoc d (b'/' ∷ r) (b'@' ∷ s)) (
  unfold xmpp_extract_user in rw (has_here b'@' (d ++ b'/' ∷ r) s) (before-append b'@' _ s free),
  unfold xmpp_extract_domain in
      rw (after-append b'@' _ s free, before-append b'@' _ s free, slash) refl,
)
  where
    free : has b'@' (d ++ b'/' ∷ r) ≡ false
    free = rw (has-append b'@' d (b'/' ∷ r), hd) (unfold has in hr)

    slash : has b'/' (d ++ b'/' ∷ r) ≡ true
    slash = has_here b'/' d r
