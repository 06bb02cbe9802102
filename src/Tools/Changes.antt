-- ===== src/Tools/Changes.antt =====
-- What the tests on presences decide.
use irssi_xmpp.Prelude.{ℕ, ◌≡◌, ◌↔◌, false, Option, arith}
use irssi_xmpp.Prelude.Int.{ℤ, ◌≤ℤ◌}
use irssi_xmpp.Prelude.Str.{Str, differ_iff}
use irssi_xmpp.Tools.{
  xmpp_presence_changed, xmpp_priority_out_of_bound, xmpp_priority_min, xmpp_priority_max,
}

-- A presence counts as unchanged exactly when show, status (NULL or a text) and priority agree.
pub xmpp_presence_changed_iff :
    (show old_show : ℕ) (status old_status : Option Str) (priority old_priority : ℤ)
    → (xmpp_presence_changed show old_show status old_status priority old_priority ≡ false)
      ↔ ((show ≡ old_show) × (status ≡ old_status) × (priority ≡ old_priority))
unfolding xmpp_presence_changed
xmpp_presence_changed_iff show old_show status old_status p q =
    ground (arith, differ_iff status old_status)

-- A priority is refused exactly when it lies outside -128 to 127.
pub xmpp_priority_out_of_bound_iff :
    (p : ℤ)
    → (xmpp_priority_out_of_bound p ≡ false) ↔ ((xmpp_priority_min ≤ℤ p) × (p ≤ℤ xmpp_priority_max))
unfolding xmpp_priority_out_of_bound
xmpp_priority_out_of_bound_iff p = ground arith
