-- ===== src/Muc/Modes/Kept.antt =====
-- src/core/xep/muc-nicklist.c: the affiliation and the role that setting the modes writes.
use irssi_xmpp.Prelude.{ℕ, zero, suc, ◌≡◌, ◌↔◌, refl, sym, ap, ◌∙◌, ==_refl, arith, false}
use irssi_xmpp.Muc.{Affiliation, Role, Nick}
use irssi_xmpp.Muc.Modes.{
  affiliation_rank, role_rank, with_affiliation, with_role, xmpp_nicklist_set_modes,
  xmpp_nicklist_modes_changed,
}

role-affiliation : (r : Role) (n : Nick) → (with_role r n).affiliation ≡ n.affiliation
role-affiliation Role.nothing n = refl
role-affiliation Role.moderator n = refl
role-affiliation Role.participant n = refl
role-affiliation Role.visitor n = refl

role-role : (r : Role) (n : Nick) → (with_role r n).role ≡ n.role
role-role Role.nothing n = refl
role-role Role.moderator n = refl
role-role Role.participant n = refl
role-role Role.visitor n = refl

affiliation_kept : (a : Affiliation) (n : Nick) → (with_affiliation a n).affiliation ≡ n.affiliation
affiliation_kept Affiliation.nothing n = refl
affiliation_kept Affiliation.owner n = refl
affiliation_kept Affiliation.admin n = refl
affiliation_kept Affiliation.member n = refl
affiliation_kept Affiliation.outcast n = refl

role_kept : (a : Affiliation) (n : Nick) → (with_affiliation a n).role ≡ n.role
role_kept Affiliation.nothing n = refl
role_kept Affiliation.owner n = refl
role_kept Affiliation.admin n = refl
role_kept Affiliation.member n = refl
role_kept Affiliation.outcast n = refl

role-addr : (r : Role) (n : Nick) → (with_role r n).addr ≡ n.addr
role-addr Role.nothing n = refl
role-addr Role.moderator n = refl
role-addr Role.participant n = refl
role-addr Role.visitor n = refl

role-nick : (r : Role) (n : Nick) → (with_role r n).nick ≡ n.nick
role-nick Role.nothing n = refl
role-nick Role.moderator n = refl
role-nick Role.participant n = refl
role-nick Role.visitor n = refl

addr_kept : (a : Affiliation) (n : Nick) → (with_affiliation a n).addr ≡ n.addr
addr_kept Affiliation.nothing n = refl
addr_kept Affiliation.owner n = refl
addr_kept Affiliation.admin n = refl
addr_kept Affiliation.member n = refl
addr_kept Affiliation.outcast n = refl

nick_kept : (a : Affiliation) (n : Nick) → (with_affiliation a n).nick ≡ n.nick
nick_kept Affiliation.nothing n = refl
nick_kept Affiliation.owner n = refl
nick_kept Affiliation.admin n = refl
nick_kept Affiliation.member n = refl
nick_kept Affiliation.outcast n = refl

module _ (a : Affiliation) (r : Role) (n : Nick) where
  pub set_modes_affiliation : (xmpp_nicklist_set_modes a r n).affiliation ≡ a
  unfolding xmpp_nicklist_set_modes
  set_modes_affiliation =
      let m : Nick = record n { affiliation = a; role = r } in
      role-affiliation r (with_affiliation a m) ∙ affiliation_kept a m

  pub set_modes_addr : (xmpp_nicklist_set_modes a r n).addr ≡ n.addr
  unfolding xmpp_nicklist_set_modes
  set_modes_addr =
      let m : Nick = record n { affiliation = a; role = r } in
      role-addr r (with_affiliation a m) ∙ addr_kept a m

  pub set_modes_nick : (xmpp_nicklist_set_modes a r n).nick ≡ n.nick
  unfolding xmpp_nicklist_set_modes
  set_modes_nick =
      let m : Nick = record n { affiliation = a; role = r } in
      role-nick r (with_affiliation a m) ∙ nick_kept a m

  pub set_modes_role : (xmpp_nicklist_set_modes a r n).role ≡ r
  unfolding xmpp_nicklist_set_modes
  set_modes_role =
      let m : Nick = record n { affiliation = a; role = r } in
      role-role r (with_affiliation a m) ∙ role_kept a m

affiliation_of : ℕ → Affiliation
affiliation_of zero = Affiliation.nothing
affiliation_of (suc zero) = Affiliation.owner
affiliation_of (suc (suc zero)) = Affiliation.admin
affiliation_of (suc (suc (suc zero))) = Affiliation.member
affiliation_of (suc (suc (suc (suc n)))) = Affiliation.outcast

affiliation_of_rank : (a : Affiliation) → affiliation_of (affiliation_rank a) ≡ a
unfolding affiliation_of
affiliation_of_rank Affiliation.nothing = refl
affiliation_of_rank Affiliation.owner = refl
affiliation_of_rank Affiliation.admin = refl
affiliation_of_rank Affiliation.member = refl
affiliation_of_rank Affiliation.outcast = refl

role_of : ℕ → Role
role_of zero = Role.nothing
role_of (suc zero) = Role.moderator
role_of (suc (suc zero)) = Role.participant
role_of (suc (suc (suc n))) = Role.visitor

role_of_rank : (r : Role) → role_of (role_rank r) ≡ r
unfolding role_of
role_of_rank Role.nothing = refl
role_of_rank Role.moderator = refl
role_of_rank Role.participant = refl
role_of_rank Role.visitor = refl

-- Modes count as changed exactly when the affiliation or the role differs.
pub xmpp_nicklist_modes_changed_iff :
    (n : Nick) (a : Affiliation) (r : Role)
    → (xmpp_nicklist_modes_changed n a r ≡ false) ↔ ((n.affiliation ≡ a) × (n.role ≡ r))
unfolding xmpp_nicklist_modes_changed
xmpp_nicklist_modes_changed_iff n a r = (
  λ h.
      let e : affiliation_rank n.affiliation ≡ affiliation_rank a = ground arith in
      let f : role_rank n.role ≡ role_rank r = ground arith in
      (
        sym (affiliation_of_rank n.affiliation) ∙ ap affiliation_of e ∙ affiliation_of_rank a,
        sym (role_of_rank n.role) ∙ ap role_of f ∙ role_of_rank r,
      ),
  λ h. rw (h.0, h.1, ==_refl (affiliation_rank a), ==_refl (role_rank r)) refl,
)
