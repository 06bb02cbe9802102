-- ===== src/Registration/Kept.antt =====
-- src/core/xep/registration.c: what the callbacks keep.
use mathlib.Core.Path.{subst}
use irssi_xmpp.Prelude.{
  ==_refl, ℕ, ◌+◌, ◌==◌, ◌≡◌, refl, sym, ap, ◌∙◌, Bool, true, false, Option, none, some, [], ◌∷◌,
  if◌then◌else◌, find_first, update_first, count, bit, arith, Option-cases, inl, inr,
}
use irssi_xmpp.Prelude.Int.{negsuc}
use irssi_xmpp.Prelude.Str.{Str, codes, str_eq}
use irssi_xmpp.Registration.{
  Registration, State, Call, World, Sending, at_addr, called, rd_cleanup, write_rd, with_handler,
  with_id, answer, answered, is_reply, handle_register, send_register, register_message,
  register_lm_open_cb, register_lm_close_cb, failed, send,
}
use irssi_xmpp.Loudmouth.Elements.{Message}
use irssi_xmpp.Registration.Settled.{
  is_unref, is_report, is_start, registers, Accounts, Keeps, Keeps-trans, Stands, Modest,
  rd_cleanup-Keeps, called-Keeps, write_rd-Keeps, find_first-update_first,
}

pub Keeps-refl : (s : State) → Keeps s s
Keeps-refl s = record {
  next = refl;
  next_conn = refl;
  fresh = λ a. omega arith;
  once = λ c. refl;
  reported = λ p. refl;
  starts = λ p. refl;
}

-- Where both branches keep it, so does the test.
if-Keeps : (b : Bool) (s t u : State) → Keeps s t → Keeps s u → Keeps s (if b then t else u)
if-Keeps true s t u h k = h
if-Keeps false s t u h k = k

failing-Keeps :
    (closed : Bool) (rd : Registration) (call : Call) (s : State)
    → Stands rd s
    → ((p : Accounts) → is_report p call ≡ registers p rd)
    → ((p : Accounts) → is_start p call ≡ false)
    → ((c : ℕ) → is_unref c call ≡ false)
    → Keeps s (rd_cleanup closed rd (called s (call ∷ [])))
failing-Keeps closed rd call s here report no_start no_unref =
    rd_cleanup-Keeps closed rd (call ∷ []) s here (λ p. omega (arith, ap bit (report p)))
      (λ p. ap (λ b. bit b + 0) (no_start p)) (λ c. ap (λ b. bit b + 0) (no_unref c))

with_handler-Modest : Modest with_handler
with_handler-Modest = record {
  addr = λ rd. refl;
  username = λ rd. refl;
  domain = λ rd. refl;
  lmconn = λ rd. refl;
}

with_id-Modest : (id : Str) → Modest (with_id id)
with_id-Modest id = record {
  addr = λ rd. refl;
  username = λ rd. refl;
  domain = λ rd. refl;
  lmconn = λ rd. refl;
}

module _ (w : World) where
  answer_reports :
      (p : Accounts) (rd : Registration) (o : Option w.lm.Node)
      → count (is_report p) (answer w rd o) ≡ bit (registers p rd)
  unfolding answer
  answer_reports p rd none = omega arith
  answer_reports p rd (some node) = omega arith

  answer_starts :
      (p : Accounts) (rd : Registration) (o : Option w.lm.Node)
      → count (is_start p) (answer w rd o) ≡ 0
  unfolding answer
  answer_starts p rd none = refl
  answer_starts p rd (some node) = refl

  answer_unrefs :
      (c : ℕ) (rd : Registration) (o : Option w.lm.Node) → count (is_unref c) (answer w rd o) ≡ 0
  unfolding answer
  answer_unrefs c rd none = refl
  answer_unrefs c rd (some node) = refl

  answered-Keeps :
      (closed : Bool) (rd : Registration) (message : w.lm.Node) (s : State)
      → Stands rd s
      → Keeps s (rd_cleanup closed rd (called s (answered w rd message)))
  unfolding answered
  answered-Keeps closed rd message s here =
      let o = w.lm.get_child message (codes "error") in
      rd_cleanup-Keeps closed rd (answer w rd o) s here (λ p. answer_reports p rd o)
        (λ p. answer_starts p rd o) (λ c. answer_unrefs c rd o)

  -- A reply to a registration whose message was made is handled without a fault.
  handle_register_returns :
      (closed : Bool) (rd : Registration) (message : w.lm.Node) (s : State) (id : Str)
      → rd.id ≡ some id
      → (t : State) × (handle_register w closed rd message s ≡ some t)
  unfolding handle_register
  handle_register_returns closed rd message s id h =
      elim (Option-cases (w.lm.get_attribute message (codes "id"))) [
        | inl e ↦ (s, rw (h, e, handle_register) refl)
        | inr (given, e) ↦ (
          if str_eq given id then rd_cleanup closed rd (called s (answered w rd message)) else s,
          rw (h, e, handle_register) refl,
        )
      ]

  pub handle_register-Keeps :
      (closed : Bool) (rd : Registration) (message : w.lm.Node) (s t : State)
      → Stands rd s
      → handle_register w closed rd message s ≡ some t
      → Keeps s t
  unfolding handle_register
  handle_register-Keeps closed rd message s t here returned =
      let done = rd_cleanup closed rd (called s (answered w rd message)) in
      elim (Option-cases (is_reply w (w.lm.get_attribute message (codes "id")) rd.id)) [
        | inl e ↦ ground arith
        | inr (same, e) ↦
            let r : (if same then done else s) ≡ t = ground arith in
            subst (λ u. Keeps s u) r
              (if-Keeps same s done s (answered-Keeps closed rd message s here) (Keeps-refl s))
      ]

  pub register_lm_close_cb-Keeps :
      (reason_ok closed : Bool) (rd : Registration) (s : State)
      → Stands rd s
      → Keeps s (register_lm_close_cb w reason_ok closed rd s)
  unfolding register_lm_close_cb
  register_lm_close_cb-Keeps reason_ok closed rd s here = if-Keeps reason_ok s s _ (Keeps-refl s) (
      failing-Keeps closed rd (failed rd.username rd.domain (negsuc 3)) s here (λ p. refl)
        (λ p. refl) (λ c. refl))

  sent-Keeps :
      (rd : Registration) (m : Message) (s : State) → Keeps s (called s (send rd.lmconn m ∷ []))
  sent-Keeps rd m s = called-Keeps (send rd.lmconn m ∷ []) s (λ p. refl) (λ p. refl) (λ c. refl)

  Stands-write_rd :
      (f : Registration → Registration) (rd : Registration) (s : State)
      → Modest f
      → Stands rd s
      → Stands (f rd) (write_rd rd.addr f s)
  unfolding write_rd at_addr
  Stands-write_rd f rd s m here =
      subst
        (λ a.
          find_first (at_addr a) (update_first (at_addr rd.addr) f s.register_data) ≡ some (f rd))
        (sym (m.addr rd))
        (find_first-update_first (at_addr rd.addr) f s.register_data rd here
          (ap (λ n. n == rd.addr) (m.addr rd) ∙ ==_refl rd.addr))

  send_register-Keeps :
      (sending : Sending) (rd : Registration) (s : State)
      → Stands rd s
      → Keeps s (send_register w sending rd s)
  unfolding send_register
  send_register-Keeps sending rd s here =
      let known = write_rd rd.addr (with_id sending.id) s in
      let told = called known (send rd.lmconn (register_message w rd) ∷ []) in
      let h =
        Keeps-trans s known told
          (write_rd-Keeps (with_id sending.id) rd s (with_id-Modest sending.id) here)
          (sent-Keeps rd (register_message w rd) known) in
      if-Keeps sending.sent s told _ h (
        Keeps-trans s told _ h (
          failing-Keeps sending.closed (with_id sending.id rd)
            (failed rd.username rd.domain (negsuc 1)) told
            (Stands-write_rd (with_id sending.id) rd s (with_id-Modest sending.id) here) (λ p. refl)
            (λ p. refl) (λ c. refl)))

  pub register_lm_open_cb-Keeps :
      (sending : Sending) (success : Bool) (rd : Registration) (s : State)
      → Stands rd s
      → Keeps s (register_lm_open_cb w sending success rd s)
  unfolding register_lm_open_cb
  register_lm_open_cb-Keeps sending success rd s here =
      let known = write_rd rd.addr with_handler s in
      if-Keeps success s (send_register w sending (with_handler rd) known) _
        (Keeps-trans s known _ (write_rd-Keeps with_handler rd s with_handler-Modest here) (
          send_register-Keeps sending (with_handler rd) known
            (Stands-write_rd with_handler rd s with_handler-Modest here)))
        (failing-Keeps sending.closed rd (failed rd.username rd.domain (negsuc 2)) s here
          (λ p. refl) (λ p. refl) (λ c. refl))
