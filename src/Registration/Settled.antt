-- ===== src/Registration/Settled.antt =====
-- src/core/xep/registration.c: what becomes of the registrations that are started.
use irssi_xmpp.Prelude.{
  ℕ, ◌+◌, ◌≤◌, ◌==◌, ◌≡◌, refl, sym, ap, ◌∙◌, Bool, true, false, Option, none, some, List, [], ◌∷◌,
  ◌++◌, find_first, remove_first, update_first, count, bit, sum_of, sum_of-append,
  sum_of-remove_first, sum_of-update_first, arith, ltb,
}
use irssi_xmpp.Prelude.Str.{Str}
use irssi_xmpp.Registration.{
  Registration, State, Call, at_addr, called, released, rd_cleanup, write_rd, unref, failed,
  succeed, register_error, started,
}

-- Whether a call releases that connection.
abbrev pub is_unref : ℕ → Call → Bool
is_unref c (unref (some d)) = d == c
is_unref c call = false

-- A choice of accounts, by user and domain.
abbrev pub Accounts : Type 0
Accounts = Str → Option Str → Bool

-- Whether a call reports the end of a registration of such an account.
abbrev pub is_report : Accounts → Call → Bool
is_report p (failed user domain code) = p user domain
is_report p (succeed user domain) = p user domain
is_report p (register_error user domain message) = p user domain
is_report p call = false

-- Whether a call announces the start of one.
abbrev pub is_start : Accounts → Call → Bool
is_start p (started user domain) = p user domain
is_start p call = false

abbrev pub registers : Accounts → Registration → Bool
registers p rd = p rd.username rd.domain

abbrev pub conn_is : ℕ → Option ℕ → Bool
conn_is c none = false
conn_is c (some d) = d == c

abbrev pub holds : ℕ → Registration → Bool
holds c rd = conn_is c rd.lmconn

pub unrefs_released :
    (c : ℕ) (closed handler : Bool) (lmconn : Option ℕ)
    → count (is_unref c) (released closed handler lmconn) ≡ bit (conn_is c lmconn)
unfolding released
unrefs_released c true true none = refl
unrefs_released c true false none = refl
unrefs_released c false true none = refl
unrefs_released c false false none = refl
unrefs_released c true true (some d) = omega arith
unrefs_released c true false (some d) = omega arith
unrefs_released c false true (some d) = omega arith
unrefs_released c false false (some d) = omega arith

pub reports_released :
    (p : Accounts) (closed handler : Bool) (lmconn : Option ℕ)
    → count (is_report p) (released closed handler lmconn) ≡ 0
unfolding released
reports_released p true true lmconn = refl
reports_released p true false lmconn = refl
reports_released p false true lmconn = refl
reports_released p false false lmconn = refl

pub starts_released :
    (p : Accounts) (closed handler : Bool) (lmconn : Option ℕ)
    → count (is_start p) (released closed handler lmconn) ≡ 0
unfolding released
starts_released p true true lmconn = refl
starts_released p true false lmconn = refl
starts_released p false true lmconn = refl
starts_released p false false lmconn = refl

-- How often a connection was released, and how many registrations hold it.
abbrev pub unrefs : ℕ → State → ℕ
unrefs c s = count (is_unref c) s.calls + count (holds c) s.register_data

-- How many ends of such accounts were reported, and how many such registrations are left.
abbrev pub ends : Accounts → State → ℕ
ends p s = count (is_report p) s.calls + count (registers p) s.register_data

-- How many such registrations were started.
abbrev pub starts : Accounts → State → ℕ
starts p s = count (is_start p) s.calls

-- Each connection is either held by one registration or has been released once. Of each account,
-- as many registrations were started as are left or had their end reported. As many were started as
-- connections were made, and the next address is unused.
pub record IsSettled (s : State) : Type 0 where
  pub fresh : (a : ℕ) → s.next ≤ a → count (at_addr a) s.register_data ≡ 0
  pub once : (c : ℕ) → unrefs c s ≡ bit (ltb c s.next_conn)
  pub reported : (p : Accounts) → ends p s ≡ starts p s
  pub connected : starts (λ user domain. true) s ≡ s.next_conn

-- A step that changes none of these.
pub record Keeps (s t : State) : Type 0 where
  pub next : t.next ≡ s.next
  pub next_conn : t.next_conn ≡ s.next_conn
  pub fresh : (a : ℕ) → count (at_addr a) t.register_data ≤ count (at_addr a) s.register_data
  pub once : (c : ℕ) → unrefs c t ≡ unrefs c s
  pub reported : (p : Accounts) → ends p t ≡ ends p s
  pub starts : (p : Accounts) → starts p t ≡ starts p s

pub Keeps-IsSettled : (s t : State) → Keeps s t → IsSettled s → IsSettled t
Keeps-IsSettled s t k i = record {
  fresh = λ a h. omega (arith, i.fresh a (rw (← k.next) h), k.fresh a);
  once = λ c. k.once c ∙ i.once c ∙ ap (λ n. bit (ltb c n)) (sym k.next_conn);
  reported = λ p. k.reported p ∙ i.reported p ∙ sym (k.starts p);
  connected = k.starts (λ user domain. true) ∙ i.connected ∙ sym k.next_conn;
}

pub Keeps-trans : (s t u : State) → Keeps s t → Keeps t u → Keeps s u
Keeps-trans s t u h k = record {
  next = k.next ∙ h.next;
  next_conn = k.next_conn ∙ h.next_conn;
  fresh = λ a. omega (arith, h.fresh a, k.fresh a);
  once = λ c. k.once c ∙ h.once c;
  reported = λ p. k.reported p ∙ h.reported p;
  starts = λ p. k.starts p ∙ h.starts p;
}

-- A registration that stands in the list.
abbrev pub Stands : Registration → State → Type 0
Stands rd s = find_first (at_addr rd.addr) s.register_data ≡ some rd

-- The calls that report the end, and the release.
pub rd_cleanup-Keeps :
    (closed : Bool) (rd : Registration) (l : List Call) (s : State)
    → Stands rd s
    → ((p : Accounts) → count (is_report p) l ≡ bit (registers p rd))
    → ((p : Accounts) → count (is_start p) l ≡ 0)
    → ((c : ℕ) → count (is_unref c) l ≡ 0)
    → Keeps s (rd_cleanup closed rd (called s l))
unfolding rd_cleanup
rd_cleanup-Keeps closed rd l s here one no_start none_yet =
    let q = at_addr rd.addr in
    let taken : (f : Registration → ℕ)
        → sum_of f (remove_first q s.register_data) + f rd ≡ sum_of f s.register_data =
      λ f. sum_of-remove_first f q s.register_data rd here in
    let said : (f : Call → ℕ)
        → sum_of f ((s.calls ++ l) ++ released closed rd.handler rd.lmconn)
          ≡ sum_of f s.calls + sum_of f l + sum_of f (released closed rd.handler rd.lmconn) =
      λ f. omega (
        arith,
        sum_of-append f (s.calls ++ l) (released closed rd.handler rd.lmconn),
        sum_of-append f s.calls l,
      ) in
    record {
      next = refl;
      next_conn = refl;
      fresh = λ a. omega (arith, taken (λ x. bit (at_addr a x)));
      once = λ c. omega (
        arith,
        taken (λ x. bit (holds c x)),
        said (λ x. bit (is_unref c x)),
        unrefs_released c closed rd.handler rd.lmconn,
        none_yet c,
      );
      reported = λ p. omega (
        arith,
        taken (λ x. bit (registers p x)),
        said (λ x. bit (is_report p x)),
        reports_released p closed rd.handler rd.lmconn,
        one p,
      );
      starts = λ p. omega (
        arith,
        said (λ x. bit (is_start p x)),
        starts_released p closed rd.handler rd.lmconn,
        no_start p,
      );
    }

pub called-Keeps :
    (l : List Call) (s : State)
    → ((p : Accounts) → count (is_report p) l ≡ 0)
    → ((p : Accounts) → count (is_start p) l ≡ 0)
    → ((c : ℕ) → count (is_unref c) l ≡ 0)
    → Keeps s (called s l)
called-Keeps l s no_report no_start no_unref = record {
  next = refl;
  next_conn = refl;
  fresh = λ a. omega arith;
  once = λ c. omega (arith, sum_of-append (λ x. bit (is_unref c x)) s.calls l, no_unref c);
  reported = λ p. omega (arith, sum_of-append (λ x. bit (is_report p x)) s.calls l, no_report p);
  starts = λ p. omega (arith, sum_of-append (λ x. bit (is_start p x)) s.calls l, no_start p);
}

-- A write that leaves the address, the account and the connection.
pub record Modest (f : Registration → Registration) : Type 0 where
  pub addr : (rd : Registration) → (f rd).addr ≡ rd.addr
  pub username : (rd : Registration) → (f rd).username ≡ rd.username
  pub domain : (rd : Registration) → (f rd).domain ≡ rd.domain
  pub lmconn : (rd : Registration) → (f rd).lmconn ≡ rd.lmconn

written :
    (f : Registration → Registration) (g : Registration → ℕ) (rd : Registration) (s : State)
    → Stands rd s
    → g (f rd) ≡ g rd
    → sum_of g (update_first (at_addr rd.addr) f s.register_data) ≡ sum_of g s.register_data
written f g rd s here same =
    omega (arith, sum_of-update_first g (at_addr rd.addr) f s.register_data rd here, same)

pub write_rd-Keeps :
    (f : Registration → Registration) (rd : Registration) (s : State)
    → Modest f
    → Stands rd s
    → Keeps s (write_rd rd.addr f s)
unfolding write_rd at_addr
write_rd-Keeps f rd s m here = record {
  next = refl;
  next_conn = refl;
  fresh = λ a.
      omega
        (arith, written f (λ x. bit (at_addr a x)) rd s here (ap (λ n. bit (n == a)) (m.addr rd)));
  once = λ c. omega (
    arith,
    written f (λ x. bit (holds c x)) rd s here (ap (λ o. bit (conn_is c o)) (m.lmconn rd)),
  );
  reported = λ p. omega (
    arith,
    written f (λ x. bit (registers p x)) rd s here
        (ap (λ n. bit (p n (f rd).domain)) (m.username rd)
          ∙ ap (λ d. bit (p rd.username d)) (m.domain rd)),
  );
  starts = λ p. refl;
}

pub find_first-update_first :
    (p : Registration → Bool) (f : Registration → Registration) (l : List Registration)
    (rd : Registration)
    → find_first p l ≡ some rd
    → p (f rd) ≡ true
    → find_first p (update_first p f l) ≡ some (f rd)
unfolding find_first update_first
find_first-update_first p f [] rd h k = ground arith
find_first-update_first p f (x ∷ l) rd h k = ground (arith, find_first-update_first p f l rd)
