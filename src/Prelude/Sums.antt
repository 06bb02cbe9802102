-- ===== src/Prelude/Sums.antt =====
-- Sums over a list, and counting. A permutation keeps them, so they describe a list up to order.
use Prim.Native.Nat.{ℕ, ◌+◌, ◌≤◌}
use mathlib.Core.Path.{◌≡◌, refl, ap, ◌∙◌}
use mathlib.Core.Logic.{∥∥₁_elim}
use mathlib.Core.Bool.{◌&&◌, Bool}
use mathlib.Core.List.{List, [], ◌∷◌, ◌++◌, Perm, Permᴰ}
use mathlib.Core.Option.{none, some}
use native.Mathlib.Omega.{arith}
use native.Mathlib.Nat.{ℕ_set}
use irssi_xmpp.Prelude.Tests.{◌==◌, if◌then◌else◌}
use irssi_xmpp.Prelude.Lists.{find_first, remove_first, update_first}

abbrev pub bit : Bool → ℕ
bit b = if b then 1 else 0

module _ {ℓ} {A : Type ℓ} where
  abbrev pub sum_of : (A → ℕ) → List A → ℕ
  sum_of f [] = 0
  sum_of f (x ∷ xs) = f x + sum_of f xs

  abbrev pub count : (A → Bool) → List A → ℕ
  count p l = sum_of (λ x. bit (p x)) l

  -- The sum over the elements that pass a test.
  abbrev pub picked : (A → Bool) → (A → ℕ) → List A → ℕ
  picked p f l = sum_of (λ x. if p x then f x else 0) l

  sum_of-permᴰ : (f : A → ℕ) {xs ys : List A} → Permᴰ xs ys → sum_of f xs ≡ sum_of f ys
  sum_of-permᴰ f Permᴰ.nil = refl
  sum_of-permᴰ f (Permᴰ.cons e p) = omega (arith, ap f e, sum_of-permᴰ f p)
  sum_of-permᴰ f (Permᴰ.swap e d) = omega (arith, ap f e, ap f d)
  sum_of-permᴰ f (Permᴰ.trans p q) = sum_of-permᴰ f p ∙ sum_of-permᴰ f q

  -- The order of a list does not change its sums.
  pub sum_of-perm : (f : A → ℕ) {xs ys : List A} → Perm xs ys → sum_of f xs ≡ sum_of f ys
  sum_of-perm f {xs} {ys} p = ∥∥₁_elim p (ℕ_set (sum_of f xs) (sum_of f ys)) (λ q. sum_of-permᴰ f q)

  pub sum_of-append : (f : A → ℕ) (xs ys : List A) → sum_of f (xs ++ ys) ≡ sum_of f xs + sum_of f ys
  sum_of-append f [] ys = omega arith
  sum_of-append f (x ∷ xs) ys = omega (arith, sum_of-append f xs ys)

  pub sum_of-cong : (f g : A → ℕ) (l : List A) → ((a : A) → f a ≡ g a) → sum_of f l ≡ sum_of g l
  sum_of-cong f g [] h = refl
  sum_of-cong f g (x ∷ xs) h = omega (arith, h x, sum_of-cong f g xs h)

  -- Nothing is found exactly when nothing passes the test.
  pub find_first-none : (p : A → Bool) (l : List A) → find_first p l ≡ none → count p l ≡ 0
  unfolding find_first
  find_first-none p [] h = refl
  find_first-none p (x ∷ xs) h = ground (arith, find_first-none p xs)

  pub find_first-absent : (p : A → Bool) (l : List A) → count p l ≡ 0 → find_first p l ≡ none
  unfolding find_first
  find_first-absent p [] h = refl
  find_first-absent p (x ∷ xs) h = ground (arith, find_first-absent p xs)

  pub remove_first-absent : (p : A → Bool) (l : List A) → count p l ≡ 0 → remove_first p l ≡ l
  unfolding remove_first
  remove_first-absent p [] h = refl
  remove_first-absent p (x ∷ xs) h = ground (arith, remove_first-absent p xs)

  -- A removal takes out the element that the search finds, once.
  pub sum_of-remove_first :
      (f : A → ℕ) (p : A → Bool) (l : List A) (a : A)
      → find_first p l ≡ some a
      → sum_of f (remove_first p l) + f a ≡ sum_of f l
  unfolding find_first remove_first
  sum_of-remove_first f p [] a h = ground arith
  sum_of-remove_first f p (x ∷ xs) a h = ground (arith, sum_of-remove_first f p xs a)

  -- A write exchanges the element that the search finds for its new value.
  pub sum_of-update_first :
      (f : A → ℕ) (p : A → Bool) (w : A → A) (l : List A) (a : A)
      → find_first p l ≡ some a
      → sum_of f (update_first p w l) + f a ≡ sum_of f l + f (w a)
  unfolding find_first update_first
  sum_of-update_first f p w [] a h = ground arith
  sum_of-update_first f p w (x ∷ xs) a h = ground (arith, sum_of-update_first f p w xs a)

  -- Where a test passes once at most, and passes somewhere at the value k of f, it picks k.
  none_left : (p q : A → Bool) (l : List A) → count p l ≡ 0 → count (λ x. p x && q x) l ≡ 0
  none_left p q [] h = refl
  none_left p q (x ∷ l) h = ground (arith, none_left p q l)

  picked_none : (p : A → Bool) (f : A → ℕ) (l : List A) → count p l ≡ 0 → picked p f l ≡ 0
  picked_none p f [] h = refl
  picked_none p f (x ∷ l) h = ground (arith, picked_none p f l)

  pub picked_once :
      (p : A → Bool) (f : A → ℕ) (k : ℕ) (l : List A)
      → count p l ≤ 1
      → 1 ≤ count (λ x. p x && f x == k) l
      → picked p f l ≡ k
  picked_once p f k [] h m = absurd (omega arith)
  picked_once p f k (x ∷ l) h m =
      ground (arith, picked_once p f k l, none_left p (λ y. f y == k) l, picked_none p f l)

  -- Taking out the first match, where there is one at most, takes out all that passes.
  pub sum_of-remove_once :
      (f : A → ℕ) (p : A → Bool) (l : List A)
      → count p l ≤ 1
      → sum_of f (remove_first p l) + picked p f l ≡ sum_of f l
  unfolding remove_first
  sum_of-remove_once f p [] h = refl
  sum_of-remove_once f p (x ∷ l) h = ground (arith, sum_of-remove_once f p l, picked_none p f l)
