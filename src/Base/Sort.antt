-- ===== src/Base/Sort.antt =====
-- ORDER BY: a stable insertion sort by a test that says which of two rows comes first.
use mathlib.Core.Path.{◌≡◌, refl}
use mathlib.Core.Bool.{Bool}
use mathlib.Core.List.{List, [], ◌∷◌}
use native.Mathlib.Omega.{arith}
use notification_service.Base.Tests.{if◌then◌else◌}
use notification_service.Base.Lists.{All}
use notification_service.Base.Table.{count}

module _ {ℓ} {A : Type ℓ} (before : A → A → Bool) where
  unfoldable pub insert : A → List A → List A
  insert x [] = x ∷ []
  insert x (y ∷ ys) = let rest = insert x ys in if before x y then x ∷ (y ∷ ys) else y ∷ rest

  unfoldable pub order_by : List A → List A
  unfolding insert
  order_by [] = []
  order_by (x ∷ xs) = insert x (order_by xs)

  count-insert : (p : A → Bool) (x : A) (xs : List A) → count p (insert x xs) ≡ count p (x ∷ xs)
  unfolding insert count
  count-insert p x [] = refl
  count-insert p x (y ∷ ys) = ground (arith, count-insert p x ys)

  -- Sorting neither loses a row nor makes one up.
  pub count-order_by : (p : A → Bool) (xs : List A) → count p (order_by xs) ≡ count p xs
  unfolding order_by count
  count-order_by p [] = refl
  count-order_by p (x ∷ xs) = ground (arith, count-insert p x (order_by xs), count-order_by p xs)

  All-insert {κ} : (P : A → Type κ) (x : A) (xs : List A) → P x → All P xs → All P (insert x xs)
  unfolding insert
  All-insert P x [] h k = (h, tt)
  All-insert P x (y ∷ ys) h k = ground (arith, All-insert P x ys h k.1)

  pub All-order_by {κ} : (P : A → Type κ) (xs : List A) → All P xs → All P (order_by xs)
  unfolding order_by
  All-order_by P [] h = tt
  All-order_by P (x ∷ xs) h = All-insert P x (order_by xs) h.0 (All-order_by P xs h.1)
