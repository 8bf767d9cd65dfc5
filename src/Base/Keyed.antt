-- ===== src/Base/Keyed.antt =====
-- The keys of rows picked from a table by SELECT ... WHERE ... ORDER BY ... LIMIT.
use Prim.Native.Nat.{ℕ, zero, suc}
use Prim.Native.String.{String}
use mathlib.Core.Path.{◌≡◌, refl, sym}
use mathlib.Core.Bool.{Bool, true, false}
use mathlib.Core.Logic.{inl, inr}
use mathlib.Core.Option.{none}
use mathlib.Core.List.{List, [], ◌∷◌}
use native.Mathlib.Omega.{arith}
use text.Mathlib.Text.{◌==◌}
use text.Mathlib.TextEquality.{eq_iff}
use notification_service.Base.Tests.{Bool-cases}
use notification_service.Base.Lists.{select, take}
use notification_service.Base.Table.{IsKeyed, find, by}
use notification_service.Base.Sort.{insert, order_by}

module _ {A : Type 0} where
  find-select-none : (p q : A → Bool) (xs : List A) → find q xs ≡ none → find q (select p xs) ≡ none
  unfolding find
  find-select-none p q [] h = refl
  find-select-none p q (x ∷ xs) h = ground (arith, find-select-none p q xs)

  find-insert-none :
      (before : A → A → Bool) (q : A → Bool) (x : A) (xs : List A)
      → q x ≡ false
      → find q xs ≡ none
      → find q (insert before x xs) ≡ none
  unfolding insert find
  find-insert-none before q x [] h k = ground (arith, h)
  find-insert-none before q x (y ∷ ys) h k = ground (arith, h, k, find-insert-none before q x ys h)

  find-order_by-none :
      (before : A → A → Bool) (q : A → Bool) (xs : List A)
      → find q xs ≡ none
      → find q (order_by before xs) ≡ none
  unfolding order_by find
  find-order_by-none before q [] h = refl
  find-order_by-none before q (x ∷ xs) h = elim (Bool-cases (q x)) [
    | inl e ↦ let never : true ≡ false = ground (arith, e, h) in cc never
    | inr e ↦
        find-insert-none before q x (order_by before xs) e
          (find-order_by-none before q xs (ground (arith, e, h)))
  ]

  find-take-none :
      (n : ℕ) (q : A → Bool) (xs : List A) → find q xs ≡ none → find q (take n xs) ≡ none
  unfolding find
  find-take-none zero q xs h = refl
  find-take-none (suc n) q [] h = refl
  find-take-none (suc n) q (x ∷ xs) h = ground (arith, find-take-none n q xs)

module _ {A : Type 0} (key : A → String) where
  pub select-IsKeyed : (p : A → Bool) (xs : List A) → IsKeyed key xs → IsKeyed key (select p xs)
  select-IsKeyed p [] h = tt
  select-IsKeyed p (x ∷ xs) h =
      ground (arith, select-IsKeyed p xs h.1, find-select-none p (by key (key x)) xs h.0)

  ordered-IsKeyed :
      (before : A → A → Bool) (x : A) (xs : List A)
      → find (by key (key x)) xs ≡ none
      → IsKeyed key xs
      → IsKeyed key (insert before x xs)
  unfolding insert find
  ordered-IsKeyed before x [] h k = (refl, tt)
  ordered-IsKeyed before x (y ∷ ys) h k =
      let apart : (key x == key y) ≡ false = elim (Bool-cases (key x == key y)) [
        | inr e ↦ e
        | inl e ↦
            let same : (key y == key x) ≡ true =
              (eq_iff (key y) (key x)).1 (sym ((eq_iff (key x) (key y)).0 e)) in
            let never : true ≡ false = ground (arith, same, h) in cc never
      ] in
      let rest = ordered-IsKeyed before x ys (ground (arith, h)) k.1 in
      let fresh = find-insert-none before (by key (key y)) x ys apart k.0 in
      elim (Bool-cases (before x y)) [
        | inl e ↦ ground (arith, e, h, k)
        | inr e ↦ ground (arith, e, rest, fresh)
      ]

  pub order_by-IsKeyed :
      (before : A → A → Bool) (xs : List A) → IsKeyed key xs → IsKeyed key (order_by before xs)
  unfolding order_by
  order_by-IsKeyed before [] h = tt
  order_by-IsKeyed before (x ∷ xs) h =
      ordered-IsKeyed before x (order_by before xs)
        (find-order_by-none before (by key (key x)) xs h.0) (order_by-IsKeyed before xs h.1)

  pub take-IsKeyed : (n : ℕ) (xs : List A) → IsKeyed key xs → IsKeyed key (take n xs)
  take-IsKeyed zero xs h = tt
  take-IsKeyed (suc n) [] h = tt
  take-IsKeyed (suc n) (x ∷ xs) h =
      (find-take-none n (by key (key x)) xs h.0, take-IsKeyed n xs h.1)
