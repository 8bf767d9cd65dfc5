-- ===== src/Notify/Entries.antt =====
-- internal/notify/service.go: a Go map as the list of its entries.
use notification_service.Base.{
  ◌+◌, ◌≤◌, ◌≡◌, refl, ap, ◌∙◌, String, Bool, false, ◌==◌, none, some, List, [], ◌∷◌, ◌++◌, arith,
  eq_iff, if◌then◌else◌, inl, inr, Bool-cases,
}
use notification_service.Base.Table.{
  find, count, delete, by, find-append, find-delete, find-insert_self,
}
use notification_service.Notify.{put}

module _ {A : Type 0} (key : A → String) where
  find-delete_self : (k : String) (xs : List A) → find (by key k) (delete (by key k) xs) ≡ none
  unfolding find delete
  find-delete_self k [] = refl
  find-delete_self k (x ∷ xs) = ground (arith, find-delete_self k xs)

  pub find-put : (x : A) (xs : List A) → find (by key (key x)) (put key x xs) ≡ some x
  unfolding put
  find-put x xs = find-insert_self key (delete (by key (key x)) xs) x (find-delete_self (key x) xs)

  pub find-put_other :
      (x : A) (xs : List A) (k : String)
      → (key x == k) ≡ false
      → find (by key k) (put key x xs) ≡ find (by key k) xs
  unfolding put find
  find-put_other x xs k apart =
      let kept = find-delete (by key (key x)) (by key k) xs (λ y h.
        ground (arith, apart, h, eq_iff (key y) k, eq_iff (key y) (key x), eq_iff (key x) k)) in
      ground (arith, apart, kept, find-append (by key k) (delete (by key (key x)) xs) (x ∷ []))

  count-append :
      (p : A → Bool) (xs : List A) (x : A)
      → count p (xs ++ x ∷ []) ≡ count p xs + (if p x then 1 else 0)
  unfolding count
  count-append p [] x = ground arith
  count-append p (y ∷ ys) x = ground (arith, count-append p ys x)

  count-delete_le : (p q : A → Bool) (xs : List A) → count p (delete q xs) ≤ count p xs
  unfolding count delete
  count-delete_le p q [] = omega arith
  count-delete_le p q (x ∷ xs) = ground (arith, count-delete_le p q xs)

  count-delete_found :
      (p q : A → Bool) (xs : List A) (x : A)
      → find q xs ≡ some x
      → count p (delete q xs) + (if p x then 1 else 0) ≤ count p xs
  unfolding count delete find
  count-delete_found p q [] x h = cc h
  count-delete_found p q (y ∷ ys) x h = elim (Bool-cases (q y)) [
    | inl e ↦ ground (arith, e, h, count-delete_le p q ys)
    | inr e ↦ ground (arith, e, count-delete_found p q ys x, h)
  ]

  pub count-put_le :
      (p : A → Bool) (x : A) (xs : List A)
      → count p (put key x xs) ≤ count p xs + (if p x then 1 else 0)
  unfolding put
  count-put_le p x xs =
      omega (
        arith,
        count-append p (delete (by key (key x)) xs) x,
        count-delete_le p (by key (key x)) xs,
      )

  -- An entry that takes the place of one with the same answer to the test.
  pub count-put_replaced :
      (p : A → Bool) (x y : A) (xs : List A)
      → find (by key (key x)) xs ≡ some y
      → p x ≡ p y
      → count p (put key x xs) ≤ count p xs
  unfolding put
  count-put_replaced p x y xs found same =
      let kept : count p (put key x xs)
          ≡ count p (delete (by key (key x)) xs) + (if p y then 1 else 0) =
        count-append p (delete (by key (key x)) xs) x
        ∙ ap (λ b. count p (delete (by key (key x)) xs) + (if b then 1 else 0)) same in
      omega (arith, kept, count-delete_found p (by key (key x)) xs y found)
