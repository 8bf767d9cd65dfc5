-- ===== src/Base/Table.antt =====
-- A database table as the list of its rows, and the statements on it. Each row has a text key,
-- the primary key; `IsKeyed` says that it is one.
use Prim.Native.Nat.{ℕ, suc, ◌+◌}
use Prim.Native.String.{String}
use mathlib.Core.Path.{◌≡◌, refl, ap, subst}
use mathlib.Core.Bool.{Bool, true, false, ◌&&◌}
use mathlib.Core.Option.{Option, none, some}
use mathlib.Core.List.{List, [], ◌∷◌, ◌++◌}
use native.Mathlib.Omega.{arith}
use text.Mathlib.Text.{◌==◌}
use text.Mathlib.TextEquality.{eq_iff}
use text.Mathlib.TextPositions.{eq_refl}
use notification_service.Base.Tests.{if◌then◌else◌, Bool-cases}
use notification_service.Base.Lists.{length, All, All-weaken, any}
use mathlib.Core.Logic.{inl, inr, ◌≢◌}

module _ {ℓ} {A : Type ℓ} where
  -- SELECT ... LIMIT 1: the first row that passes the test.
  unfoldable pub find : (A → Bool) → List A → Option A
  find p [] = none
  find p (x ∷ xs) = if p x then some x else find p xs

  -- UPDATE ... WHERE.
  unfoldable pub update : (A → Bool) → (A → A) → List A → List A
  update p f [] = []
  update p f (x ∷ xs) = (if p x then f x else x) ∷ update p f xs

  -- RowsAffected of that UPDATE, or SELECT COUNT(*).
  unfoldable pub count : (A → Bool) → List A → ℕ
  count p [] = 0
  count p (x ∷ xs) = let rest = count p xs in if p x then suc rest else rest

  -- DELETE ... WHERE.
  unfoldable pub delete : (A → Bool) → List A → List A
  delete p [] = []
  delete p (x ∷ xs) = let rest = delete p xs in if p x then rest else x ∷ rest

module _ {ℓ} {A : Type ℓ} (key : A → String) where
  -- WHERE id = $1.
  abbrev pub by : String → A → Bool
  by k x = key x == k

  -- No two rows share the key.
  abbrev pub IsKeyed : List A → Type ℓ
  IsKeyed [] = Unit
  IsKeyed (x ∷ xs) = (find (λ y. key y == key x) xs ≡ none) × IsKeyed xs

-- What an UPDATE does to one row that a SELECT finds.
abbrev pub update_row {ℓ} : {A : Type ℓ} → (A → Bool) → (A → A) → Option A → Option A
update_row p f none = none
update_row p f (some x) = some (if p x then f x else x)

-- A row that the WHERE clause passes over stays.
pub update_row-skip {ℓ} :
    {A : Type ℓ} (p : A → Bool) (f : A → A) (o : Option A)
    → ((x : A) → o ≡ some x → p x ≡ false)
    → update_row p f o ≡ o
update_row-skip p f none h = refl
update_row-skip p f (some x) h = rw (h x refl)

-- The row changed, if there is one.
abbrev pub map_row {ℓ} : {A : Type ℓ} → (A → A) → Option A → Option A
map_row f none = none
map_row f (some x) = some (f x)

pub update_row-hit {ℓ} :
    {A : Type ℓ} (p : A → Bool) (f : A → A) (o : Option A)
    → ((x : A) → o ≡ some x → p x ≡ true)
    → update_row p f o ≡ map_row f o
update_row-hit p f none h = refl
update_row-hit p f (some x) h = rw (h x refl) refl

-- RowsAffected of a statement on the one row of a key.
abbrev pub count_row {ℓ} : {A : Type ℓ} → (A → Bool) → Option A → ℕ
count_row p none = 0
count_row p (some x) = if p x then 1 else 0

-- The row found first, else the other.
abbrev pub or_else {ℓ} : {A : Type ℓ} → Option A → Option A → Option A
or_else none y = y
or_else (some x) y = some x

module _ {ℓ} {A : Type ℓ} where
  pub find-append :
      (p : A → Bool) (xs ys : List A) → find p (xs ++ ys) ≡ or_else (find p xs) (find p ys)
  unfolding find
  find-append p [] ys = refl
  find-append p (x ∷ xs) ys = ground (arith, find-append p xs ys)

  pub length-delete : (p : A → Bool) (xs : List A) → count p xs + length (delete p xs) ≡ length xs
  unfolding count delete
  length-delete p [] = omega arith
  length-delete p (x ∷ xs) = ground (arith, length-delete p xs)

  -- A row that the DELETE does not name stays.
  pub find-delete :
      (p q : A → Bool)
      → (xs : List A) → ((x : A) → q x ≡ true → p x ≡ false)
      → find q (delete p xs) ≡ find q xs
  unfolding find delete
  find-delete p q [] h = refl
  find-delete p q (x ∷ xs) h = ground (arith, h x, find-delete p q xs h)

  pub count-update_none :
      (p : A → Bool) (f : A → A) (xs : List A) → count p xs ≡ 0 → update p f xs ≡ xs
  unfolding count update
  count-update_none p f [] h = refl
  count-update_none p f (x ∷ xs) h = ground (arith, count-update_none p f xs)

  pub find-holds : (p : A → Bool) (xs : List A) (x : A) → find p xs ≡ some x → p x ≡ true
  unfolding find
  find-holds p [] x h = cc
  find-holds p (y ∷ ys) x h = ground (arith, find-holds p ys x)

  -- An update that keeps each row's answer to a test keeps whether the test finds a row.
  pub find-update-none :
      (p q : A → Bool) (f : A → A) (xs : List A)
      → ((x : A) → q (f x) ≡ q x)
      → find q xs ≡ none
      → find q (update p f xs) ≡ none
  unfolding find update
  find-update-none p q f [] e h = refl
  find-update-none p q f (x ∷ xs) e h = ground (arith, e x, find-update-none p q f xs e)

  pub find-delete-none :
      (p q : A → Bool) (xs : List A) → find q xs ≡ none → find q (delete p xs) ≡ none
  unfolding find delete
  find-delete-none p q [] h = refl
  find-delete-none p q (x ∷ xs) h = ground (arith, find-delete-none p q xs)

module _ {ℓ} {A : Type ℓ} (key : A → String) where
  pub find_key : (k : String) (xs : List A) (x : A) → find (by key k) xs ≡ some x → key x ≡ k
  find_key k xs x h = (eq_iff (key x) k).0 (find-holds (by key k) xs x h)

  -- Reading a row by its key after an UPDATE that leaves the keys alone.
  pub find-update :
      (p : A → Bool) (f : A → A) (k : String) (xs : List A)
      → ((x : A) → key (f x) ≡ key x)
      → find (by key k) (update p f xs) ≡ update_row p f (find (by key k) xs)
  unfolding find update
  find-update p f k [] e = refl
  find-update p f k (x ∷ xs) e = ground (arith, ap (λ i. i == k) (e x), find-update p f k xs e)

  key_if : (b : Bool) (f : A → A) (x : A) → key (f x) ≡ key x → key (if b then f x else x) ≡ key x
  key_if true f x e = e
  key_if false f x e = refl

  pub update-IsKeyed :
      (p : A → Bool) (f : A → A) (xs : List A)
      → ((x : A) → key (f x) ≡ key x)
      → IsKeyed key xs
      → IsKeyed key (update p f xs)
  unfolding update
  update-IsKeyed p f [] e h = tt
  update-IsKeyed p f (x ∷ xs) e h = (
    rw (key_if (p x) f x (e x))
        (find-update-none p (by key (key x)) f xs (λ y. ap (λ i. i == key x) (e y)) h.0),
    update-IsKeyed p f xs e h.1,
  )

  pub delete-IsKeyed : (p : A → Bool) (xs : List A) → IsKeyed key xs → IsKeyed key (delete p xs)
  unfolding delete
  delete-IsKeyed p [] h = tt
  delete-IsKeyed p (x ∷ xs) h =
      ground (arith, delete-IsKeyed p xs h.1, find-delete-none p (by key (key x)) xs h.0)

  -- INSERT of a row whose key is new.
  pub insert-IsKeyed :
      (xs : List A) (x : A)
      → find (by key (key x)) xs ≡ none
      → IsKeyed key xs
      → IsKeyed key (xs ++ x ∷ [])
  unfolding find
  insert-IsKeyed [] x h k = (refl, tt)
  insert-IsKeyed (y ∷ ys) x h k = (
    ground (
      arith,
      find-append (by key (key y)) ys (x ∷ []),
      eq_iff (key x) (key y),
      eq_iff (key y) (key x),
    ),
    insert-IsKeyed ys x (ground arith) k.1,
  )

  pub count-by-none :
      (q : A → Bool) (k : String) (xs : List A)
      → find (by key k) xs ≡ none
      → count (λ x. key x == k && q x) xs ≡ 0
  unfolding find count
  count-by-none q k [] h = refl
  count-by-none q k (x ∷ xs) h = ground (arith, count-by-none q k xs)

  -- Where the key is one, UPDATE ... WHERE id = $1 AND q counts the one row of the key.
  pub count-by :
      (q : A → Bool) (k : String) (xs : List A)
      → IsKeyed key xs
      → count (λ x. key x == k && q x) xs ≡ count_row q (find (by key k) xs)
  unfolding find count
  count-by q k [] h = refl
  count-by q k (x ∷ xs) h = elim (Bool-cases (key x == k)) [
    | inl e ↦
        let rest =
          count-by-none q k xs
            (subst (λ i. find (λ y. key y == i) xs ≡ none) ((eq_iff (key x) k).0 e) h.0) in
        ground (arith, rest)
    | inr e ↦ ground (arith, count-by q k xs h.1)
  ]

module _ {ℓ} {A : Type ℓ} where
  -- A row that is found is counted.
  pub count-of_find : (p : A → Bool) (xs : List A) (x : A) → find p xs ≡ some x → count p xs ≢ 0
  unfolding find count
  count-of_find p [] x h = cc
  count-of_find p (y ∷ ys) x h = ground (arith, count-of_find p ys x)

module _ {ℓ} {A : Type ℓ} (key : A → String) where
  found_later :
      (x : A) (ys : List A)
      → find (by key (key x)) ys ≡ none
      → (y : A) → find (by key (key y)) ys ≡ some y
      → find (by key (key y)) (x ∷ ys) ≡ some y
  unfolding find
  found_later x ys h y e = elim (Bool-cases (key x == key y)) [
    | inl same ↦ cc (e, subst (λ i. find (by key i) ys ≡ none) ((eq_iff (key x) (key y)).0 same) h)
    | inr apart ↦ rw apart e
  ]

  -- Each row of a keyed table is the one that its key finds.
  pub All-found : (xs : List A) → IsKeyed key xs → All (λ x. find (by key (key x)) xs ≡ some x) xs
  unfolding find
  All-found [] h = tt
  All-found (x ∷ xs) h = (
    rw (eq_refl (key x)),
    All-weaken (λ y. find (by key (key y)) xs ≡ some y)
        (λ y. find (by key (key y)) (x ∷ xs) ≡ some y) (found_later x xs h.0) xs (All-found xs h.1),
  )

  pub find-insert_self :
      (xs : List A) (x : A)
      → find (by key (key x)) xs ≡ none
      → find (by key (key x)) (xs ++ x ∷ []) ≡ some x
  find-insert_self xs x h =
      rw (find-append (by key (key x)) xs (x ∷ []), h) (unfold find in rw (eq_refl (key x)))

module _ {ℓ} {A : Type ℓ} (p : A → Bool) where
  -- The first row that passes a test which no earlier row passes.
  pub find-last :
      (xs : List A) (x : A) → any p xs ≡ false → p x ≡ true → find p (xs ++ x ∷ []) ≡ some x
  unfolding find
  find-last [] x h k = ground (arith, k)
  find-last (y ∷ ys) x h k = ground (arith, k, find-last ys x)

  pub any-last : (xs : List A) (x : A) → p x ≡ true → any p (xs ++ x ∷ []) ≡ true
  any-last [] x k = ground (arith, k)
  any-last (y ∷ ys) x k = ground (arith, any-last ys x k)

module _ {ℓ} {A : Type ℓ} where
  -- The row that is found has what every row has.
  pub All-find {κ} :
      (P : A → Type κ) (q : A → Bool) (xs : List A) (x : A) → All P xs → find q xs ≡ some x → P x
  unfolding find
  All-find P q [] x h e = cc
  All-find P q (y ∷ ys) x h e = elim (Bool-cases (q y)) [
    | inl hit ↦ subst P (ground (arith, e, hit)) h.0
    | inr miss ↦ All-find P q ys x h.1 (ground (arith, e, miss))
  ]
