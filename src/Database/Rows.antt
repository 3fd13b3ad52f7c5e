-- ===== src/Database/Rows.antt =====
-- Rows that a statement finds, changes or deletes.
use custom_file_operation_pr.Prelude.{
  ◌≡◌, refl, Bool, true, false, ◌&&◌, ◌||◌, none, some, List, [], ◌∷◌, ◌++◌, any, All, arith,
}
use custom_file_operation_pr.Database.Statements.{find, update_where, delete_where}

module _ {ℓ} {A : Type ℓ} (p : A → Bool) where
  pub find-holds : (xs : List A) {x : A} → find p xs ≡ some x → p x ≡ true
  unfolding find
  find-holds [] h = cc
  find-holds (y ∷ xs) {x} h = ground (arith, find-holds xs {x = x})

  pub find-any : (xs : List A) {x : A} → find p xs ≡ some x → any p xs ≡ true
  unfolding find
  find-any [] h = cc
  find-any (y ∷ xs) {x} h = ground (arith, find-any xs {x = x})

  pub any-false-find : (xs : List A) → any p xs ≡ false → find p xs ≡ none
  unfolding find
  any-false-find [] h = refl
  any-false-find (y ∷ xs) h = ground (arith, any-false-find xs)

  pub any-append : (xs ys : List A) → any p (xs ++ ys) ≡ (any p xs || any p ys)
  any-append [] ys = refl
  any-append (x ∷ xs) ys = ground (arith, any-append xs ys)

  pub any-delete_where :
      (q : A → Bool) (xs : List A) → any (λ x. p x && q x) (delete_where p xs) ≡ false
  unfolding delete_where
  any-delete_where q [] = refl
  any-delete_where q (x ∷ xs) = ground (arith, any-delete_where q xs)

  -- Deletion keeps the rows that its test spares.
  pub any-delete_where_ne :
      (q : A → Bool) (xs : List A)
      → ((x : A) → q x ≡ true → p x ≡ false)
      → any q (delete_where p xs) ≡ any q xs
  unfolding delete_where
  any-delete_where_ne q [] h = refl
  any-delete_where_ne q (x ∷ xs) h = ground (arith, h x, any-delete_where_ne q xs h)

  pub delete_where-none : (xs : List A) → any p xs ≡ false → delete_where p xs ≡ xs
  unfolding delete_where
  delete_where-none [] h = refl
  delete_where-none (x ∷ xs) h = ground (arith, delete_where-none xs)

  pub delete_where-append :
      (xs ys : List A) → delete_where p (xs ++ ys) ≡ delete_where p xs ++ delete_where p ys
  unfolding delete_where
  delete_where-append [] ys = refl
  delete_where-append (x ∷ xs) ys = ground (arith, delete_where-append xs ys)

  -- An update that keeps the test's answer is seen by the first row that is found.
  pub find-update_where :
      (f : A → A) (xs : List A) {x : A}
      → ((y : A) → p (f y) ≡ p y)
      → find p xs ≡ some x
      → find p (update_where p f xs) ≡ some (f x)
  unfolding find update_where
  find-update_where f [] keep h = cc
  find-update_where f (y ∷ xs) {x} keep h =
      ground (arith, keep y, find-update_where f xs {x = x} keep)

  pub find-update_where_ne :
      (q : A → Bool) (f : A → A) (xs : List A)
      → ((y : A) → q (f y) ≡ q y)
      → ((y : A) → q y ≡ true → p y ≡ false)
      → find q (update_where p f xs) ≡ find q xs
  unfolding find update_where
  find-update_where_ne q f [] keep apart = refl
  find-update_where_ne q f (y ∷ xs) keep apart =
      ground (arith, keep y, apart y, find-update_where_ne q f xs keep apart)

  -- An update followed by one that undoes it.
  pub update_where-undo :
      (f g : A → A) (xs : List A)
      → ((y : A) → p (f y) ≡ p y)
      → All (λ y. p y ≡ true → g (f y) ≡ y) xs
      → update_where p g (update_where p f xs) ≡ xs
  unfolding update_where
  update_where-undo f g [] keep back = refl
  update_where-undo f g (y ∷ xs) keep back =
      ground (arith, keep y, back.0, update_where-undo f g xs keep back.1)

  pub find-append_last :
      (xs : List A) (x : A) → any p xs ≡ false → p x ≡ true → find p (xs ++ x ∷ []) ≡ some x
  unfolding find
  find-append_last [] x none_yet h = ground arith
  find-append_last (y ∷ xs) x none_yet h = ground (arith, find-append_last xs x)
