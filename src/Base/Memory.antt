-- ===== src/Base/Memory.antt =====
-- Cells by their numbers.
use skywalking_go.Base.{
  ℕ, zero, suc, ◌<◌, ◌≡◌, ◌≢◌, refl, [], ◌∷◌, ◌++◌, List, get_or, length, arith,
}

unfoldable pub put {ℓ} : {A : Type ℓ} → ℕ → A → List A → List A
put i a [] = []
put zero a (x ∷ xs) = a ∷ xs
put (suc i) a (x ∷ xs) = x ∷ put i a xs

module _ {ℓ} {A : Type ℓ} where
  pub get_or-put : (i : ℕ) (a d : A) (xs : List A) → i < length xs → get_or (put i a xs) i d ≡ a
  unfolding put
  get_or-put i a d [] lt = ground (arith, lt)
  get_or-put zero a d (x ∷ xs) lt = refl
  get_or-put (suc i) a d (x ∷ xs) lt = get_or-put i a d xs (omega (arith, lt))

  pub length-put : (i : ℕ) (a : A) (xs : List A) → length (put i a xs) ≡ length xs
  unfolding put
  length-put i a [] = refl
  length-put zero a (x ∷ xs) = refl
  length-put (suc i) a (x ∷ xs) = let h = length-put i a xs in omega arith

  pub get_or-put_other :
      (i j : ℕ) (a d : A) (xs : List A) → i ≢ j → get_or (put i a xs) j d ≡ get_or xs j d
  unfolding put
  get_or-put_other i j a d [] ne = refl
  get_or-put_other zero zero a d (x ∷ xs) ne = ground (arith, ne)
  get_or-put_other zero (suc j) a d (x ∷ xs) ne = refl
  get_or-put_other (suc i) zero a d (x ∷ xs) ne = refl
  get_or-put_other (suc i) (suc j) a d (x ∷ xs) ne =
      get_or-put_other i j a d xs (λ e. ne (omega (arith, e)))

  pub get_or-append :
      (i : ℕ) (d : A) (xs ys : List A) → i < length xs → get_or (xs ++ ys) i d ≡ get_or xs i d
  get_or-append i d [] ys lt = ground (arith, lt)
  get_or-append zero d (x ∷ xs) ys lt = refl
  get_or-append (suc i) d (x ∷ xs) ys lt = get_or-append i d xs ys (omega (arith, lt))

  pub get_or-new : (xs : List A) (a d : A) → get_or (xs ++ (a ∷ [])) (length xs) d ≡ a
  get_or-new [] a d = refl
  get_or-new (x ∷ xs) a d = get_or-new xs a d
