-- ===== src/Plan/Sorting.antt =====
-- `sorted` with a key, for the modules of app/report_v22 that order findings and actions: a key is
-- a tuple of numbers, compared as Python compares tuples, and equal keys keep their order.
use mathlib.Core.List.{Perm}
use mathlib.Core.List.Perm
use search_trust_rd.Prelude.{
  ℕ, ◌≡◌, refl, Bool, true, false, List, [], ◌∷◌, ltb, if◌then◌else◌, All, arith, Bool-cases, inl,
  inr,
}

unfoldable pub tuple_lt : List ℕ → List ℕ → Bool
tuple_lt [] [] = false
tuple_lt [] (y ∷ ys) = true
tuple_lt (x ∷ xs) [] = false
tuple_lt (x ∷ xs) (y ∷ ys) = if ltb x y then true else if ltb y x then false else tuple_lt xs ys

pub tuple_lt_irrefl : (xs : List ℕ) → tuple_lt xs xs ≡ false
unfolding tuple_lt
tuple_lt_irrefl [] = refl
tuple_lt_irrefl (x ∷ xs) = ground (arith, tuple_lt_irrefl xs)

pub tuple_lt_asymm : (xs ys : List ℕ) → tuple_lt xs ys ≡ true → tuple_lt ys xs ≡ false
unfolding tuple_lt
tuple_lt_asymm [] [] h = refl
tuple_lt_asymm [] (y ∷ ys) h = refl
tuple_lt_asymm (x ∷ xs) [] h = ground arith
tuple_lt_asymm (x ∷ xs) (y ∷ ys) h = ground (arith, tuple_lt_asymm xs ys)

-- "not after" goes through: of three tuples in turn, the last is not before the first.
pub tuple_lt_trans :
    (xs ys zs : List ℕ) → tuple_lt ys xs ≡ false → tuple_lt zs ys ≡ false → tuple_lt zs xs ≡ false
unfolding tuple_lt
tuple_lt_trans [] ys [] h k = refl
tuple_lt_trans [] [] (z ∷ zs) h k = refl
tuple_lt_trans [] (y ∷ ys) (z ∷ zs) h k = refl
tuple_lt_trans (x ∷ xs) [] [] h k = ground arith
tuple_lt_trans (x ∷ xs) [] (z ∷ zs) h k = ground arith
tuple_lt_trans (x ∷ xs) (y ∷ ys) [] h k = ground arith
tuple_lt_trans (x ∷ xs) (y ∷ ys) (z ∷ zs) h k = ground (arith, tuple_lt_trans xs ys zs)

module _ {ℓ} {A : Type ℓ} (key : A → List ℕ) where
  unfoldable pub insert_by : A → List A → List A
  insert_by x [] = x ∷ []
  insert_by x (y ∷ ys) = if tuple_lt (key y) (key x) then y ∷ insert_by x ys else x ∷ y ∷ ys

  unfoldable pub sort_by : List A → List A
  unfolding insert_by
  sort_by [] = []
  sort_by (x ∷ xs) = insert_by x (sort_by xs)

  -- no element of the list comes before the key
  abbrev pub IsFirst : List ℕ → List A → Type 0
  IsFirst k xs = All (λ y. tuple_lt (key y) k ≡ false) xs

  abbrev pub IsSorted : List A → Type 0
  IsSorted [] = Unit
  IsSorted (x ∷ xs) = IsFirst (key x) xs × IsSorted xs

  insert_by-perm : (x : A) (xs : List A) → Perm (insert_by x xs) (x ∷ xs)
  unfolding insert_by
  insert_by-perm x [] = Perm.rfl
  insert_by-perm x (y ∷ ys) = elim (Bool-cases (tuple_lt (key y) (key x))) [
    | inl e ↦ rw e (Perm.trans (Perm.cons y (insert_by-perm x ys)) (Perm.swap x y ys))
    | inr e ↦ rw e Perm.rfl
  ]

  pub sort_by-perm : (xs : List A) → Perm (sort_by xs) xs
  unfolding sort_by
  sort_by-perm [] = Perm.rfl
  sort_by-perm (x ∷ xs) = Perm.trans (insert_by-perm x (sort_by xs)) (Perm.cons x (sort_by-perm xs))

  insert_by-All {κ} :
      (P : A → Type κ) (x : A) (xs : List A) → P x → All P xs → All P (insert_by x xs)
  unfolding insert_by
  insert_by-All P x [] p h = (p, tt)
  insert_by-All P x (y ∷ ys) p h = elim (Bool-cases (tuple_lt (key y) (key x))) [
    | inl e ↦ rw e (h.0, insert_by-All P x ys p h.1)
    | inr e ↦ rw e (p, h)
  ]

  pub sort_by-All {κ} : (P : A → Type κ) (xs : List A) → All P xs → All P (sort_by xs)
  unfolding sort_by
  sort_by-All P [] h = tt
  sort_by-All P (x ∷ xs) h = insert_by-All P x (sort_by xs) h.0 (sort_by-All P xs h.1)

  insert_by-All_inv {κ} :
      (P : A → Type κ) (x : A) (xs : List A) → All P (insert_by x xs) → P x × All P xs
  unfolding insert_by
  insert_by-All_inv P x [] h = h
  insert_by-All_inv P x (y ∷ ys) h = elim (Bool-cases (tuple_lt (key y) (key x))) [
    | inl e ↦
        let both : P y × All P (insert_by x ys) = rw e at h in
        let rest = insert_by-All_inv P x ys both.1 in (rest.0, (both.0, rest.1))
    | inr e ↦ rw e at h
  ]

  pub sort_by-All_inv {κ} : (P : A → Type κ) (xs : List A) → All P (sort_by xs) → All P xs
  unfolding sort_by
  sort_by-All_inv P [] h = tt
  sort_by-All_inv P (x ∷ xs) h =
      let both = insert_by-All_inv P x (sort_by xs) h in (both.0, sort_by-All_inv P xs both.1)

  IsFirst-trans : (k l : List ℕ) (xs : List A) → tuple_lt l k ≡ false → IsFirst l xs → IsFirst k xs
  IsFirst-trans k l [] h f = tt
  IsFirst-trans k l (x ∷ xs) h f = (tuple_lt_trans k l (key x) h f.0, IsFirst-trans k l xs h f.1)

  insert_by-IsSorted : (x : A) (xs : List A) → IsSorted xs → IsSorted (insert_by x xs)
  unfolding insert_by
  insert_by-IsSorted x [] h = (tt, tt)
  insert_by-IsSorted x (y ∷ ys) h = elim (Bool-cases (tuple_lt (key y) (key x))) [
    | inl e ↦
        rw e
          (insert_by-All _ x ys (tuple_lt_asymm (key y) (key x) e) h.0, insert_by-IsSorted x ys h.1)
    | inr e ↦ rw e ((e, IsFirst-trans (key x) (key y) ys e h.0), h)
  ]

  pub sort_by-IsSorted : (xs : List A) → IsSorted (sort_by xs)
  unfolding sort_by
  sort_by-IsSorted [] = tt
  sort_by-IsSorted (x ∷ xs) = insert_by-IsSorted x (sort_by xs) (sort_by-IsSorted xs)
