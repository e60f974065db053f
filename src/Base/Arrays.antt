-- ===== src/Base/Arrays.antt =====
-- Lists as arrays: std::vector with its elements in places that are read, written and swapped.
use mathlib.Core.Logic.{∥∥₁_elim}
use native.Mathlib.Nat.{ℕ_set}
use mathlib.Core.List.{Perm, Permᴰ}
use mathlib.Core.List.Perm
use Prim.Native.Nat.{ℕ, zero, suc, ◌<◌}
use mathlib.Core.Path.{◌≡◌, refl, sym, ap, ◌∙◌}
use mathlib.Core.List.{List, [], ◌∷◌, ◌++◌, append-nil, perm_middle}
use mathlib.Core.Option.{Option, some}
use native.Mathlib.Omega.{arith}
use bitdb.Base.Lists.{length, get_elem?, take}
use bitdb.Base.Tests.{◌==◌, if◌then◌else◌, ◌>>=◌}

module _ {ℓ} {A : Type ℓ} where
  -- xs[place] = value
  abbrev pub store : ℕ → A → List A → List A
  store place value [] = []
  store (suc place) value (y ∷ xs) = y ∷ store place value xs
  store zero value (y ∷ xs) = value ∷ xs

  -- std::swap(a[i], a[j]); a place that is not there is undefined behaviour.
  unfoldable pub swap : List A → ℕ → ℕ → Option (List A)
  swap a i j = do x ← get_elem? a i; y ← get_elem? a j; some (store j x (store i y a))

  pub get_elem?-inside : (a : List A) (i : ℕ) → i < length a → (x : A) × (get_elem? a i ≡ some x)
  get_elem?-inside [] i h = absurd (omega arith)
  get_elem?-inside (x ∷ a) zero h = (x, refl)
  get_elem?-inside (x ∷ a) (suc i) h = get_elem?-inside a i (omega arith)

  length-store : (place : ℕ) (value : A) (xs : List A) → length (store place value xs) ≡ length xs
  length-store place value [] = refl
  length-store (suc place) value (y ∷ xs) = omega (arith, length-store place value xs)
  length-store zero value (y ∷ xs) = refl

  get_elem?-store :
      (a : List A) (i j : ℕ) (v : A)
      → i < length a
      → get_elem? (store i v a) j ≡ (if i == j then some v else get_elem? a j)
  get_elem?-store [] i j v h = absurd (omega arith)
  get_elem?-store (x ∷ a) zero zero v h = refl
  get_elem?-store (x ∷ a) zero (suc j) v h = ground arith
  get_elem?-store (x ∷ a) (suc i) zero v h = ground arith
  get_elem?-store (x ∷ a) (suc i) (suc j) v h =
      ground (arith, get_elem?-store a i j v (omega arith))

  -- What is written takes the place of what was there.
  store-perm :
      (a : List A) (i : ℕ) (x v : A) → get_elem? a i ≡ some x → Perm (x ∷ store i v a) (v ∷ a)
  store-perm [] i x v h = absurd (ground arith)
  store-perm (y ∷ a) zero x v h = let same : y ≡ x = ground (arith, h) in rw same (Perm.swap v x a)
  store-perm (y ∷ a) (suc i) x v h =
      Perm.trans (Perm.swap y x (store i v a))
        (Perm.trans (Perm.cons y (store-perm a i x v h)) (Perm.swap v y a))

  as_long : {xs ys : List A} → Permᴰ xs ys → length ys ≡ length xs
  as_long (Permᴰ.trans first second) = as_long second ∙ as_long first
  as_long (Permᴰ.swap x y) = omega arith
  as_long (Permᴰ.cons x rest) = omega (arith, as_long rest)
  as_long Permᴰ.nil = omega arith

  -- The same elements in another order are as many.
  pub length-perm : {xs ys : List A} → Perm xs ys → length xs ≡ length ys
  length-perm same = ∥∥₁_elim same (ℕ_set _ _) (λ p. sym (as_long p))

  -- The array `b` is `a` with the places i and j swapped.
  pub record IsSwapped (a : List A) (i j : ℕ) (b : List A) : Type ℓ where
    pub run : swap a i j ≡ some b
    pub same : Perm b a
    pub place :
        (c : ℕ)
        → get_elem? b c
          ≡ (if j == c then get_elem? a i else if i == c then get_elem? a j else get_elem? a c)

  pub swap-IsSwapped :
      (a : List A) (i j : ℕ) → i < length a → j < length a → (b : List A) × IsSwapped a i j b
  unfolding swap
  swap-IsSwapped a i j hi hj =
      let (x, at_i) = get_elem?-inside a i hi in
      let (y, at_j) = get_elem?-inside a j hj in
      let once = store i y a in
      let kept : get_elem? once j ≡ some y = ground (arith, get_elem?-store a i j y hi, at_j) in
      let long : j < length once = omega (arith, length-store i y a) in
      (
        store j x once,
        record {
          run = ground (arith, at_i, at_j);
          same = Perm.cons_inv (Perm.trans (store-perm once j y x kept) (store-perm a i x y at_i));
          place = λ c.
              ground
                (arith, get_elem?-store once j c x long, get_elem?-store a i c y hi, at_i, at_j);
        },
      )

  pub get_elem?-take : (k n : ℕ) (xs : List A) → k < n → get_elem? (take n xs) k ≡ get_elem? xs k
  get_elem?-take k (suc n) [] below = refl
  get_elem?-take (suc k) (suc n) (y ∷ xs) below = get_elem?-take k n xs (omega arith)
  get_elem?-take zero (suc n) (y ∷ xs) below = refl
  get_elem?-take k zero xs below = absurd (omega arith)

  pub get_elem?-append :
      (k : ℕ) (xs more : List A) → k < length xs → get_elem? (xs ++ more) k ≡ get_elem? xs k
  get_elem?-append (suc k) (y ∷ xs) more below = get_elem?-append k xs more (omega arith)
  get_elem?-append zero (y ∷ xs) more below = refl
  get_elem?-append k [] more below = absurd (omega arith)

  -- The last element stands behind the others.
  take-last :
      (n : ℕ) (a : List A) (x : A)
      → length a ≡ suc n
      → get_elem? a n ≡ some x
      → take n a ++ (x ∷ []) ≡ a
  take-last zero (y ∷ []) x size last = let same : y ≡ x = ground (arith, last) in rw same refl
  take-last zero (y ∷ z ∷ a) x size last = absurd (omega arith)
  take-last zero [] x size last = absurd (omega arith)
  take-last (suc n) [] x size last = absurd (omega arith)
  take-last (suc n) (y ∷ a) x size last = ap (λ t. y ∷ t) (take-last n a x (omega arith) last)

  pub append-perm : (a : List A) (x : A) → Perm (a ++ (x ∷ [])) (x ∷ a)
  append-perm a x = rw (append-nil a) at (perm_middle {a = x} a [])

  -- pop_back takes off one element.
  pub take-perm :
      (n : ℕ) (a : List A) (x : A)
      → length a ≡ suc n
      → get_elem? a n ≡ some x
      → Perm (x ∷ take n a) a
  take-perm n a x size last =
      rw (take-last n a x size last) at (Perm.symm (append-perm (take n a) x))
