-- ===== src/Base/Pairwise.antt =====
-- Lists whose elements stand in a relation to all that follow, with one element put in or taken out.
use mathlib.Core.List.{List, [], ◌∷◌, ◌++◌}
use bitdb.Base.Lists.{All, All-append, All-parts}

abbrev pub Pairwise {ℓ κ} : {A : Type ℓ} → (A → A → Type κ) → List A → Type κ
Pairwise R [] = Unit
Pairwise R (x ∷ xs) = All (R x) xs × Pairwise R xs

module _ {A : Type 0} where
  pub All-insert :
      (P : A → Type 0) (xs ys : List A) (m : A) → All P (xs ++ ys) → P m → All P (xs ++ (m ∷ ys))
  All-insert P xs ys m h hm =
      let (left, right) = All-parts P xs ys h in All-append P xs (m ∷ ys) left (hm, right)

  pub All-remove :
      (P : A → Type 0) (xs ys : List A) (m : A) → All P (xs ++ (m ∷ ys)) → All P (xs ++ ys)
  All-remove P xs ys m h =
      let (left, right) = All-parts P xs (m ∷ ys) h in All-append P xs ys left right.1

  module _ (R : A → A → Type 0) where
    pub Pairwise-insert :
        (xs ys : List A) (m : A)
        → Pairwise R (xs ++ ys)
        → All (λ (x : A). R x m) xs
        → All (R m) ys
        → Pairwise R (xs ++ (m ∷ ys))
    Pairwise-insert [] ys m p before behind = (behind, p)
    Pairwise-insert (x ∷ xs) ys m p before behind =
        (All-insert (R x) xs ys m p.0 before.0, Pairwise-insert xs ys m p.1 before.1 behind)

    pub Pairwise-remove :
        (xs ys : List A) (m : A) → Pairwise R (xs ++ (m ∷ ys)) → Pairwise R (xs ++ ys)
    Pairwise-remove [] ys m p = p.1
    Pairwise-remove (x ∷ xs) ys m p = (All-remove (R x) xs ys m p.0, Pairwise-remove xs ys m p.1)

    pub Pairwise-middle :
        (xs ys : List A) (m : A)
        → Pairwise R (xs ++ (m ∷ ys))
        → All (λ (x : A). R x m) xs × All (R m) ys
    Pairwise-middle [] ys m p = (tt, p.0)
    Pairwise-middle (x ∷ xs) ys m p =
        let (before, behind) = Pairwise-middle xs ys m p.1 in
        (((All-parts (R x) xs (m ∷ ys) p.0).1.0, before), behind)
