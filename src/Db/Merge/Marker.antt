-- ===== src/Db/Merge/Marker.antt =====
-- bitdb/db.cpp: the record that DB::Merge writes and GetNonMergedFileID reads back.
use mathlib.Core.Path.{subst}
use bitdb.Base.{
  ℕ, zero, suc, ◌-◌, ◌+◌, ◌*◌, ◌/◌, ◌%◌, ◌^◌, ◌<◌, ◌≡◌, refl, true, some, [], ◌∷◌, arith, ltb,
  Bool-cases, inl, inr,
}
use bitdb.Bytes.{Bytes}
use bitdb.Db.Merge.{to_digits, to_string, from_digits, stoi, is_digit}

-- The digits of `n` are read as `n`, and what follows them behind that.
from_digits-to_digits :
    (fuel n : ℕ) (text : Bytes)
    → n < fuel
    → from_digits (to_digits fuel n text) 0 ≡ from_digits text n
unfolding from_digits to_digits
from_digits-to_digits zero n text h = absurd (omega arith)
from_digits-to_digits (suc fuel) n text h =
    let last : n / 10 * 10 + (48 + n % 10 - 48) ≡ n = omega arith in
    elim (Bool-cases (ltb n 10)) [
      | inl small ↦
          let digit : 0 * 10 + (48 + n % 10 - 48) ≡ n = ground arith in
          rw small (ground (arith, digit))
      | inr large ↦ rw large (
          let first = from_digits-to_digits fuel (n / 10) ((48 + n % 10) ∷ text) (ground arith) in
          ground (arith, first, last))
    ]

to_digits-IsDigit :
    (fuel n : ℕ) (text : Bytes)
    → n < fuel
    → (b : ℕ) × (rest : Bytes) × (to_digits fuel n text ≡ b ∷ rest) × (is_digit b ≡ true)
unfolding to_digits
to_digits-IsDigit zero n text h = absurd (omega arith)
to_digits-IsDigit (suc fuel) n text h = elim (Bool-cases (ltb n 10)) [
  | inl small ↦ (48 + n % 10, text, rw small refl, ground arith)
  | inr large ↦
      let (b, rest, starts, digit) =
        to_digits-IsDigit fuel (n / 10) ((48 + n % 10) ∷ text) (ground arith) in
      (b, rest, rw large starts, digit)
]

stoi_of_digits :
    (text rest : Bytes) (b n : ℕ)
    → text ≡ b ∷ rest
    → is_digit b ≡ true
    → from_digits text 0 ≡ n
    → n < 2 ^ 31
    → stoi text ≡ some n
unfolding stoi
stoi_of_digits text rest b n starts digit same h =
    let number : from_digits (b ∷ rest) 0 ≡ n =
      subst (λ (t : Bytes). from_digits t 0 ≡ n) starts same in
    rw (starts, digit, number) (ground arith)

-- Every number that an `int` has room for is read back.
pub stoi-to_string : (n : ℕ) → n < 2 ^ 31 → stoi (to_string n) ≡ some n
unfolding to_string from_digits
stoi-to_string n h =
    let (b, rest, starts, digit) = to_digits-IsDigit (suc n) n [] (omega arith) in
    stoi_of_digits (to_digits (suc n) n []) rest b n starts digit
      (from_digits-to_digits (suc n) n [] (omega arith)) h
