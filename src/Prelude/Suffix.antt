-- ===== src/Prelude/Suffix.antt =====
-- A pointer behind another, as lists of the bytes from them on.
use plx.Prelude.{
  ℕ, zero, suc, ◌-◌, ◌≤◌, Bytes, length, drop, Bool, true, false, if◌then◌else◌, [], ◌∷◌, ◌≡◌, refl,
  arith,
}

pub data IsSuffix (u : Bytes) : Bytes → Type 0 where
  whole : IsSuffix u u
  behind : (c : ℕ) {r : Bytes} → IsSuffix u r → IsSuffix u (c ∷ r)

pub IsSuffix-trans : {u r s : Bytes} → IsSuffix u r → IsSuffix r s → IsSuffix u s
IsSuffix-trans h whole = h
IsSuffix-trans h (behind c k) = behind c (IsSuffix-trans h k)

pub IsSuffix-tail : {c : ℕ} {u r : Bytes} → IsSuffix (c ∷ u) r → IsSuffix u r
IsSuffix-tail {c} h = IsSuffix-trans (behind c whole) h

pub IsSuffix-le : {u r : Bytes} → IsSuffix u r → length u ≤ length r
IsSuffix-le whole = omega arith
IsSuffix-le (behind c h) = omega (arith, IsSuffix-le h)

pub nil-IsSuffix : (r : Bytes) → IsSuffix [] r
nil-IsSuffix [] = whole
nil-IsSuffix (c ∷ r) = behind c (nil-IsSuffix r)

pub drop-IsSuffix : (n : ℕ) (r : Bytes) → IsSuffix (drop n r) r
drop-IsSuffix zero r = whole
drop-IsSuffix (suc n) [] = whole
drop-IsSuffix (suc n) (c ∷ r) = behind c (drop-IsSuffix n r)

-- A pointer is found again from the distance.
pub drop-eq_suffix : {u r : Bytes} → IsSuffix u r → drop (length r - length u) r ≡ u
drop-eq_suffix {u} whole = let e : length u - length u ≡ 0 = omega arith in rw e refl
drop-eq_suffix {u} (behind c {r} h) =
    let e : suc (length r) - length u ≡ suc (length r - length u) = omega (arith, IsSuffix-le h) in
    rw e (drop-eq_suffix h)

pub if-IsSuffix :
    (b : Bool) {x y r : Bytes} → IsSuffix x r → IsSuffix y r → IsSuffix (if b then x else y) r
if-IsSuffix true h k = h
if-IsSuffix false h k = k
