-- ===== src/Base64/RoundTrip.antt =====
-- A decoder for base64, and what the encoder writes.
use plx.Base64.{alphabet, digit, sextet, encode}
use plx.Prelude.{
  ℕ, suc, ◌+◌, ◌*◌, ◌/◌, ◌%◌, ◌^◌, ◌<◌, Bytes, IsBytes, All, length, [], ◌∷◌, true, not, ◌&&◌, ◌==◌,
  if◌then◌else◌, table_holds, table_holds-at, ◌≡◌, refl, arith, ◌≢◌,
}

-- The place of a character in the alphabet.
abbrev place : Bytes → ℕ → ℕ
place [] c = 0
place (d ∷ ds) c = if d == c then 0 else suc (place ds c)

undigit : ℕ → ℕ
undigit c = place alphabet c

-- Base64 as it is read: four characters for three bytes, `=` at the end for those that are missing.
pub decode : Bytes → Bytes
decode (w ∷ x ∷ y ∷ z ∷ rest) =
    let n = undigit w * 2 ^ 18 + undigit x * 2 ^ 12 + undigit y * 2 ^ 6 + undigit z in
    let more = decode rest in
    if y == b'='
    then (undigit w * 4 + undigit x / 16) ∷ []
    else if z == b'='
    then (undigit w * 4 + undigit x / 16) ∷ (undigit x % 16 * 16 + undigit y / 4) ∷ []
    else (n / 2 ^ 16) ∷ (n / 2 ^ 8 % 256) ∷ (n % 256) ∷ more
decode _ = []

-- Every digit is read back, and none is the padding or the `$` that ends the trailer.
digit_table :
    table_holds (λ k. undigit (digit k) == k && not (digit k == b'=') && not (digit k == b'$')) 64
    ≡ true
unfolding table_holds undigit digit
digit_table = refl

undigit-digit : (k : ℕ) → k < 64 → undigit (digit k) ≡ k
undigit-digit k h = ground (arith, table_holds-at _ 64 k digit_table h)

digit-ne-pad : (k : ℕ) → k < 64 → digit k ≢ b'='
digit-ne-pad k h = ground (arith, table_holds-at _ 64 k digit_table h)

digit-ne-dollar : (k : ℕ) → k < 64 → digit k ≢ b'$'
digit-ne-dollar k h = ground (arith, table_holds-at _ 64 k digit_table h)

cons_congr : {x y : ℕ} {xs ys : Bytes} → x ≡ y → xs ≡ ys → x ∷ xs ≡ y ∷ ys
cons_congr p q = cc

sextet-lt : (v s : ℕ) → sextet v s < 64
sextet-lt v s = omega arith

triple_parts :
    (a b c : ℕ)
    → a < 256
    → b < 256
    → c < 256
    → let v = a * 2 ^ 16 + b * 2 ^ 8 + c in
      let n = sextet v 18 * 2 ^ 18 + sextet v 12 * 2 ^ 12 + sextet v 6 * 2 ^ 6 + v % 64 in
      (n / 2 ^ 16 ≡ a) × (n / 2 ^ 8 % 256 ≡ b) × (n % 256 ≡ c)
triple_parts a b c ha hb hc = omega arith

-- What the encoder makes of a text of bytes is decoded to that text.
pub decode-encode : (b : Bytes) → IsBytes b → decode (encode b) ≡ b
unfolding decode encode
decode-encode [] h = refl
decode-encode (a ∷ []) h =
    let v = a * 2 ^ 16 in
    ground (
      arith,
      undigit-digit (sextet v 18) (sextet-lt v 18),
      undigit-digit (sextet v 12) (sextet-lt v 12),
    )
decode-encode (a ∷ b ∷ []) h =
    let v = a * 2 ^ 16 + b * 2 ^ 8 in
    ground (
      arith,
      undigit-digit (sextet v 18) (sextet-lt v 18),
      undigit-digit (sextet v 12) (sextet-lt v 12),
      undigit-digit (sextet v 6) (sextet-lt v 6),
      digit-ne-pad (sextet v 6) (sextet-lt v 6),
    )
decode-encode (a ∷ b ∷ c ∷ rest) h =
    let v = a * 2 ^ 16 + b * 2 ^ 8 + c in
    ground (
      arith,
      undigit-digit (sextet v 18) (sextet-lt v 18),
      undigit-digit (sextet v 12) (sextet-lt v 12),
      undigit-digit (sextet v 6) (sextet-lt v 6),
      undigit-digit (v % 64) (omega arith),
      digit-ne-pad (sextet v 6) (sextet-lt v 6),
      digit-ne-pad (v % 64) (omega arith),
      triple_parts a b c h.0 h.1.0 h.1.1.0,
      decode-encode rest h.1.1.1,
    )

-- The number of characters is what `palloc` is asked for, less the NUL.
length-encode : (b : Bytes) → length (encode b) ≡ (length b + 2) / 3 * 4
unfolding encode
length-encode [] = refl
length-encode (a ∷ []) = refl
length-encode (a ∷ b ∷ []) = refl
length-encode (a ∷ b ∷ c ∷ rest) = omega (arith, length-encode rest)

pub encode-NoDollar : (b : Bytes) → All (λ c. c ≢ b'$') (encode b)
unfolding encode
encode-NoDollar [] = tt
encode-NoDollar (a ∷ []) =
    let v = a * 2 ^ 16 in
    (
      digit-ne-dollar (sextet v 18) (sextet-lt v 18),
      (digit-ne-dollar (sextet v 12) (sextet-lt v 12), omega arith),
    )
encode-NoDollar (a ∷ b ∷ []) =
    let v = a * 2 ^ 16 + b * 2 ^ 8 in
    (
      digit-ne-dollar (sextet v 18) (sextet-lt v 18),
      (
        digit-ne-dollar (sextet v 12) (sextet-lt v 12),
        (digit-ne-dollar (sextet v 6) (sextet-lt v 6), omega arith),
      ),
    )
encode-NoDollar (a ∷ b ∷ c ∷ rest) =
    let v = a * 2 ^ 16 + b * 2 ^ 8 + c in
    (
      digit-ne-dollar (sextet v 18) (sextet-lt v 18),
      (
        digit-ne-dollar (sextet v 12) (sextet-lt v 12),
        (
          digit-ne-dollar (sextet v 6) (sextet-lt v 6),
          (digit-ne-dollar (v % 64) (omega arith), encode-NoDollar rest),
        ),
      ),
    )
