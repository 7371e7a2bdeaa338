-- ===== src/Cobol/Picture/Digits.antt =====
-- The types of pictures of digits, written out or with a repeat count.
use plx.Cobol.Picture.{
  widest, PicState, start, add_digits, pic_round, numeric_type, decimal, pic_type, usage_type,
  cob_type_from_pic,
}
use plx.Cobol.Picture.Laws.{
  cob_type_from_pic-Reads, nines, counted, IsUncounted, Reads, Reads-step, Reads-nil, Reads-total,
  Reads-nines, Reads-counted, IsBounded, add_digits-IsBounded,
}
use plx.Prelude.Result.{ok}
use plx.Prelude.{
  ℕ, suc, ◌+◌, ◌^◌, ◌≤◌, ◌<◌, Bytes, codes, length, Bool, true, false, ◌||◌, ltb, ltb→lt, leb,
  leb→le, table_holds, table_holds-at, [], ◌++◌, append-nil, Option, none, some, ◌≡◌, refl, ap, sym,
  ◌∙◌, ◌⊎◌, arith, Bool-cases, inl, inr,
}

-- The narrowest of integer, bigint and numeric that holds every number of so many digits; a
-- numeric is declared with at most 1000.
abbrev pub Holds : ℕ → Bytes → Type 0
Holds n typ =
    (typ ≡ codes "integer") × (10 ^ n ≤ 2 ^ 31)
    ⊎ (typ ≡ codes "bigint") × (10 ^ n ≤ 2 ^ 63) × (2 ^ 31 < 10 ^ n)
    ⊎ (typ ≡ codes "numeric(" ++ (decimal n ++ codes ")")) × (n ≤ 1000) × (2 ^ 63 < 10 ^ n)

integer_table : table_holds (λ n. leb (10 ^ n) (2 ^ 31)) 10 ≡ true
unfolding table_holds
integer_table = refl

bigint_table : table_holds (λ n. leb (10 ^ n) (2 ^ 63)) 19 ≡ true
unfolding table_holds
bigint_table = refl

over_integer_table : table_holds (λ n. leb n 9 || ltb (2 ^ 31) (10 ^ n)) 19 ≡ true
unfolding table_holds
over_integer_table = refl

over_bigint_table : table_holds (λ n. leb n 18 || ltb (2 ^ 63) (10 ^ n)) 1001 ≡ true
unfolding table_holds
over_bigint_table = refl

over :
    (bound top m n : ℕ)
    → table_holds (λ k. leb k m || ltb top (10 ^ k)) bound ≡ true
    → n < bound
    → leb n m ≡ false
    → top < 10 ^ n
over bound top m n table small far =
    ltb→lt top (10 ^ n)
      (ground (arith, table_holds-at (λ k. leb k m || ltb top (10 ^ k)) bound n table small, far))

start-IsBounded : IsBounded start
start-IsBounded = ground arith

-- The state behind `n` digits of the integer part.
abbrev whole : ℕ → PicState
whole n = record start { intdig = n }

add_digits-start : (n : ℕ) → n ≤ widest → add_digits start n ≡ whole n
unfolding add_digits
add_digits-start n h = ground arith

pic_type-whole :
    (line n : ℕ)
    → 0 < n
    → n ≤ 1000
    → (typ : Bytes) × (pic_type line (whole n) ≡ ok typ) × Holds n typ
unfolding pic_type
pic_type-whole line n h fits = elim (Bool-cases (leb n 9)) [
  | inl e ↦ (
    codes "integer",
    ground arith,
    inl (refl, leb→le _ _ (table_holds-at _ 10 n integer_table (ground arith))),
  )
  | inr e ↦ elim (Bool-cases (leb n 18)) [
    | inl e' ↦ (
      codes "bigint",
      ground arith,
      inr (
          inl (
            refl,
            leb→le _ _ (table_holds-at _ 19 n bigint_table (ground arith)),
            over 19 (2 ^ 31) 9 n over_integer_table (ground arith) e,
          )),
    )
    | inr e' ↦ (
      codes "numeric(" ++ (decimal n ++ codes ")"),
      ground arith,
      inr (inr (refl, fits, over 1001 (2 ^ 63) 18 n over_bigint_table (omega arith) e')),
    )
  ]
]

module _ (ci : Bytes → Bytes → Bool) (line : ℕ) where
  -- A repeat count on a `9` at the front of a picture stands for so many digits, whatever follows
  -- that is not itself a repeat count.
  pub cob_type_from_pic-counted :
      (n : ℕ) (r : Bytes) (usage : Option Bytes)
      → IsUncounted r
      → cob_type_from_pic ci line (counted (suc n) ++ r) usage
        ≡ cob_type_from_pic ci line (nines (suc n) ++ r) usage
  cob_type_from_pic-counted n r usage free =
      let (st, reads, _) =
        Reads-total (suc (length r)) (add_digits start (suc n)) r (omega arith)
          (add_digits-IsBounded start (suc n) start-IsBounded) in
      cob_type_from_pic-Reads ci line _ usage st (Reads-counted start (suc n) r st reads)
      ∙ sym (cob_type_from_pic-Reads ci line _ usage st (Reads-nines start n r st free reads))

  -- A picture of one to 1000 digits has a type that holds every number of so many digits, and it is
  -- the narrowest of integer, bigint and numeric.
  pub cob_type_from_pic-Holds :
      (n : ℕ)
      → 0 < n
      → n ≤ 1000
      → (typ : Bytes) × (cob_type_from_pic ci line (counted n) none ≡ some (ok typ)) × Holds n typ
  unfolding usage_type
  cob_type_from_pic-Holds n some_digit fits =
      let (typ, e, holds) = pic_type-whole line n some_digit fits in
      let reads : Reads start (counted n ++ []) (whole n) =
        Reads-counted start n [] (whole n)
          (rw (add_digits-start n (omega arith)) (Reads-nil (whole n))) in
      let pic : counted n ++ [] ≡ counted n = append-nil _ in
      (
        typ,
        cob_type_from_pic-Reads ci line (counted n) none (whole n) (rw (sym pic) reads)
            ∙ ap (λ t. some t) e,
        holds,
      )

  -- A signed picture of `m` digits, the implied point and `k` digits is a numeric of `m + k` digits
  -- with `k` behind the point, where `m` and `k` are at most 1000000 and not both 0.
  pub cob_type_from_pic_fixed :
      (m k : ℕ)
      → 0 < m + k
      → m ≤ widest
      → k ≤ widest
      → cob_type_from_pic ci line (codes "S" ++ (counted m ++ (codes "V" ++ counted k))) none
        ≡ some (ok (numeric_type (m + k) k))
  unfolding pic_round pic_type add_digits usage_type
  cob_type_from_pic_fixed m k some_digit fits fits' =
      let st = record (whole m) { scale = k; sawv = true } in
      let counts : add_digits (record (whole m) { sawv = true }) k ≡ st = ground arith in
      let pic : counted k ++ [] ≡ counted k = append-nil _ in
      let behind : Reads (record (whole m) { sawv = true }) (counted k) st =
        rw (sym pic)
          (Reads-counted (record (whole m) { sawv = true }) k [] st (rw counts (Reads-nil st))) in
      let front : Reads start (counted m ++ (codes "V" ++ counted k)) st =
        Reads-counted start m _ st
          (rw (add_digits-start m fits) (Reads-step (whole m) b'V' (counted k) st behind)) in
      cob_type_from_pic-Reads ci line _ none st (Reads-step start b'S' _ st front) ∙ ground arith
