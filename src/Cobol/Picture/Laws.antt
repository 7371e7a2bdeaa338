-- ===== src/Cobol/Picture/Laws.antt =====
-- What a picture gives: the bounds of its counters, and the types of pictures of digits.
use plx.Cobol.Picture.{
  widest, repeat_digits, skip_close, cob_pic_repeat, PicState, start, add_chars, add_digits,
  pic_round, read_pic, decimal_on, decimal, pic_type, usage_type, cob_type_from_pic,
}
use plx.Prelude.Result.{Result, ok}
use plx.Prelude.{
  ℕ, zero, suc, ◌+◌, ◌-◌, ◌*◌, ◌/◌, ◌%◌, ◌≤◌, ◌<◌, min, Bytes, codes, length, Bool, false, ◌==◌, [],
  ◌∷◌, ◌++◌, Option, none, some, ◌≡◌, refl, ap, ◌∙◌, arith,
}

abbrev pub IsBounded : PicState → Type 0
IsBounded st = (st.intdig ≤ widest) × (st.scale ≤ widest) × (st.chars ≤ widest)

repeat_digits-le : (n : ℕ) (r : Bytes) → length (repeat_digits n r).1 ≤ length r
unfolding repeat_digits
repeat_digits-le n [] = omega arith
repeat_digits-le n (c ∷ r) = ground (arith, repeat_digits-le (min (n * 10 + (c - b'0')) widest) r)

skip_close-le : (r : Bytes) → length (skip_close r) ≤ length r
unfolding skip_close
skip_close-le [] = omega arith
skip_close-le (c ∷ r) = ground arith

cob_pic_repeat-le : (r : Bytes) → length (cob_pic_repeat r).1 ≤ length r
unfolding cob_pic_repeat
cob_pic_repeat-le [] = omega arith
cob_pic_repeat-le (c ∷ r) =
    ground (arith, repeat_digits-le 0 r, skip_close-le (repeat_digits 0 r).1)

add_chars-IsBounded : (st : PicState) (n : ℕ) → IsBounded st → IsBounded (add_chars st n)
unfolding add_chars
add_chars-IsBounded st n b = ground arith

pub add_digits-IsBounded : (st : PicState) (n : ℕ) → IsBounded st → IsBounded (add_digits st n)
unfolding add_digits
add_digits-IsBounded st n b = ground arith

pic_round-le : (st : PicState) (c : ℕ) (r : Bytes) → length (pic_round st c r).1 ≤ length r
unfolding pic_round
pic_round-le st c r = ground (arith, cob_pic_repeat-le r)

pic_round-IsBounded :
    (st : PicState) (c : ℕ) (r : Bytes) → IsBounded st → IsBounded (pic_round st c r).0
unfolding pic_round
pic_round-IsBounded st c r b =
    let n = (cob_pic_repeat r).0 in
    ground (arith, add_chars-IsBounded st n b, add_digits-IsBounded st n b)

-- The loop ends in a state, whatever fuel above the length of the picture it has.
unfoldable pub Reads : PicState → Bytes → PicState → Type 0
Reads st r st' = (fuel : ℕ) → length r < fuel → read_pic fuel st r ≡ some st'

pub Reads-step :
    (st : PicState) (c : ℕ) (r : Bytes) (st' : PicState)
    → Reads (pic_round st c r).0 (pic_round st c r).1 st'
    → Reads st (c ∷ r) st'
unfolding Reads read_pic
Reads-step st c r st' reads zero h = absurd (omega arith)
Reads-step st c r st' reads (suc fuel) h = reads fuel (omega (arith, pic_round-le st c r))

pub Reads-nil : (st : PicState) → Reads st [] st
unfolding Reads read_pic
Reads-nil st zero h = absurd (omega arith)
Reads-nil st (suc fuel) h = refl

pub Reads-total :
    (size : ℕ) (st : PicState) (r : Bytes)
    → length r < size
    → IsBounded st
    → (st' : PicState) × Reads st r st' × IsBounded st'
Reads-total zero st r h b = absurd (omega arith)
Reads-total (suc size) st [] h b = (st, Reads-nil st, b)
Reads-total (suc size) st (c ∷ r) h b =
    let (st', reads, bounded) =
      Reads-total size (pic_round st c r).0 (pic_round st c r).1
        (omega (arith, pic_round-le st c r)) (pic_round-IsBounded st c r b) in
    (st', Reads-step st c r st' reads, bounded)

module _ (ci : Bytes → Bytes → Bool) (line : ℕ) where
  -- What the USAGE word selects, or else what the counters give.
  abbrev pub type_for : Option Bytes → PicState → Result Bytes
  type_for usage st = elim (usage_type ci usage) [ some t ↦ ok t | none ↦ pic_type line st ]

  pub cob_type_from_pic-Reads :
      (pic : Bytes) (usage : Option Bytes) (st : PicState)
      → Reads start pic st
      → cob_type_from_pic ci line pic usage ≡ some (type_for usage st)
  unfolding cob_type_from_pic Reads
  cob_type_from_pic-Reads pic usage st reads = rw (reads (suc (length pic)) (omega arith)) refl

-- A picture that spells out its digits.
abbrev pub nines : ℕ → Bytes
nines zero = []
nines (suc n) = b'9' ∷ nines n

-- The digits as a repeat count, `9(n)`.
abbrev pub counted : ℕ → Bytes
counted n = b'9' ∷ b'(' ∷ (decimal n ++ codes ")")

-- No repeat count stands in front.
abbrev pub IsUncounted : Bytes → Type 0
IsUncounted [] = Unit
IsUncounted (c ∷ r) = (c == b'(') ≡ false

pic_round-nine :
    (st : PicState) (r : Bytes) → IsUncounted r → pic_round st b'9' r ≡ (add_digits st 1, r)
unfolding pic_round cob_pic_repeat
pic_round-nine st [] h = refl
pic_round-nine st (c ∷ r) h = rw h refl

add_digits-add_digits :
    (st : PicState) (n k : ℕ) → add_digits (add_digits st n) k ≡ add_digits st (n + k)
unfolding add_digits
add_digits-add_digits st n k = ground arith

repeat_digits-decimal_on :
    (fuel n : ℕ) (r : Bytes)
    → n < fuel
    → repeat_digits 0 (decimal_on fuel n r) ≡ repeat_digits (min n widest) r
unfolding repeat_digits
repeat_digits-decimal_on zero n r h = absurd (omega arith)
repeat_digits-decimal_on (suc fuel) n r h = ground (
  arith,
  λ (le : 10 ≤ n). repeat_digits-decimal_on fuel (n / 10) ((b'0' + n % 10) ∷ r) (omega arith),
)

decimal_on-append :
    (fuel n : ℕ) (acc r : Bytes) → decimal_on fuel n acc ++ r ≡ decimal_on fuel n (acc ++ r)
decimal_on-append zero n acc r = refl
decimal_on-append (suc fuel) n acc r =
    ground (arith, decimal_on-append fuel (n / 10) ((b'0' + n % 10) ∷ acc) r)

repeat_digits-counted :
    (n : ℕ) (r : Bytes)
    → repeat_digits 0 ((decimal n ++ codes ")") ++ r) ≡ (min n widest, codes ")" ++ r)
unfolding decimal repeat_digits
repeat_digits-counted n r =
    rw
      (
        decimal_on-append (suc n) n [] (codes ")"),
        decimal_on-append (suc n) n (codes ")") r,
        repeat_digits-decimal_on (suc n) n (codes ")" ++ r) (omega arith),
      )
      refl

pic_round-counted :
    (st : PicState) (n : ℕ) (r : Bytes)
    → pic_round st b'9' (b'(' ∷ (decimal n ++ codes ")") ++ r) ≡ (add_digits st n, r)
unfolding pic_round add_digits
pic_round-counted st n r = rw (repeat_digits-counted n r) (ground arith)

pub Reads-counted :
    (st : PicState) (n : ℕ) (r : Bytes) (st' : PicState)
    → Reads (add_digits st n) r st'
    → Reads st (counted n ++ r) st'
Reads-counted st n r st' reads = Reads-step st b'9' _ st' (rw (pic_round-counted st n r) reads)

pub Reads-nines :
    (st : PicState) (n : ℕ) (r : Bytes) (st' : PicState)
    → IsUncounted r
    → Reads (add_digits st (suc n)) r st'
    → Reads st (nines (suc n) ++ r) st'
Reads-nines st zero r st' free reads =
    Reads-step st b'9' r st' (rw (pic_round-nine st r free) reads)
Reads-nines st (suc n) r st' free reads =
    let both : add_digits (add_digits st 1) (suc n) ≡ add_digits st (suc (suc n)) =
      add_digits-add_digits st 1 (suc n) ∙ ap (add_digits st) (omega arith) in
    Reads-step st b'9' (nines (suc n) ++ r) st' (
      rw (pic_round-nine st (nines (suc n) ++ r) refl)
        (Reads-nines (add_digits st 1) n r st' free (rw both reads)))
