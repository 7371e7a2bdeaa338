-- ===== src/Cobol/Picture.antt =====
-- `cob_pic_repeat` and `cob_type_from_pic`. The index into the picture is the list of the bytes
-- from it on. The counters of the source never go below 0.
pub mod Laws
pub mod Digits
use mathlib.Core.Option
use plx.Prelude.Result.{Result, ok, err, syntax}
use plx.Prelude.{
  ℕ, zero, suc, ◌+◌, ◌-◌, ◌*◌, ◌/◌, ◌%◌, min, Bytes, codes, length, Bool, true, false, ◌&&◌, ◌||◌,
  ◌==◌, ltb, leb, within, if◌then◌else◌, [], ◌∷◌, ◌++◌, Option, none, some,
}

-- The clamp of the source: no type is this wide.
abbrev pub widest : ℕ
widest = 1000000

-- `while (i < len && p[i] >= '0' && p[i] <= '9')`: the number, and what is left.
unfoldable pub repeat_digits : ℕ → Bytes → ℕ × Bytes
repeat_digits n [] = (n, [])
repeat_digits n (c ∷ r) =
    if within b'0' b'9' c then repeat_digits (min (n * 10 + (c - b'0')) widest) r else (n, c ∷ r)

-- `if (i < len && p[i] == ')') i++`
unfoldable pub skip_close : Bytes → Bytes
skip_close [] = []
skip_close (c ∷ r) = if c == b')' then r else c ∷ r

unfoldable pub cob_pic_repeat : Bytes → ℕ × Bytes
unfolding repeat_digits skip_close
cob_pic_repeat [] = (1, [])
cob_pic_repeat (c ∷ r) =
    let (n, rest) = repeat_digits 0 r in if c == b'(' then (n, skip_close rest) else (1, c ∷ r)

-- The counters of the loop over the picture; `chars` is `strlen_`.
pub record PicState : Type 0 where
  pub intdig : ℕ
  pub scale : ℕ
  pub chars : ℕ
  pub isstr : Bool
  pub sawv : Bool

abbrev pub start : PicState
start = record { intdig = 0; scale = 0; chars = 0; isstr = false; sawv = false }

-- `X` or `A`, with its repeat count
unfoldable pub add_chars : PicState → ℕ → PicState
add_chars st n = record st { chars = min (st.chars + n) widest; isstr = true }

-- `9`, with its repeat count; both counters are cut back, whichever one grew.
unfoldable pub add_digits : PicState → ℕ → PicState
add_digits st n =
    if st.sawv
    then record st { intdig = min st.intdig widest; scale = min (st.scale + n) widest }
    else record st { intdig = min (st.intdig + n) widest; scale = min st.scale widest }

abbrev pub pic_upper : ℕ → ℕ
pic_upper c = if within b'a' b'z' c then c - b'a' + b'A' else c

-- A round of the loop at `c`: the counters, and what is left of the picture.
unfoldable pub pic_round : PicState → ℕ → Bytes → PicState × Bytes
unfolding cob_pic_repeat add_chars add_digits
pic_round st c r =
    let u = pic_upper c in
    let (n, rest) = cob_pic_repeat r in
    if u == b'S'
    then (st, r)
    else if u == b'V' || u == b'.'
    then (record st { sawv = true }, r)
    else if u == b'X' || u == b'A'
    then (add_chars st n, rest)
    else if u == b'9'
    then (add_digits st n, rest)
    else (st, r)

-- The loop, on fuel; `none` is a loop cut short.
unfoldable pub read_pic : ℕ → PicState → Bytes → Option PicState
unfolding pic_round
read_pic zero st r = none
read_pic (suc fuel) st [] = some st
read_pic (suc fuel) st (c ∷ r) = let (st', rest) = pic_round st c r in read_pic fuel st' rest

-- `%d` of a number that is not negative, on fuel.
abbrev decimal_on : ℕ → ℕ → Bytes → Bytes
decimal_on zero n acc = acc
decimal_on (suc fuel) n acc =
    let digits = (b'0' + n % 10) ∷ acc in
    let more = decimal_on fuel (n / 10) digits in if ltb n 10 then digits else more

unfoldable pub decimal : ℕ → Bytes
decimal n = decimal_on (suc n) n []

-- "numeric(%d,%d)"
abbrev pub numeric_type : ℕ → ℕ → Bytes
numeric_type prec scale =
    codes "numeric(" ++ (decimal prec ++ (codes "," ++ (decimal scale ++ codes ")")))

-- Behind the usage: `cob_err` reports the line of the token that is read.
unfoldable pub pic_type : ℕ → PicState → Result Bytes
unfolding decimal
pic_type line st =
    if st.isstr
    then ok (codes "varchar(" ++ (decimal (if st.chars == 0 then 1 else st.chars) ++ codes ")"))
    else if st.sawv || ltb 0 st.scale
    then ok (
        numeric_type (if st.intdig + st.scale == 0 then st.scale + 1 else st.intdig + st.scale)
          st.scale)
    else if st.intdig == 0
    then err (syntax line (codes "PICTURE clause has no digits or characters"))
    else if leb st.intdig 9
    then ok (codes "integer")
    else if leb st.intdig 18
    then ok (codes "bigint")
    else ok (codes "numeric(" ++ (decimal st.intdig ++ codes ")"))

module _ (ci : Bytes → Bytes → Bool) where
  -- The types that the USAGE word alone selects.
  unfoldable pub usage_type : Option Bytes → Option Bytes
  usage_type none = none
  usage_type (some usage) =
      if length usage == 6 && ci usage (codes "COMP-1")
      then some (codes "real")
      else if length usage == 6 && ci usage (codes "COMP-2")
      then some (codes "double precision")
      else none

  -- The type of a picture. The picture is read to its end even where the usage selects.
  unfoldable pub cob_type_from_pic : ℕ → Bytes → Option Bytes → Option (Result Bytes)
  unfolding read_pic pic_type usage_type
  cob_type_from_pic line pic usage =
      Option.map (λ st. elim (usage_type usage) [ some t ↦ ok t | none ↦ pic_type line st ])
        (read_pic (suc (length pic)) start pic)
