-- ===== src/Tests/Cobol.antt =====
-- Pictures and data names, run.
use plx.Cobol.Picture.Digits.{
  Holds, cob_type_from_pic-counted, cob_type_from_pic-Holds, cob_type_from_pic_fixed,
}
use plx.Cobol.Picture.Laws.{nines, counted}
use plx.Cobol.Picture.{
  numeric_type, decimal, repeat_digits, skip_close, cob_pic_repeat, add_chars, add_digits,
  pic_round, read_pic, pic_type, usage_type, cob_type_from_pic,
}
use plx.Cobol.{cob_map}
use plx.Prelude.Result.{Result, ok, err, syntax}
use plx.Prelude.{suc, ◌+◌, Bytes, codes, ◌++◌, Option, none, some, ◌≡◌, refl, arith}
use plx.Tests.{ascii_ci}

typed : Bytes → Option Bytes → Option (Result Bytes)
unfolding cob_type_from_pic usage_type pic_type read_pic pic_round add_digits add_chars
    cob_pic_repeat skip_close repeat_digits decimal
typed = cob_type_from_pic ascii_ci 7

pictures :
    (typed (codes "X(20)") none ≡ some (ok (codes "varchar(20)")))
    × (typed (codes "s9(5)v99") none ≡ some (ok (codes "numeric(7,2)")))
    × (typed (codes "999") none ≡ some (ok (codes "integer")))
    × (typed (codes "9(12)") none ≡ some (ok (codes "bigint")))
    × (typed (codes "9(20)") none ≡ some (ok (codes "numeric(20)")))
    × (typed (codes "9(4)") (some (codes "comp-1")) ≡ some (ok (codes "real")))
    × (typed (codes "S") none
        ≡ some (err (syntax 7 (codes "PICTURE clause has no digits or characters"))))
unfolding typed
pictures = (refl, refl, refl, refl, refl, refl, refl)

-- The count of a character that is passed over is read as a part of the picture.
count_of_ignored : typed (codes "Z(9)") none ≡ typed (codes "9") none
unfolding typed
count_of_ignored = refl

names : cob_map (codes "WS-Total-2") ≡ codes "ws_total_2"
unfolding cob_map
names = refl

cob_type_from_pic-counted_example :
    cob_type_from_pic ascii_ci 7 (counted (suc 3) ++ codes "V99") none
    ≡ cob_type_from_pic ascii_ci 7 (nines (suc 3) ++ codes "V99") none
cob_type_from_pic-counted_example = cob_type_from_pic-counted ascii_ci 7 3 (codes "V99") none refl

cob_type_from_pic-Holds_example :
    (typ : Bytes) × (cob_type_from_pic ascii_ci 7 (counted 12) none ≡ some (ok typ)) × Holds 12 typ
cob_type_from_pic-Holds_example = cob_type_from_pic-Holds ascii_ci 7 12 (omega arith) (omega arith)

cob_type_from_pic_fixed_example :
    cob_type_from_pic ascii_ci 7 (codes "S" ++ (counted 5 ++ (codes "V" ++ counted 2))) none
    ≡ some (ok (numeric_type (5 + 2) 2))
cob_type_from_pic_fixed_example =
    cob_type_from_pic_fixed ascii_ci 7 5 2 (omega arith) (omega arith) (omega arith)
