-- ===== src/Ts/Scan/Laws.antt =====
-- The two scans over a string stop at the same place, and copies lose nothing.
use plx.Prelude.{
  ℕ, suc, ◌-◌, Bytes, Bool, false, ◌==◌, [], ◌∷◌, ◌++◌, ◌≡◌, refl, arith, Bool-cases, inl, inr,
}
use plx.Ts.Scan.{
  span, brace_closed, copy_template, copy_quoted, ts_copy_string, skip_from, ts_skip_string,
  comment_body,
}

abbrev pub Splits : Bytes → Bytes × Bytes → Type 0
Splits r (taken, rest) = taken ++ rest ≡ r

pub span-Splits : (p : ℕ → Bool) (r : Bytes) → Splits r (span p r)
unfolding span
span-Splits p [] = refl
span-Splits p (c ∷ r) = ground (arith, span-Splits p r)

copy_template-Splits : (brace : ℕ) (r : Bytes) → Splits r (copy_template brace r)
unfolding copy_template
copy_template-Splits brace [] = refl
copy_template-Splits brace (c ∷ []) = refl
copy_template-Splits brace (c ∷ d ∷ r) = ground (
  arith,
  copy_template-Splits brace r,
  copy_template-Splits (suc brace) r,
  copy_template-Splits (brace_closed brace c) (d ∷ r),
)

copy_quoted-Splits : (q : ℕ) (r : Bytes) → Splits r (copy_quoted q r)
unfolding copy_quoted
copy_quoted-Splits q [] = refl
copy_quoted-Splits q (c ∷ []) = refl
copy_quoted-Splits q (c ∷ d ∷ r) =
    ground (arith, copy_quoted-Splits q r, copy_quoted-Splits q (d ∷ r))

-- A string is copied byte for byte: what is copied and what is left make up the source.
pub ts_copy_string-Splits : (r : Bytes) → Splits r (ts_copy_string r)
unfolding ts_copy_string
ts_copy_string-Splits [] = refl
ts_copy_string-Splits (q ∷ r) = ground (arith, copy_template-Splits 0 r, copy_quoted-Splits q r)

pub comment_body-Splits : (r : Bytes) → Splits r (comment_body r)
unfolding comment_body
comment_body-Splits [] = refl
comment_body-Splits (c ∷ []) = refl
comment_body-Splits (c ∷ d ∷ r) = ground (arith, comment_body-Splits (d ∷ r))

skip_from-template : (brace : ℕ) (r : Bytes) → skip_from b'`' brace r ≡ (copy_template brace r).1
unfolding skip_from copy_template
skip_from-template brace [] = refl
skip_from-template brace (c ∷ []) = refl
skip_from-template brace (c ∷ d ∷ r) = ground (
  arith,
  skip_from-template brace r,
  skip_from-template (suc brace) r,
  skip_from-template brace (d ∷ r),
  skip_from-template (brace - 1) (d ∷ r),
)

skip_from-quoted : (q : ℕ) (r : Bytes) → (q == b'`') ≡ false → skip_from q 0 r ≡ (copy_quoted q r).1
unfolding skip_from copy_quoted
skip_from-quoted q [] h = refl
skip_from-quoted q (c ∷ []) h = refl
skip_from-quoted q (c ∷ d ∷ r) h =
    ground (arith, skip_from-quoted q r h, skip_from-quoted q (d ∷ r) h)

-- The scan that skips a string and the scan that copies it end at the same byte, for every quote,
-- with escapes and with `${` in templates.
pub skip-copy : (r : Bytes) → ts_skip_string r ≡ (ts_copy_string r).1
unfolding ts_skip_string ts_copy_string
skip-copy [] = refl
skip-copy (q ∷ r) = elim (Bool-cases (q == b'`')) [
  | inl e ↦ ground (arith, skip_from-template 0 r)
  | inr e ↦ ground (arith, skip_from-quoted q r e)
]
