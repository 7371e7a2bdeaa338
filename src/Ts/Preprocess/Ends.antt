-- ===== src/Ts/Preprocess/Ends.antt =====
-- Every loop of the pass ends.
use mathlib.Core.Option
use plx.Prelude.Int.{ℤ, pos}
use plx.Prelude.{
  ℕ, zero, suc, ◌+◌, ◌≤◌, ◌<◌, Bytes, length, length-append, Bool, true, false, ◌==◌, Bool-cases,
  Option-cases, [], ◌∷◌, ◌++◌, some, ◌≡◌, refl, ap, arith, inl, inr,
}
use plx.Ts.Preprocess.{
  TsState, is_quote, read_type, read_value, value_round, behind_colon, Annotated, read_annotated,
  Round, plain_round, comment_round, declare_round, word_round, ts_round, preprocess_from,
  ts_preprocess, is_declarator, joined, written, copied, copied_word,
}
use plx.Ts.Scan.Laws.{Splits, span-Splits, ts_copy_string-Splits, comment_body-Splits}
use plx.Ts.Scan.{is_ident_start, is_ident, span, ts_copy_string, comment_body, not_newline}
use plx.Ts.Types.Laws.{ts_map_type_total}
use plx.Ts.Types.{is_blank, bracket_depth}

-- What a scan leaves is no longer than what it is given, and shorter where it passed the first
-- byte.
length-left : (s : Bytes) (p : Bytes × Bytes) → Splits s p → length p.1 + length p.0 ≡ length s
length-left s p e = omega (arith, ap length e, length-append p.0 p.1)

span-le : (p : ℕ → Bool) (s : Bytes) → length (span p s).1 ≤ length s
span-le p s = omega (arith, length-left s (span p s) (span-Splits p s))

span-lt : (p : ℕ → Bool) (c : ℕ) (r : Bytes) → p c ≡ true → length (span p (c ∷ r)).1 ≤ length r
unfolding span
span-lt p c r h = rw h (span-le p r)

copy_string-lt : (c : ℕ) (r : Bytes) → length (ts_copy_string (c ∷ r)).1 ≤ length r
unfolding ts_copy_string
copy_string-lt c r =
    omega (arith, length-left (c ∷ r) (ts_copy_string (c ∷ r)) (ts_copy_string-Splits (c ∷ r)))

read_type-le : (depth : ℤ) (s : Bytes) → length (read_type depth s).1 ≤ length s
unfolding read_type
read_type-le depth [] = omega arith
read_type-le depth (c ∷ r) = ground (arith, read_type-le (bracket_depth c depth) r)

value_round-le :
    (vd c : ℕ) (r : Bytes) {w : (Bytes × Bytes) × ℕ}
    → value_round vd c r ≡ some w
    → length w.0.1 ≤ length r
unfolding value_round
value_round-le vd c r h = ground (arith, copy_string-lt c r, span-lt not_newline c r)

read_value_total :
    (fuel vd : ℕ) (s : Bytes)
    → length s < fuel
    → (v : Bytes × Bytes) × (read_value fuel vd s ≡ some v) × (length v.1 ≤ length s)
unfolding read_value
read_value_total zero vd s h = elim h [ ]
read_value_total (suc fuel) vd [] h = (([], []), refl, omega arith)
read_value_total (suc fuel) vd (c ∷ r) h = elim (Option-cases (value_round vd c r)) [
  | inl e ↦ (([], c ∷ r), rw (e, read_value) refl, omega arith)
  | inr (w, e) ↦
      let le = value_round-le vd c r e in
      let (v, q, small) = read_value_total fuel w.1 w.0.1 (omega (arith, le)) in
      (joined w.0.0 v, rw (e, read_value, q) refl, omega (arith, le, small))
]

behind_colon-lt : (t : Bytes) {u : Bytes} → behind_colon t ≡ some u → length u < length t
behind_colon-lt [] h = ground arith
behind_colon-lt (c ∷ r) h = ground arith

read_annotated-le :
    (s : Bytes) {a : Annotated} → read_annotated s ≡ some a → length a.rest ≤ length s
unfolding read_annotated
read_annotated-le s h =
    let q = (span is_blank s).1 in
    let r = (span is_ident q).1 in
    let t = (span is_blank r).1 in
    elim (Option-cases (behind_colon t)) [
      | inl e ↦ ground arith
      | inr (u, e) ↦ ground (
        arith,
        behind_colon-lt t e,
        span-le is_blank s,
        span-le is_ident q,
        span-le is_blank r,
        span-le is_blank u,
        read_type-le (pos 0) (span is_blank u).1,
      )
    ]

comment_round-le :
    (st : TsState) (c : ℕ) (r : Bytes) {w : Round}
    → comment_round st c r ≡ some w
    → length w.left ≤ length r
unfolding comment_round
comment_round-le st c [] h = ground arith
comment_round-le st c (d ∷ r) h =
    ground
      (arith, span-lt not_newline c (d ∷ r), length-left r (comment_body r) (comment_body-Splits r))

ident_start : (c : ℕ) → is_ident_start c ≡ true → is_ident c ≡ true
unfolding is_ident
ident_start c e = ground arith

plain_round-le : (st : TsState) (c : ℕ) (r : Bytes) → length (plain_round st c r).left ≤ length r
unfolding plain_round
plain_round-le st c r = ground arith

module _ (ci : Bytes → Bytes → Bool) where
  declare_round_total :
      (st : TsState) (word : Bytes) (a : Annotated)
      → (w : Round) × (declare_round ci st word a ≡ some w) × (length w.left ≤ length a.rest)
  unfolding declare_round Option.bind
  declare_round_total st word a =
      let (mapped, m) = ts_map_type_total ci a.type in
      let (v, e, small) = read_value_total (suc (length a.rest)) 0 a.rest (omega arith) in
      (written st word a mapped v, rw (m, e) refl, ground arith)

  word_round_total :
      (st : TsState) (word rest : Bytes)
      → (w : Round) × (word_round ci st word rest ≡ some w) × (length w.left ≤ length rest)
  unfolding word_round
  word_round_total st word rest = elim (Bool-cases (is_declarator word)) [
    | inr other ↦ (copied_word st word rest, rw other refl, omega arith)
    | inl declarator ↦ elim (Option-cases (read_annotated rest)) [
      | inl e ↦ (copied_word st word rest, rw (declarator, e) refl, omega arith)
      | inr (a, e) ↦
          let (w, q, small) = declare_round_total st word a in
          (w, rw (declarator, e) q, omega (arith, small, read_annotated-le rest e))
    ]
  ]

  pub ts_round_total :
      (st : TsState) (c : ℕ) (r : Bytes)
      → (w : Round) × (ts_round ci st c r ≡ some w) × (length w.left ≤ length r)
  unfolding ts_round
  ts_round_total st c r =
      let copy = copied (record st { last_for = false }) (ts_copy_string (c ∷ r)) in
      let plain = plain_round st c r in
      let plain_le = plain_round-le st c r in
      elim (Bool-cases (is_quote c)) [
        | inl quoted ↦ (copy, rw quoted refl, copy_string-lt c r)
        | inr e₁ ↦ elim (Option-cases (comment_round st c r)) [
          | inr (w, e) ↦ (w, rw (e₁, e) refl, comment_round-le st c r e)
          | inl e₂ ↦ elim (Bool-cases (c == b'(')) [
            | inl e ↦ (plain, rw (e₁, e₂, e) refl, plain_le)
            | inr e₃ ↦ elim (Bool-cases (c == b')')) [
              | inl e ↦ (plain, rw (e₁, e₂, e₃, e) refl, plain_le)
              | inr e₄ ↦ elim (Bool-cases (is_ident_start c)) [
                | inr e ↦ (plain, rw (e₁, e₂, e₃, e₄, e) refl, plain_le)
                | inl e ↦
                    let (word, rest) = span is_ident (c ∷ r) in
                    let (w, q, small) = word_round_total st word rest in
                    (
                      w,
                      rw (e₁, e₂, e₃, e₄, e) q,
                      omega (arith, small, span-lt is_ident c r (ident_start c e)),
                    )
              ]
            ]
          ]
        ]
      ]

  preprocess_from_total :
      (fuel : ℕ) (st : TsState) (s : Bytes)
      → length s < fuel
      → (out : Bytes) × (preprocess_from ci fuel st s ≡ some out)
  unfolding preprocess_from
  preprocess_from_total zero st s h = elim h [ ]
  preprocess_from_total (suc fuel) st [] h = ([], refl)
  preprocess_from_total (suc fuel) st (c ∷ r) h =
      let (w, e, small) = ts_round_total st c r in
      let (out, q) = preprocess_from_total fuel w.state w.left (omega (arith, small)) in
      (w.out ++ out, rw (e, preprocess_from, q) refl)

  -- The pass ends on every source, and refuses none.
  pub ts_preprocess_total : (src : Bytes) → (out : Bytes) × (ts_preprocess ci src ≡ some out)
  unfolding ts_preprocess
  ts_preprocess_total src = preprocess_from_total (suc (length src)) _ src (omega arith)
