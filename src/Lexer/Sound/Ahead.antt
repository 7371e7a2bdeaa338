-- ===== src/Lexer/Sound/Ahead.antt =====
-- The look ahead for the column of the next line comes to a line of the body.
use mathlib.Core.Path.{subst}
use plx.Lexer.Layout.{indent_from}
use plx.Lexer.Sound.{column_from, IsLine}
use plx.Prelude.Suffix.{IsSuffix, whole, behind, IsSuffix-trans}
use plx.Prelude.{
  ℕ, suc, ◌<◌, Bytes, length, Bool, true, false, ◌||◌, ◌==◌, [], ◌∷◌, some, ◌≡◌, ◌⊎◌, inl, inr,
  refl, sym, Bool-cases, arith,
}

-- The look ahead stops in the line where it begins, or in one behind a newline.
abbrev IsAhead : Bool → ℕ → Bytes → ℕ → Type 0
IsAhead comment from r col = ((comment ≡ false) × (column_from from r ≡ some col)) ⊎ IsLine r col

IsLine-behind : (c : ℕ) (r : Bytes) (col : ℕ) → IsLine r col → IsLine (c ∷ r) col
IsLine-behind c r col (p, h, e) = (p, behind c h, e)

-- Behind a newline the look ahead is in a line.
newline-IsLine :
    (c : ℕ) (r : Bytes) (col : ℕ) → (c == b'\n') ≡ true → IsAhead false 0 r col → IsLine (c ∷ r) col
newline-IsLine c r col h (inl (_, e)) =
    let same : b'\n' ≡ c = ground arith in
    (r, subst (λ x. IsSuffix (x ∷ r) (c ∷ r)) (sym same) whole, e)
newline-IsLine c r col h (inr line) = IsLine-behind c r col line

comment-IsLine : (c : ℕ) (r : Bytes) (col : ℕ) → IsAhead true 0 r col → IsLine (c ∷ r) col
comment-IsLine c r col (inl (bad, _)) = absurd (ground arith)
comment-IsLine c r col (inr line) = IsLine-behind c r col line

pass_byte :
    (c : ℕ) (r : Bytes) (from col : ℕ)
    → IsAhead false from r col
    → ((false ≡ false) × (column_from from r ≡ some col)) ⊎ IsLine (c ∷ r) col
pass_byte c r from col (inl h) = inl h
pass_byte c r from col (inr line) = inr (IsLine-behind c r col line)

indent_from-IsAhead :
    (comment : Bool) (from lines : ℕ) (r : Bytes)
    → 0 < length (indent_from comment from lines r).2
    → IsAhead comment from r (indent_from comment from lines r).0
unfolding indent_from
indent_from-IsAhead comment from lines [] h = absurd (omega arith)
indent_from-IsAhead true from lines (c ∷ r) h = elim (Bool-cases (c == b'\n')) [
  | inl e ↦
      let more = rw e at h in
      rw e (inr (newline-IsLine c r _ e (indent_from-IsAhead false 0 (suc lines) r more)))
  | inr e ↦
      let more = rw e at h in
      rw e (inr (comment-IsLine c r _ (indent_from-IsAhead true 0 lines r more)))
]
indent_from-IsAhead false from lines (c ∷ r) h = elim (Bool-cases (c == b' ' || c == b'\t')) [
  | inl e ↦
      let more = rw e at h in rw e (pass_byte c r _ _ (indent_from-IsAhead false _ lines r more))
  | inr e ↦ elim (Bool-cases (c == b'\n')) [
    | inl e' ↦
        let more = rw (e, e') at h in
        rw (e, e') (inr (newline-IsLine c r _ e' (indent_from-IsAhead false 0 (suc lines) r more)))
    | inr e' ↦ elim (Bool-cases (c == b'#')) [
      | inl e'' ↦
          let more = rw (e, e', e'') at h in
          rw (e, e', e'') (inr (comment-IsLine c r _ (indent_from-IsAhead true 0 lines r more)))
      | inr e'' ↦ rw (e, e', e'') (inl (refl, refl))
    ]
  ]
]

-- The column of the line that the look ahead behind a newline comes to is that of a line of the
-- body.
pub ahead-IsLine :
    (body : Bytes) (c : ℕ) (r : Bytes)
    → (c == b'\n') ≡ true
    → IsSuffix (c ∷ r) body
    → 0 < length (indent_from false 0 0 r).2
    → IsLine body (indent_from false 0 0 r).0
ahead-IsLine body c r newline here more =
    let (p, h, e) = newline-IsLine c r _ newline (indent_from-IsAhead false 0 0 r more) in
    (p, IsSuffix-trans h here, e)
