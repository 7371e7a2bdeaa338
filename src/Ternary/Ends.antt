-- ===== src/Ternary/Ends.antt =====
-- The scans for a ternary end on every text, at a byte of the kind that they look for.
use plx.Prelude.Int.{ℤ, pos, is_zero}
use plx.Prelude.{
  ℕ, zero, suc, ◌≤◌, ◌<◌, Bytes, length, true, ◌&&◌, ◌==◌, [], ◌∷◌, Option, none, some, ◌≡◌, refl,
  ap, arith, Bool-cases, ◌⊎◌, inl, inr,
}
use plx.Ternary.Laws.{string_rest-le}
use plx.Ternary.{
  passed_over, find_q, find_ternary_q, is_lone_colon, open_behind, find_colon, find_ternary_colon,
}

-- Nothing, or a position at the byte.
abbrev pub IsAt : ℕ → Option Bytes → Type 0
IsAt c found = (found ≡ none) ⊎ ((r : Bytes) × (found ≡ some (c ∷ r)))

passed_over-le : (depth : ℤ) (c : ℕ) (r : Bytes) → length (passed_over depth c r).1 ≤ length r
passed_over-le depth c r = ground (arith, string_rest-le c r)

find_q-IsAt :
    (fuel : ℕ) (depth : ℤ) (r : Bytes)
    → length r < fuel
    → (found : Option Bytes) × (find_q fuel depth r ≡ some found) × IsAt b'?' found
unfolding find_q
find_q-IsAt zero depth r h = absurd (omega arith)
find_q-IsAt (suc fuel) depth [] h = (none, refl, inl refl)
find_q-IsAt (suc fuel) depth (c ∷ r) h =
    let (depth', rest) = passed_over depth c r in
    let (found, e, at) = find_q-IsAt fuel depth' rest (omega (arith, passed_over-le depth c r)) in
    elim (Bool-cases (c == b'?' && is_zero depth)) [
      | inl here ↦ (some (c ∷ r), rw here refl, inr (r, ground arith))
      | inr later ↦ (found, rw later e, at)
    ]

is_lone_colon-eq : (prev c : ℕ) (r : Bytes) → is_lone_colon prev c r ≡ true → c ≡ b':'
is_lone_colon-eq prev c [] h = ground arith
is_lone_colon-eq prev c (d ∷ r) h = ground arith

find_colon-IsAt :
    (fuel : ℕ) (depth : ℤ) (tern prev : ℕ) (r : Bytes)
    → length r < fuel
    → (found : Option Bytes) × (find_colon fuel depth tern prev r ≡ some found) × IsAt b':' found
unfolding find_colon
find_colon-IsAt zero depth tern prev r h = absurd (omega arith)
find_colon-IsAt (suc fuel) depth tern prev [] h = (none, refl, inl refl)
find_colon-IsAt (suc fuel) depth tern prev (c ∷ r) h =
    let (depth', rest) = passed_over depth c r in
    let (found, e, at) =
      find_colon-IsAt fuel depth' (open_behind depth prev c r tern) c rest
        (omega (arith, passed_over-le depth c r)) in
    elim (Bool-cases (is_zero depth && tern == 0 && is_lone_colon prev c r)) [
      | inl here ↦ (
        some (c ∷ r),
        rw here refl,
        inr (r, ap (λ x. some (x ∷ r)) (is_lone_colon-eq prev c r (ground arith))),
      )
      | inr later ↦ (found, rw later e, at)
    ]

-- Both scans end on every text, with nothing found or at a `?`, and at a `:`.
find_ternary_total :
    (s : Bytes)
    → ((found : Option Bytes) × (find_ternary_q s ≡ some found) × IsAt b'?' found)
      × ((found : Option Bytes) × (find_ternary_colon s ≡ some found) × IsAt b':' found)
unfolding find_ternary_q find_ternary_colon
find_ternary_total s = (
  find_q-IsAt (suc (length s)) (pos 0) s (omega arith),
  find_colon-IsAt (suc (length s)) (pos 0) 0 b'?' s (omega arith),
)
