-- ===== src/Go/Progress/Scan.antt =====
-- What the scans over the tokens of Go leave, and what a type leaves, is no longer than what they
-- read.
use plx.Prelude.Outcome.{Outcome, done, ◌>>=◌}
use plx.Prelude.{
  ℕ, zero, suc, ◌+◌, ◌≤◌, Bytes, codes, length, take, drop, ◌||◌, ◌==◌, List, [], ◌∷◌, Option, none,
  some, ◌≡◌, refl, arith, if-case, if-split,
}
use plx.Go.Scan.{last_from, found_or_last, go_stmt_end, go_header_end}
use plx.Go.Token.{GoTok, is_word, is_eof, is_lbrack, is_rbrack, go_ci, op_is}
use plx.Go.Types.{
  go_base_type, unsupported, over_stars, over_length, time_type, named_type, slice_type,
  go_read_type, array_type, go_infer_type,
}
use plx.Prelude.Ends.{Ends, returns, raises, faults, >>=-Ends}

take-drop-size : (k : ℕ) (ts : List GoTok) → length (take k ts) + length (drop k ts) ≡ length ts
take-drop-size zero ts = omega arith
take-drop-size (suc k) [] = refl
take-drop-size (suc k) (t ∷ ts) = omega (arith, take-drop-size k ts)

last_from-size : (ts : List GoTok) → length (last_from ts).0 + length (last_from ts).1 ≡ length ts
last_from-size [] = refl
last_from-size (t ∷ []) = refl
last_from-size (t ∷ u ∷ ts) = omega (arith, last_from-size (u ∷ ts))

found_or_last-size :
    (o : Option ℕ) (ts : List GoTok)
    → length (found_or_last o ts).0 + length (found_or_last o ts).1 ≡ length ts
found_or_last-size none ts = last_from-size ts
found_or_last-size (some k) ts = take-drop-size k ts

pub go_stmt_end-size :
    (ts : List GoTok) → length (go_stmt_end ts).0 + length (go_stmt_end ts).1 ≡ length ts
unfolding go_stmt_end
go_stmt_end-size ts = found_or_last-size _ ts

go_header_end-size :
    (ts : List GoTok) → length (go_header_end ts).0 + length (go_header_end ts).1 ≡ length ts
unfolding go_header_end
go_header_end-size ts = found_or_last-size _ ts

pub go_header_end-le : (ts : List GoTok) → length (go_header_end ts).1 ≤ length ts
go_header_end-le ts = omega (arith, go_header_end-size ts)

-- The run is not cut short.
abbrev pub Stops {ℓ} : {A : Type ℓ} → Outcome A → Type ℓ
Stops o = Ends (λ _. Unit) o

-- At most so many tokens are left.
abbrev pub Leaves : ℕ → List GoTok → Type 0
Leaves n rest = length rest ≤ n

-- The type that is read, and at most so many tokens.
abbrev pub ReadsType : ℕ → Bytes × List GoTok → Type 0
ReadsType n read = length read.1 ≤ n

over_stars-Ends : (n : ℕ) (ts : List GoTok) → length ts ≤ n → Ends (Leaves n) (over_stars ts)
unfolding over_stars
over_stars-Ends n [] h = faults
over_stars-Ends n (t ∷ ts) h =
    if-case (Ends (Leaves n)) (op_is t (codes "*")) (over_stars-Ends n ts (omega (arith, h)))
      (returns h)

over_length-Ends : (n : ℕ) (ts : List GoTok) → length ts ≤ n → Ends (Leaves n) (over_length ts)
unfolding over_length
over_length-Ends n [] h = faults
over_length-Ends n (t ∷ ts) h =
    if-case (Ends (Leaves n)) (is_rbrack t.kind) (returns (omega (arith, h))) (
      if-case (Ends (Leaves n)) (is_eof t.kind) (returns h)
        (over_length-Ends n ts (omega (arith, h))))

time_type-Ends :
    (n : ℕ) (w : GoTok) (ts : List GoTok) → length ts ≤ n → Ends (ReadsType n) (time_type w ts)
unfolding time_type
time_type-Ends n w [] h = faults
time_type-Ends n w (d ∷ []) h = if-case (Ends (ReadsType n)) _ faults (returns h)
time_type-Ends n w (d ∷ t ∷ ts) h =
    if-case (Ends (ReadsType n)) _ (returns (omega (arith, h))) (returns h)

named_type-Ends : (n : ℕ) (ts : List GoTok) → length ts ≤ n → Ends (ReadsType n) (named_type ts)
unfolding named_type
named_type-Ends n [] h = faults
named_type-Ends n (w ∷ ts) h =
    let few : length ts ≤ n = omega (arith, h) in
    if-split (Ends (ReadsType n)) (is_word w.kind)
      (λ _.
        if-split (Ends (ReadsType n)) (unsupported w) (λ _. raises)
          (λ _. based few (go_base_type w.s)))
      (λ _. raises)
  where
    based :
        length ts ≤ n
        → (o : Option Bytes)
        → Ends (ReadsType n) (elim o [ some base ↦ done (base, ts) | none ↦ time_type w ts ])
    based few none = time_type-Ends n w ts few
    based few (some base) = returns few

slice_type-Ends : (n : ℕ) (ts : List GoTok) → length ts ≤ n → Ends (ReadsType n) (slice_type ts)
unfolding slice_type
slice_type-Ends n [] h = faults
slice_type-Ends n (t ∷ ts) h =
    if-split (Ends (ReadsType n)) (is_lbrack t.kind)
      (λ _.
        >>=-Ends (ReadsType n) (over_length ts >>= named_type) _
          (>>=-Ends (ReadsType n) (over_length ts) named_type
            (over_length-Ends n ts (omega (arith, h))) (λ us k. named_type-Ends n us k))
          (λ read k. returns k))
      (λ _. named_type-Ends n (t ∷ ts) h)

pub go_read_type-Ends :
    (n : ℕ) (ts : List GoTok) → length ts ≤ n → Ends (ReadsType n) (go_read_type ts)
unfolding go_read_type
go_read_type-Ends n ts h =
    >>=-Ends (ReadsType n) (over_stars ts) slice_type (over_stars-Ends n ts h)
      (λ us k. slice_type-Ends n us k)

array_type-Stops : (ts : List GoTok) → Stops (array_type ts)
unfolding array_type
array_type-Stops [] = faults
array_type-Stops (t ∷ ts) = returns tt

pub go_infer_type-Stops : (n : ℕ) (ts : List GoTok) → Stops (go_infer_type n ts)
unfolding go_infer_type
go_infer_type-Stops n [] = faults
go_infer_type-Stops n (t ∷ []) = if-case Stops (n == 1) (returns tt) (
    if-case Stops (is_lbrack t.kind) faults (
      if-case Stops (go_ci t (codes "len") || go_ci t (codes "cap")) (returns tt)
        (if-case Stops (is_word t.kind) faults (returns tt))))
go_infer_type-Stops n (t ∷ u ∷ ts) =
    if-case Stops (n == 1) (returns tt) (if-case Stops _ (array_type-Stops ts) (returns tt))
