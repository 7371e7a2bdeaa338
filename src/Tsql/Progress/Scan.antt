-- ===== src/Tsql/Progress/Scan.antt =====
-- What a scan over the tokens of T-SQL leaves is no longer than what it reads, and a type leaves
-- less.
use plx.Prelude.{
  ℕ, suc, ◌+◌, ◌-◌, ◌≤◌, Bytes, codes, length, Bool, true, false, ◌&&◌, ◌||◌, ◌==◌, List, [], ◌∷◌,
  Option, none, some, ◌≡◌, refl, arith, ==_iff, if-case, if-split,
}
use plx.Prelude.Ends.{Ends, returns, raises, faults, >>=-Ends, Ends-mono}
use plx.Tsql.Scan.{
  Split, before, scan_end, at_last, found_or_last, found_or_end, ends_value, tq_value_end,
  tq_cond_end, declared_end, selected_end,
}
use plx.Tsql.Token.{
  TqKind, tq_eof, tq_word, tq_var, tq_gvar, tq_num, tq_str, tq_op, tq_lp, tq_rp, tq_comma, tq_semi,
  tq_dot, is_semi, TqTok, is_lp, is_rp, is_eof, is_word, tq_ci, tq_is_stmt_kw,
}
use plx.Tsql.Types.{base_or, to_rp, over_rp, read_width, behind_name, tq_base_type, tq_read_type}

-- The tokens in front and those behind are as many as there were.
data IsSplit (n : ℕ) : Option Split → Type 0 where
  no_end : IsSplit n none
  split :
      {front rest : List TqTok} → length front + length rest ≡ n → IsSplit n (some (front, rest))

before-IsSplit : (n : ℕ) (t : TqTok) {o : Option Split} → IsSplit n o → IsSplit (suc n) (before t o)
before-IsSplit n t no_end = no_end
before-IsSplit n t (split h) = split (omega arith)

scan_end-IsSplit :
    (stop : TqTok → Bool) (depth : ℕ) (ts : List TqTok)
    → IsSplit (length ts) (scan_end stop depth ts)
unfolding scan_end
scan_end-IsSplit stop depth [] = no_end
scan_end-IsSplit stop depth (t ∷ ts) =
    let P = IsSplit (suc (length ts)) in
    if-case P (is_lp t.kind) (before-IsSplit _ t (scan_end-IsSplit stop (suc depth) ts)) (
      if-case P (is_rp t.kind) (before-IsSplit _ t (scan_end-IsSplit stop (depth - 1) ts)) (
        if-case P (depth == 0 && stop t) (split (omega arith))
          (before-IsSplit _ t (scan_end-IsSplit stop depth ts))))

-- The number of tokens of both parts.
abbrev size : Split → ℕ
size p = length p.0 + length p.1

at_last-size : (ts : List TqTok) → size (at_last ts) ≡ length ts
at_last-size [] = refl
at_last-size (t ∷ []) = refl
at_last-size (t ∷ u ∷ ts) = omega (arith, at_last-size (u ∷ ts))

found_or_last-size :
    (ts : List TqTok) {o : Option Split}
    → IsSplit (length ts) o
    → size (found_or_last o ts) ≡ length ts
found_or_last-size ts no_end = at_last-size ts
found_or_last-size ts (split h) = h

found_or_end-le :
    (ts : List TqTok) {o : Option Split}
    → IsSplit (length ts) o
    → length (found_or_end o ts).1 ≤ length ts
found_or_end-le ts no_end = omega arith
found_or_end-le ts (split h) = omega arith

module _ (ci : Bytes → Bytes → Bool) where
  pub tq_value_end-size :
      (ts : List TqTok) → length (tq_value_end ci ts).0 + length (tq_value_end ci ts).1 ≡ length ts
  unfolding tq_value_end
  tq_value_end-size ts = found_or_last-size ts (scan_end-IsSplit (ends_value ci) 0 ts)

  pub tq_value_end-le : (ts : List TqTok) → length (tq_value_end ci ts).1 ≤ length ts
  tq_value_end-le ts = omega (arith, tq_value_end-size ts)

  pub tq_cond_end-le : (ts : List TqTok) → length (tq_cond_end ci ts).1 ≤ length ts
  unfolding tq_cond_end
  tq_cond_end-le ts =
      let h = found_or_last-size ts (
        scan_end-IsSplit (λ t. ends_value ci t || tq_ci ci t (codes "BEGIN") || tq_is_stmt_kw ci t)
          0 ts) in
      omega (arith, h)

  pub declared_end-le : (ts : List TqTok) → length (declared_end ci ts).1 ≤ length ts
  unfolding declared_end
  declared_end-le ts = found_or_end-le ts (scan_end-IsSplit _ 0 ts)

  pub selected_end-le : (ts : List TqTok) → length (selected_end ci ts).1 ≤ length ts
  unfolding selected_end
  selected_end-le ts = found_or_end-le ts (scan_end-IsSplit _ 0 ts)

-- A word is no bracket and no end of a statement by its kind.
word_kind :
    (k : TqKind)
    → is_word k ≡ true
    → (is_lp k ≡ false) × ((is_rp k ≡ false) × ((is_semi k ≡ false) × (is_eof k ≡ false)))
word_kind tq_word h = (refl, (refl, (refl, refl)))
word_kind tq_eof h = cc
word_kind tq_var h = cc
word_kind tq_gvar h = cc
word_kind tq_num h = cc
word_kind tq_str h = cc
word_kind tq_op h = cc
word_kind tq_lp h = cc
word_kind tq_rp h = cc
word_kind tq_comma h = cc
word_kind tq_semi h = cc
word_kind tq_dot h = cc

and-left : (a b : Bool) → (a && b) ≡ true → a ≡ true
and-left true b h = refl
and-left false b h = cc

and-right : (a b : Bool) → (a && b) ≡ true → b ≡ true
and-right true b h = h
and-right false b h = cc

module _ (ci : Bytes → Bytes → Bool) where
  select_word_length : (s : TqTok) → tq_ci ci s (codes "SELECT") ≡ true → length s.s ≡ 6
  select_word_length s h = (==_iff (length s.s) 6).0 (and-left _ _ (and-right (is_word s.kind) _ h))

  select_no_end : (s : TqTok) → tq_ci ci s (codes "SELECT") ≡ true → ends_value ci s ≡ false
  select_no_end s h =
      let word = and-left (is_word s.kind) _ h in
      let kinds = word_kind s.kind word in
      rw (kinds.1.1.0, kinds.1.1.1, word, select_word_length s h) refl

  -- The end of a scan that goes on over its first token.
  behind_first :
      (s v : TqTok) (ts : List TqTok) (o : Option Split)
      → IsSplit (suc (length ts)) o
      → length (found_or_last (before s o) (s ∷ v ∷ ts)).1 ≤ suc (length ts)
  behind_first s v ts none no_end = let h = at_last-size (v ∷ ts) in omega (arith, h)
  behind_first s v ts (some p) (split h) = omega (arith, h)

  -- From a SELECT on, at least that word is in front of the end.
  pub query_end-le :
      (s v : TqTok) (ts : List TqTok)
      → tq_ci ci s (codes "SELECT") ≡ true
      → length (tq_value_end ci (s ∷ v ∷ ts)).1 ≤ length (v ∷ ts)
  unfolding tq_value_end scan_end
  query_end-le s v ts h =
      let kinds = word_kind s.kind (and-left (is_word s.kind) _ h) in
      let goes : scan_end (ends_value ci) 0 (s ∷ v ∷ ts)
          ≡ before s (scan_end (ends_value ci) 0 (v ∷ ts)) =
        rw (kinds.0, kinds.1.0, select_no_end s h) refl in
      rw (goes, tq_value_end)
        (behind_first s v ts (scan_end (ends_value ci) 0 (v ∷ ts))
          (scan_end-IsSplit (ends_value ci) 0 (v ∷ ts)))

to_rp-le : (ts : List TqTok) → length (to_rp ts).1 ≤ length ts
unfolding to_rp
to_rp-le [] = omega arith
to_rp-le (t ∷ ts) =
    if-case (λ (p : Split). length p.1 ≤ suc (length ts)) (is_rp t.kind || is_eof t.kind)
      (omega arith) (omega (arith, to_rp-le ts))

-- At most so many tokens are left.
abbrev pub Leaves : ℕ → List TqTok → Type 0
Leaves n rest = length rest ≤ n

over_rp-Ends : (n : ℕ) (ts : List TqTok) → length ts ≤ n → Ends (Leaves n) (over_rp ts)
over_rp-Ends n [] h = faults
over_rp-Ends n (t ∷ ts) h = returns (if-case (Leaves n) (is_rp t.kind) (omega arith) h)

-- The type that is read, and at most so many tokens.
abbrev pub ReadsType : ℕ → Bytes × List TqTok → Type 0
ReadsType n read = length read.1 ≤ n

module _ (ci : Bytes → Bytes → Bool) where
  read_width-Ends :
      (base : Option Bytes) (name : Bytes) (ts : List TqTok)
      → Ends (ReadsType (length ts)) (read_width ci base name ts)
  unfolding read_width
  read_width-Ends base name [] = faults
  read_width-Ends base name (inner ∷ ts) =
      >>=-Ends (ReadsType _) _ _
        (over_rp-Ends (suc (length ts)) (to_rp (inner ∷ ts)).1 (to_rp-le (inner ∷ ts)))
        (λ left k. returns k)

  behind_name-Ends :
      (base : Option Bytes) (name : Bytes) (ts : List TqTok)
      → Ends (ReadsType (length ts)) (behind_name ci base name ts)
  unfolding behind_name
  behind_name-Ends base name [] = faults
  behind_name-Ends base name (t ∷ ts) =
      if-case (Ends (ReadsType _)) (is_lp t.kind)
        (Ends-mono (ReadsType _) (read_width-Ends base name ts) (λ a h. omega (arith, h)))
        (returns (omega arith))

  pub tq_read_type-Ends : (ts : List TqTok) → Ends (ReadsType (length ts)) (tq_read_type ci ts)
  unfolding tq_read_type
  tq_read_type-Ends [] = faults
  tq_read_type-Ends (w ∷ ts) =
      if-split (Ends (ReadsType _)) (is_word w.kind)
        (λ _.
          Ends-mono (ReadsType _)
            (behind_name-Ends (tq_base_type ci w.s) (base_or (tq_base_type ci w.s) w.s) ts)
            (λ a h. omega (arith, h)))
        (λ _. raises)
