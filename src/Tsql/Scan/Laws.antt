-- ===== src/Tsql/Scan/Laws.antt =====
-- Where the end of a value is: `tq_value_end` against a description by positions.
use mathlib.Core.Path.{subst}
use plx.Prelude.{
  ℕ, suc, ◌-◌, Bytes, Bool, true, false, ◌&&◌, ◌==◌, if◌then◌else◌, List, [], ◌∷◌, ◌++◌,
  append_assoc, Option, none, some, ◌≡◌, refl, sym, ap, ◌∙◌, arith, ==_iff, if-split, inl, inr, ◌⊎◌,
}
use plx.Tsql.Scan.{Split, before, scan_end, at_last, found_or_last, ends_value, tq_value_end}
use plx.Tsql.Token.{TqTok, is_lp, is_rp}

-- The depth of the brackets behind some tokens; a `)` too many changes nothing.
unfoldable pub depth_after : ℕ → List TqTok → ℕ
depth_after d [] = d
depth_after d (t ∷ ts) =
    depth_after (if is_lp t.kind then suc d else if is_rp t.kind then d - 1 else d) ts

-- No token outside brackets passes the test.
abbrev pub NoStop : (TqTok → Bool) → ℕ → List TqTok → Type 0
NoStop stop d front =
    (pre post : List TqTok) (x : TqTok)
    → front ≡ pre ++ x ∷ post
    → is_lp x.kind ≡ false
    → is_rp x.kind ≡ false
    → depth_after d pre ≡ 0
    → stop x ≡ false

-- What stands behind begins with a token outside brackets that passes the test, or is one token.
unfoldable pub Stops : (TqTok → Bool) → ℕ → List TqTok → List TqTok → Type 0
Stops stop d front [] = front ≡ []
Stops stop d front (x ∷ post) = ((depth_after d front ≡ 0) × (stop x ≡ true)) ⊎ (post ≡ [])

-- A split of the tokens, none in front of which stops, and which stops there.
abbrev pub IsEnd : (TqTok → Bool) → ℕ → List TqTok → Split → Type 0
IsEnd stop d ts p = (p.0 ++ p.1 ≡ ts) × NoStop stop d p.0 × Stops stop d p.0 p.1

NoStop-nil : (stop : TqTok → Bool) (d : ℕ) → NoStop stop d []
NoStop-nil stop d [] post x e lp rp zero_depth = cc
NoStop-nil stop d (p ∷ pre) post x e lp rp zero_depth = cc

-- A token in front: it is a bracket, or inside brackets, or does not pass.
NoStop-cons :
    (stop : TqTok → Bool) (d : ℕ) (t : TqTok) (front : List TqTok)
    → (is_lp t.kind ≡ false → is_rp t.kind ≡ false → d ≡ 0 → stop t ≡ false)
    → NoStop stop (if is_lp t.kind then suc d else if is_rp t.kind then d - 1 else d) front
    → NoStop stop d (t ∷ front)
unfolding depth_after
NoStop-cons stop d t front first rest [] post x e lp rp zero_depth =
    let same : t ≡ x = cc in
    subst (λ y. is_lp y.kind ≡ false → is_rp y.kind ≡ false → stop y ≡ false) same
      (λ a b. first a b zero_depth) lp rp
NoStop-cons stop d t front first rest (p ∷ pre) post x e lp rp zero_depth =
    let same : t ≡ p = cc in
    let tail : front ≡ pre ++ x ∷ post = cc in
    rest pre post x tail lp rp (subst (λ y. depth_after d (y ∷ pre) ≡ 0) (sym same) zero_depth)

-- Of a part in front.
NoStop-prefix :
    (stop : TqTok → Bool) (d : ℕ) (front rest ts : List TqTok)
    → front ++ rest ≡ ts
    → NoStop stop d ts
    → NoStop stop d front
NoStop-prefix stop d front rest ts whole none_stop pre post x e lp rp outside =
    none_stop pre (post ++ rest) x
      (sym whole ∙ (ap (λ w. w ++ rest) e ∙ append_assoc pre (x ∷ post) rest)) lp rp outside

-- What a scan finds.
data IsScan (stop : TqTok → Bool) (d : ℕ) (ts : List TqTok) : Option Split → Type 0 where
  no_end : NoStop stop d ts → IsScan stop d ts none
  end_at :
      {front post : List TqTok} (x : TqTok)
      → front ++ x ∷ post ≡ ts
      → NoStop stop d front
      → depth_after d front ≡ 0
      → stop x ≡ true
      → IsScan stop d ts (some (front, x ∷ post))

before-IsScan :
    (stop : TqTok → Bool) (d inner : ℕ) (t : TqTok) (ts : List TqTok) {o : Option Split}
    → (if is_lp t.kind then suc d else if is_rp t.kind then d - 1 else d) ≡ inner
    → (is_lp t.kind ≡ false → is_rp t.kind ≡ false → d ≡ 0 → stop t ≡ false)
    → IsScan stop inner ts o
    → IsScan stop d (t ∷ ts) (before t o)
unfolding depth_after
before-IsScan stop d inner t ts e first (no_end h) =
    no_end (NoStop-cons stop d t ts first (subst (λ n. NoStop stop n ts) (sym e) h))
before-IsScan stop d inner t ts e first (end_at {front} x whole none_stop outside stops) =
    end_at x (ap (λ w. t ∷ w) whole)
      (NoStop-cons stop d t front first (subst (λ n. NoStop stop n front) (sym e) none_stop))
      (subst (λ n. depth_after n front ≡ 0) (sym e) outside) stops

and_zero : (d : ℕ) (b : Bool) → (d == 0 && b) ≡ true → (d ≡ 0) × (b ≡ true)
and_zero d true h = ((==_iff d 0).0 (ground arith), refl)
and_zero d false h = absurd (ground arith)

scan_end-IsScan :
    (stop : TqTok → Bool) (d : ℕ) (ts : List TqTok) → IsScan stop d ts (scan_end stop d ts)
unfolding scan_end depth_after
scan_end-IsScan stop d [] = no_end (NoStop-nil stop d)
scan_end-IsScan stop d (t ∷ ts) =
    let P = IsScan stop d (t ∷ ts) in
    if-split P (is_lp t.kind)
      (λ lp.
        before-IsScan stop d (suc d) t ts (rw lp refl) (λ no _ _. cc)
          (scan_end-IsScan stop (suc d) ts))
      (λ lp.
        if-split P (is_rp t.kind)
          (λ rp.
            before-IsScan stop d (d - 1) t ts (rw (lp, rp) refl) (λ _ no _. cc)
              (scan_end-IsScan stop (d - 1) ts))
          (λ rp.
            if-split P (d == 0 && stop t)
              (λ here.
                end_at t refl (NoStop-nil stop d) (and_zero d (stop t) here).0
                  (and_zero d (stop t) here).1)
              (λ on.
                before-IsScan stop d d t ts (rw (lp, rp) refl) (λ _ _ outside. (rw outside at on))
                  (scan_end-IsScan stop d ts))))

at_last-append : (ts : List TqTok) → (at_last ts).0 ++ (at_last ts).1 ≡ ts
at_last-append [] = refl
at_last-append (t ∷ []) = refl
at_last-append (t ∷ u ∷ ts) = ap (λ w. t ∷ w) (at_last-append (u ∷ ts))

at_last-one : (t : TqTok) (ts : List TqTok) → (x : TqTok) × ((at_last (t ∷ ts)).1 ≡ x ∷ [])
at_last-one t [] = (t, refl)
at_last-one t (u ∷ ts) = at_last-one u ts

at_last-Stops : (stop : TqTok → Bool) (ts : List TqTok) → Stops stop 0 (at_last ts).0 (at_last ts).1
unfolding Stops
at_last-Stops stop [] = refl
at_last-Stops stop (t ∷ ts) =
    let (x, e) = at_last-one t ts in subst (Stops stop 0 (at_last (t ∷ ts)).0) (sym e) (inr refl)

-- The end of a value splits the tokens: in front of it no `;`, tq_eof, END or ELSE stands outside
-- brackets, and behind it such a token does, or there is one token, or there is none at all.
pub tq_value_end-IsEnd :
    (ci : Bytes → Bytes → Bool) (ts : List TqTok) → IsEnd (ends_value ci) 0 ts (tq_value_end ci ts)
unfolding tq_value_end Stops
tq_value_end-IsEnd ci ts =
    chosen (scan_end (ends_value ci) 0 ts) (scan_end-IsScan (ends_value ci) 0 ts)
  where
    chosen :
        (o : Option Split)
        → IsScan (ends_value ci) 0 ts o
        → IsEnd (ends_value ci) 0 ts (found_or_last o ts)
    chosen none (no_end h) = (
      at_last-append ts,
      NoStop-prefix (ends_value ci) 0 _ _ ts (at_last-append ts) h,
      at_last-Stops (ends_value ci) ts,
    )
    chosen (some p) (end_at x whole none_stop outside stops) =
        (whole, none_stop, inl (outside, stops))
