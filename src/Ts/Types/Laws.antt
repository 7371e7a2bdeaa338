-- ===== src/Ts/Types/Laws.antt =====
-- The mapping of a type ends.
use mathlib.Core.List.{reverse_aux}
use plx.Prelude.Int.{ℤ, pos}
use plx.Prelude.{
  ℕ, zero, suc, ◌+◌, ◌≤◌, ◌<◌, Bytes, codes, length, length-append, Bool, Bool-cases, Option-cases,
  [], ◌∷◌, ◌++◌, reverse, some, ◌≡◌, refl, ap, arith, inl, inr, ◌||◌,
}
use plx.Ts.Types.{
  trim_start, trim_end, bracket_depth, split_union, same_word, map_single, map_type_on, ts_map_type,
}

length-trim_start : (s : Bytes) → length (trim_start s) ≤ length s
unfolding trim_start
length-trim_start [] = omega arith
length-trim_start (c ∷ r) = ground (arith, length-trim_start r)

length-reverse_aux : (s r : Bytes) → length (reverse_aux s r) ≡ length s + length r
length-reverse_aux [] r = omega arith
length-reverse_aux (c ∷ s) r = omega (arith, length-reverse_aux s (c ∷ r))

length-trim_end : (s : Bytes) → length (trim_end s) ≤ length s
unfolding trim_end
length-trim_end s = omega (
  arith,
  length-trim_start (reverse s),
  length-reverse_aux s [],
  length-reverse_aux (trim_start (reverse s)) [],
)

-- The two sides of a union, with the bar between them, make it up.
split_union_parts :
    (depth : ℤ) (s : Bytes) {p : Bytes × Bytes}
    → split_union depth s ≡ some p
    → p.0 ++ b'|' ∷ p.1 ≡ s
unfolding split_union
split_union_parts depth [] h = ground arith
split_union_parts depth (c ∷ r) h = elim (Option-cases (split_union (bracket_depth c depth) r)) [
  | inl e ↦ ground arith
  | inr (q, e) ↦ ground (arith, split_union_parts (bracket_depth c depth) r e)
]

module _ (ci : Bytes → Bytes → Bool) where
  map_type_on_total :
      (fuel : ℕ) (s : Bytes) → length s < fuel → (t : Bytes) × (map_type_on ci fuel s ≡ some t)
  unfolding map_type_on
  map_type_on_total zero s h = elim h [ ]
  map_type_on_total (suc fuel) s h =
      let t = trim_end (trim_start s) in
      elim (Option-cases (split_union (pos 0) t)) [
        | inl single ↦ (map_single ci t, rw (single, map_type_on) refl)
        | inr (p, e) ↦
            let parts = ap length (split_union_parts (pos 0) t e) in
            let small = length-append p.0 (b'|' ∷ p.1) in
            elim (Bool-cases
              (same_word ci p.0 (codes "null") || same_word ci p.0 (codes "undefined"))) [
                | inl null_first ↦
                    let (r, q) = map_type_on_total fuel p.1 (
                      omega (
                        arith,
                        parts,
                        small,
                        length-trim_end (trim_start s),
                        length-trim_start s,
                      )) in
                    (r, rw (e, map_type_on, null_first) q)
                | inr other ↦
                    let (r, q) = map_type_on_total fuel p.0 (
                      omega (
                        arith,
                        parts,
                        small,
                        length-trim_end (trim_start s),
                        length-trim_start s,
                      )) in
                    (r, rw (e, map_type_on, other) q)
              ]
      ]

  -- The mapping of a type ends on every text.
  pub ts_map_type_total : (s : Bytes) → (t : Bytes) × (ts_map_type ci s ≡ some t)
  unfolding ts_map_type
  ts_map_type_total s = map_type_on_total (suc (length s)) s (omega arith)
