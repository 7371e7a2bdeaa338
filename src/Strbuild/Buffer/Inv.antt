-- ===== src/Strbuild/Buffer/Inv.antt =====
-- The invariant of a string builder, the loop that grows it, and what `memcpy` may touch.
use plx.Prelude.Result.{Error, Result, ok, err, invalid_alloc}
use plx.Prelude.{
  ℕ, zero, suc, ◌+◌, ◌*◌, ◌-◌, ◌<◌, ◌≤◌, max, Bytes, ltb, leb, length, take, drop, ◌++◌, some, ◌≡◌,
  refl, ap, ◌∙◌, arith, Bool-cases, inl, inr, length-append, length-take, length-drop, take_append,
  take_append_more, take_all, take-append_le, ltb→lt, ltb-false, leb→le, leb-false, ltb→lt, ◌⊎◌,
}
use plx.Strbuild.Buffer.{
  Allocator, ExpandedSb, memcpy, sb_flatten_into, double_until, make_expanded_sb, new_capacity,
  grow_to, sb_ensure,
}

-- With fuel for the distance, the loop ends at a capacity that fits, by doubling no further than it
-- must: it is where the loop began, or below twice the need.
pub double_until_lem :
    (fuel newcap required : ℕ)
    → 0 < newcap
    → required - newcap < fuel
    → (n : ℕ) × (double_until fuel newcap required ≡ some n)
      × (required ≤ n)
      × ((n ≡ newcap) ⊎ (n < 2 * required))
unfolding double_until
double_until_lem zero newcap required p h = elim h [ ]
double_until_lem (suc fuel) newcap required p h = elim (Bool-cases (ltb newcap required)) [
  | inl less ↦
      let (n, e, fits, small) =
        double_until_lem fuel (newcap * 2) required (omega arith) (ground arith) in
      (n, rw less e, fits, inr (grow n small (ltb→lt newcap required less)))
  | inr fits ↦ (newcap, rw fits refl, ltb-false newcap required fits, inl refl)
]
  where
    grow : (n : ℕ) → ((n ≡ newcap * 2) ⊎ (n < 2 * required)) → newcap < required → n < 2 * required
    grow n s l = ground arith

pub length-memcpy :
    (buf : Bytes) (off : ℕ) (bytes : Bytes)
    → off + length bytes ≤ length buf
    → length (memcpy buf off bytes) ≡ length buf
unfolding memcpy
length-memcpy buf off bytes h = omega (
  arith,
  length-append (take off buf) (bytes ++ drop (off + length bytes) buf),
  length-append bytes (drop (off + length bytes) buf),
  length-take off buf,
  length-drop (off + length bytes) buf,
)

-- The bytes used after a copy to the end of those used before.
pub take-memcpy :
    (buf : Bytes) (off : ℕ) (bytes : Bytes)
    → off + length bytes ≤ length buf
    → take (off + length bytes) (memcpy buf off bytes) ≡ take off buf ++ bytes
unfolding memcpy
take-memcpy buf off bytes h =
    let e : off ≡ length (take off buf) = omega (arith, length-take off buf) in
    ap (λ k. take (k + length bytes) (memcpy buf off bytes)) e
    ∙ take_append_more (take off buf) (length bytes) _
    ∙ ap (λ b. take off buf ++ b) (take_append bytes (drop (off + length bytes) buf))

-- The cells are there, the used ones are among them, and the size fits an `int32`.
pub record IsValid (mem : Allocator) (sb : ExpandedSb) : Type 0 where
  pub cells : length sb.buf ≡ sb.capacity
  pub used : sb.len ≤ sb.capacity
  pub roomy : 64 ≤ sb.capacity
  pub allowed : sb.capacity ≤ mem.max_alloc_size

-- What `sb_ensure` may return: room for `need` more bytes behind the same contents, or the
-- allocator's error where the whole does not fit its limit.
abbrev pub Ensured : Allocator → ExpandedSb → ℕ → Result ExpandedSb → Type 0
Ensured mem sb need (ok sb') =
    IsValid mem sb'
    × (sb'.len ≡ sb.len)
    × (sb.len + need ≤ sb'.capacity)
    × (sb_flatten_into sb' ≡ sb_flatten_into sb)
Ensured mem sb need (err e) =
    (e ≡ invalid_alloc (sb.len + need)) × (mem.max_alloc_size < sb.len + need)

module _ (mem : Allocator) where
  pub make_expanded_sb-IsValid :
      (bytes : Bytes) (mincap : ℕ) {sb : ExpandedSb}
      → make_expanded_sb mem bytes mincap ≡ ok sb
      → IsValid mem sb × (sb_flatten_into sb ≡ bytes)
  unfolding make_expanded_sb
  make_expanded_sb-IsValid bytes mincap h =
      let cap = max mincap (max (length bytes) 64) in
      ground (
        arith,
        mem.length-fresh cap,
        length-memcpy (mem.fresh cap) 0 bytes,
        take-memcpy (mem.fresh cap) 0 bytes,
      )

  pub make_expanded_sb_too_large :
      (bytes : Bytes) (mincap : ℕ) {e : Error}
      → make_expanded_sb mem bytes mincap ≡ err e
      → (e ≡ invalid_alloc (max mincap (max (length bytes) 64)))
        × (mem.max_alloc_size < max mincap (max (length bytes) 64))
  unfolding make_expanded_sb
  make_expanded_sb_too_large bytes mincap h = ground arith

  take-repalloc :
      (sb : ExpandedSb) (n : ℕ)
      → sb.len ≤ length sb.buf
      → length sb.buf ≤ n
      → take sb.len (take n sb.buf ++ mem.fresh (n - length sb.buf)) ≡ sb_flatten_into sb
  take-repalloc sb n h k =
      rw (take_all n sb.buf k) (take-append_le sb.len sb.buf (mem.fresh (n - length sb.buf)) h)

  grow_to-Ensured :
      (sb : ExpandedSb) (need n : ℕ)
      → IsValid mem sb
      → sb.capacity < sb.len + need
      → sb.len + need ≤ n
      → (mem.max_alloc_size < n → n ≡ sb.len + need)
      → Ensured mem sb need (grow_to mem sb n)
  unfolding grow_to
  grow_to-Ensured sb need n v more fits over = elim (Bool-cases (ltb mem.max_alloc_size n)) [
    | inl big ↦ rw big (ground (arith, over (ltb→lt _ _ big)))
    | inr small ↦ rw small (
        ground (
          arith,
          ltb-false mem.max_alloc_size n small,
          take-repalloc sb n,
          length-append (take n sb.buf) (mem.fresh (n - length sb.buf)),
          mem.length-fresh (n - length sb.buf),
          length-take n sb.buf,
        ))
  ]

  -- The loop that doubles the capacity ends.
  new_capacity_lem :
      (sb : ExpandedSb) (required : ℕ)
      → IsValid mem sb
      → sb.capacity < required
      → (n : ℕ) × (new_capacity mem sb required ≡ some n)
        × (required ≤ n)
        × (mem.max_alloc_size < n → n ≡ required)
  unfolding new_capacity
  new_capacity_lem sb required v more =
      let (m, e, fits, _) =
        double_until_lem (suc required) (sb.capacity * 2) required (omega arith) (omega arith) in
      elim (Bool-cases (ltb mem.max_alloc_size m)) [
        | inl big ↦ (required, rw (e, big) refl, omega arith, λ _. refl)
        | inr small ↦
            (m, rw (e, small) refl, fits, λ over. absurd (omega (arith, ltb-false _ _ small)))
      ]

  -- `sb_ensure` always returns: with room for the bytes that are needed, the contents as they were
  -- and the object well formed, or with the allocator's error, and then only where what is used and
  -- what is needed are together over the allocator's limit.
  pub sb_ensure-Ensured :
      (sb : ExpandedSb) (need : ℕ)
      → IsValid mem sb
      → (r : Result ExpandedSb) × (sb_ensure mem sb need ≡ some r) × Ensured mem sb need r
  unfolding sb_ensure
  sb_ensure-Ensured sb need v = elim (Bool-cases (leb (sb.len + need) sb.capacity)) [
    | inl fits ↦ (ok sb, rw fits refl, (v, refl, leb→le _ _ fits, refl))
    | inr short ↦
        let more = leb-false (sb.len + need) sb.capacity short in
        let (n, e, fits, over) = new_capacity_lem sb (sb.len + need) v more in
        (grow_to mem sb n, rw (short, e) refl, grow_to-Ensured sb need n v more fits over)
  ]
