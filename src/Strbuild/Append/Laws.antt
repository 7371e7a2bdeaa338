-- ===== src/Strbuild/Append/Laws.antt =====
-- What `plx_sb_append` makes of the store: the text appended to, and nothing else touched.
use mathlib.Core.Option
use mathlib.Core.Option.{some-injective}
use mathlib.Core.Path.{subst}
use native.Mathlib.Decide.{ℕ_discrete}
use plx.Prelude.Result.{Result, ok, err, invalid_alloc, map_ok}
use plx.Prelude.{
  ℕ, ◌+◌, ◌*◌, ◌<◌, ◌≤◌, Bytes, length, get_elem?, set, [], ◌∷◌, ◌++◌, Option, none, some, ◌≡◌, ◌≢◌,
  inl, inr, refl, ap, sym, ◌∙◌, arith, Option-cases, append-nil, length-take, get_elem?-set_self,
  get_elem?-set_ne, get_elem?-concat, get_elem?-concat_ne, max,
}
use plx.Strbuild.Append.{
  Store, SbDatum, null, flat, read_write, read_only, text_of, copy_behind, append_bytes,
  append_suffix, append_in_place, append_fresh, append_copy, plx_sb_append,
}
use plx.Strbuild.Buffer.Inv.{
  IsValid, Ensured, sb_ensure-Ensured, make_expanded_sb-IsValid, make_expanded_sb_too_large,
  length-memcpy, take-memcpy,
}
use plx.Strbuild.Buffer.{Allocator, ExpandedSb, sb_flatten_into, make_expanded_sb}

abbrev pub suffix_text : Option Bytes → Bytes
suffix_text none = []
suffix_text (some b) = b

module _ (mem : Allocator) where
  -- Every object of the store is well formed.
  abbrev pub AllValid : Store → Type 0
  AllValid store = (i : ℕ) (sb : ExpandedSb) → get_elem? store i ≡ some sb → IsValid mem sb

  -- An object with `bytes` behind the contents of `sb`, or the allocator's error where the whole
  -- does not fit its limit.
  abbrev Longer : ExpandedSb → Bytes → Result ExpandedSb → Type 0
  Longer sb bytes (ok sb') = IsValid mem sb' × (sb_flatten_into sb' ≡ sb_flatten_into sb ++ bytes)
  Longer sb bytes (err e) =
      (e ≡ invalid_alloc (sb.len + length bytes)) × (mem.max_alloc_size < sb.len + length bytes)

  copy_behind-Longer :
      (sb : ExpandedSb) (bytes : Bytes) (r : Result ExpandedSb)
      → Ensured mem sb (length bytes) r
      → Longer sb bytes (map_ok (copy_behind bytes) r)
  unfolding copy_behind
  copy_behind-Longer sb bytes (ok sb') (v, same, room, text) =
      ground (arith, length-memcpy sb'.buf sb'.len bytes, take-memcpy sb'.buf sb'.len bytes)
  copy_behind-Longer sb bytes (err e) h = h

  empty-Longer : (sb : ExpandedSb) → IsValid mem sb → Longer sb [] (ok sb)
  empty-Longer sb v = (v, sym (append-nil (sb_flatten_into sb)))

  append_bytes-Longer :
      (sb : ExpandedSb) (bytes : Bytes)
      → IsValid mem sb
      → (r : Result ExpandedSb) × (append_bytes mem sb bytes ≡ some r) × Longer sb bytes r
  unfolding append_bytes
  append_bytes-Longer sb [] v = (ok sb, refl, empty-Longer sb v)
  append_bytes-Longer sb (c ∷ cs) v =
      let bytes = c ∷ cs in
      let (r, e, h) = sb_ensure-Ensured mem sb (length bytes) v in
      (map_ok (copy_behind bytes) r, ground (arith, e), copy_behind-Longer sb bytes r h)

  append_suffix-Longer :
      (sb : ExpandedSb) (suffix : Option Bytes)
      → IsValid mem sb
      → (r : Result ExpandedSb) × (append_suffix mem sb suffix ≡ some r)
        × Longer sb (suffix_text suffix) r
  unfolding append_suffix
  append_suffix-Longer sb none v = (ok sb, refl, empty-Longer sb v)
  append_suffix-Longer sb (some bytes) v = append_bytes-Longer sb bytes v

-- The object that the result is in: the one handed over to be modified, or a new one.
abbrev pub target : Store → SbDatum → ℕ
target store (read_write i) = i
target store null = length store
target store (flat b) = length store
target store (read_only i) = length store

module _ (mem : Allocator) (store : Store) where
  -- After an append to the text `cur` in object `i`: the longer text is there, every object is well
  -- formed, and no other has changed. An error is the allocator's, for more than it allows.
  abbrev pub Appended : ℕ → Bytes → Bytes → Result (ℕ × Store) → Type 0
  Appended i cur bytes (ok (k, store')) =
      (k ≡ i)
      × (text_of store' (read_write i) ≡ some (cur ++ bytes))
      × AllValid mem store'
      × ((j : ℕ) → j ≢ i → get_elem? store' j ≡ get_elem? store j)
  Appended i cur bytes (err e) =
      (n : ℕ) × (e ≡ invalid_alloc n)
      × (mem.max_alloc_size < n)
      × (n ≤ max 64 (2 * (length cur + length bytes)))

  -- An object put at `i` of a store that is otherwise as it was.
  module _ (i : ℕ) (put : ExpandedSb → Store) where
    put-AllValid :
        (sb : ExpandedSb)
        → AllValid mem store
        → get_elem? (put sb) i ≡ some sb
        → ((j : ℕ) → j ≢ i → get_elem? (put sb) j ≡ get_elem? store j)
        → IsValid mem sb
        → AllValid mem (put sb)
    put-AllValid sb all at off v j x h = elim (ℕ_discrete j i) [
      | yes e ↦ let same : sb ≡ x = cc in subst (IsValid mem) same v
      | no ne ↦ all j x (sym (off j ne) ∙ h)
    ]

    put-Appended :
        (sb : ExpandedSb) (bytes : Bytes)
        → AllValid mem store
        → IsValid mem sb
        → ((x : ExpandedSb) → get_elem? (put x) i ≡ some x)
        → ((x : ExpandedSb) (j : ℕ) → j ≢ i → get_elem? (put x) j ≡ get_elem? store j)
        → (r : Result ExpandedSb) → Longer mem sb bytes r
        → Appended i (sb_flatten_into sb) bytes (map_ok (λ x. (i, put x)) r)
    unfolding text_of
    put-Appended sb bytes all v at off (ok x) (valid, text) =
        (refl, rw (at x) (ap some text), put-AllValid x all (at x) (off x) valid, off x)
    put-Appended sb bytes all v at off (err e) (what, over) =
        (sb.len + length bytes, what, over, omega (arith, length-take sb.len sb.buf))

  in_place-Appended :
      (i : ℕ) (sb : ExpandedSb) (suffix : Option Bytes)
      → AllValid mem store
      → get_elem? store i ≡ some sb
      → (r : Result (ℕ × Store)) × (append_in_place mem store i suffix sb ≡ some r)
        × Appended i (sb_flatten_into sb) (suffix_text suffix) r
  unfolding append_in_place
  in_place-Appended i sb suffix all at =
      let (r, e, longer) = append_suffix-Longer mem sb suffix (all i sb at) in
      let put = λ (x : ExpandedSb). set store i x in
      (
        map_ok (λ sb'. (i, set store i sb')) r,
        rw e refl,
        put-Appended i put sb (suffix_text suffix) all (all i sb at)
            (λ x. get_elem?-set_self store i x at) (λ x j ne. get_elem?-set_ne store i j x ne) r
            longer,
      )

  fresh_object-Appended :
      (cur : Bytes) (mincap : ℕ) (suffix : Option Bytes)
      → AllValid mem store
      → mincap ≤ 2 * length cur
      → (made : Result ExpandedSb) → make_expanded_sb mem cur mincap ≡ made
      → (r : Result (ℕ × Store)) × (append_fresh mem store made suffix ≡ some r)
        × Appended (length store) cur (suffix_text suffix) r
  unfolding append_fresh
  fresh_object-Appended cur mincap suffix all small (err e) q =
      let (what, over) = make_expanded_sb_too_large mem cur mincap q in
      (err e, refl, (max mincap (max (length cur) 64), what, over, omega arith))
  fresh_object-Appended cur mincap suffix all small (ok sb) q =
      let (v, text) = make_expanded_sb-IsValid mem cur mincap q in
      let (r, e, longer) = append_suffix-Longer mem sb suffix v in
      let put = λ (x : ExpandedSb). store ++ x ∷ [] in
      (
        map_ok (λ sb'. (length store, store ++ sb' ∷ [])) r,
        rw e refl,
        subst
            (λ t.
              Appended (length store) t (suffix_text suffix)
                (map_ok (λ sb'. (length store, store ++ sb' ∷ [])) r))
            text
            (put-Appended (length store) put sb (suffix_text suffix) all v
              (λ x. get_elem?-concat store x) (λ x j ne. get_elem?-concat_ne store x j ne) r
              longer),
      )

  -- The call returns, with the text `cur` appended to.
  abbrev pub Appends : SbDatum → Option Bytes → Bytes → Type 0
  Appends d suffix cur =
      (r : Result (ℕ × Store)) × (plx_sb_append mem store d suffix ≡ some r)
      × Appended (target store d) cur (suffix_text suffix) r

  copy-Appended :
      (cur : Bytes) (suffix : Option Bytes)
      → AllValid mem store
      → (r : Result (ℕ × Store)) × (append_copy mem store suffix cur ≡ some r)
        × Appended (length store) cur (suffix_text suffix) r
  unfolding append_copy
  copy-Appended cur suffix all =
      fresh_object-Appended cur (length cur * 2) suffix all (omega arith) _ refl

  -- `plx_sb_append` always returns. What it returns holds the text of the builder with the suffix
  -- behind it, in the object handed over read-write, or else in a new one; every object stays well
  -- formed, and every other object is as it was. It fails with the allocator's error only, for a
  -- size over the allocator's limit that is at most 64 or twice the length of the longer text.
  pub plx_sb_append-Appends :
      (d : SbDatum) (suffix : Option Bytes) {cur : Bytes}
      → AllValid mem store
      → text_of store d ≡ some cur
      → Appends d suffix cur
  unfolding plx_sb_append text_of Option.bind append_suffix
  plx_sb_append-Appends null suffix all t =
      subst (Appends null suffix) (some-injective _ _ t)
        (fresh_object-Appended [] 0 suffix all (omega arith) _ refl)
  plx_sb_append-Appends (flat b) suffix all t =
      subst (Appends (flat b) suffix) (some-injective _ _ t) (copy-Appended b suffix all)
  plx_sb_append-Appends (read_only i) suffix {cur} all t =
      let (r, e, h) = copy-Appended cur suffix all in (r, rw t e, h)
  plx_sb_append-Appends (read_write i) suffix {cur} all t =
      elim (Option-cases (get_elem? store i)) [
        | inl missing ↦ absurd (ground arith)
        | inr (sb, at) ↦
            let (r, e, h) = in_place-Appended i sb suffix all at in
            let same : sb_flatten_into sb ≡ cur = ground arith in
            (r, rw at e, subst (λ c. Appended i c (suffix_text suffix) r) same h)
      ]
