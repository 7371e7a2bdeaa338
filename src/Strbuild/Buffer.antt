-- ===== src/Strbuild/Buffer.antt =====
-- `ExpandedSBHeader`, `make_expanded_sb`, `sb_ensure` and the flattening.
-- The server's allocator is a parameter: its limit, and what the cells that it hands out hold.
pub mod Inv
use mathlib.Core.Option
use plx.Prelude.Result.{Result, ok, err, invalid_alloc, ◌>>=◌}
use plx.Prelude.{
  ℕ, zero, suc, ◌+◌, ◌*◌, ◌-◌, ◌<◌, max, Bytes, if◌then◌else◌, ltb, leb, length, take, drop, List,
  [], ◌++◌, Option, none, some, ◌≡◌,
}

-- `MemoryContextAlloc` and `repalloc`: a request over `MaxAllocSize` (1 GB less one byte) is an
-- error, and any other gives that many cells.
pub record Allocator : Type 0 where
  pub max_alloc_size : ℕ
  pub fresh : ℕ → Bytes
  pub length-fresh : (n : ℕ) → length (fresh n) ≡ n
  pub max_alloc_lt : max_alloc_size < 2147483648

-- `buf` is the `capacity` cells, of which the first `len` are used.
pub record ExpandedSb : Type 0 where
  pub buf : Bytes
  pub len : ℕ
  pub capacity : ℕ

-- `memcpy(buf + off, bytes, length bytes)`
unfoldable pub memcpy : Bytes → ℕ → Bytes → Bytes
memcpy buf off bytes = take off buf ++ (bytes ++ drop (off + length bytes) buf)

-- `sb_flatten_into`, behind the varlena header: the bytes used.
abbrev pub sb_flatten_into : ExpandedSb → Bytes
sb_flatten_into sb = take sb.len sb.buf

-- `sb_get_flat_size`, with `VARHDRSZ` 4
abbrev pub sb_get_flat_size : ExpandedSb → ℕ
sb_get_flat_size sb = 4 + sb.len

-- `while (newcap < required) newcap *= 2`, on fuel; `none` is a loop cut short.
unfoldable pub double_until : ℕ → ℕ → ℕ → Option ℕ
double_until zero newcap required = none
double_until (suc fuel) newcap required =
    let rest = double_until fuel (newcap * 2) required in
    if ltb newcap required then rest else some newcap

module _ (mem : Allocator) where
  open mem use {max_alloc_size, fresh}

  unfoldable pub alloc : ℕ → Result Bytes
  alloc n = if ltb max_alloc_size n then err (invalid_alloc n) else ok (fresh n)

  -- `repalloc` keeps what the cells hold, and adds cells.
  unfoldable pub repalloc : Bytes → ℕ → Result Bytes
  repalloc buf n =
      if ltb max_alloc_size n
      then err (invalid_alloc n)
      else ok (take n buf ++ fresh (n - length buf))

  unfoldable pub make_expanded_sb : Bytes → ℕ → Result ExpandedSb
  unfolding alloc memcpy
  make_expanded_sb bytes mincap = do
    let cap = max mincap (max (length bytes) 64)
    buf ← alloc cap
    ok (record { buf = memcpy buf 0 bytes; len = length bytes; capacity = cap })

  -- The capacity asked for: doubled until it fits, or the exact need where that is over the limit.
  -- In 64 bits nothing wraps here: `required` is below 2^33.
  unfoldable pub new_capacity : ExpandedSb → ℕ → Option ℕ
  new_capacity sb required =
      Option.map (λ n. if ltb max_alloc_size n then required else n)
        (double_until (suc required) (sb.capacity * 2) required)

  unfoldable pub grow_to : ExpandedSb → ℕ → Result ExpandedSb
  unfolding repalloc
  grow_to sb newcap = do
    buf ← repalloc sb.buf newcap
    ok (record sb { buf = buf; capacity = newcap })

  -- `none` is a doubling loop that does not end.
  unfoldable pub sb_ensure : ExpandedSb → ℕ → Option (Result ExpandedSb)
  sb_ensure sb need =
      let required = sb.len + need in
      if leb required sb.capacity
      then some (ok sb)
      else Option.map (grow_to sb) (new_capacity sb required)
