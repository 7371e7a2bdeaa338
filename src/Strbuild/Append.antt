-- ===== src/Strbuild/Append.antt =====
-- `plx_sb_append`, over a store of the expanded objects that the session holds.
pub mod Laws
pub mod Loop
use mathlib.Core.Option
use plx.Prelude.Result.{Result, ok, err, map_ok}
use plx.Prelude.{
  ℕ, zero, suc, ◌+◌, ◌*◌, ◌<◌, Bytes, if◌then◌else◌, ltb, length, get_elem?, set, List, [], ◌∷◌,
  ◌++◌, Option, none, some,
}
use plx.Strbuild.Buffer.{
  Allocator, ExpandedSb, memcpy, sb_flatten_into, make_expanded_sb, sb_ensure,
}

-- The objects, in the order in which they were made; a pointer is an index.
abbrev pub Store : Type 0
Store = List ExpandedSb

-- An argument of type `plx_strbuild`: NULL, a flat value, or a pointer to an expanded object that
-- may be modified, or may not.
pub data SbDatum : Type 0 where
  null : SbDatum
  flat : Bytes → SbDatum
  read_write : ℕ → SbDatum
  read_only : ℕ → SbDatum

-- The text that an argument stands for (`PG_GETARG_TEXT_PP` flattens an expanded object);
-- `none` is a pointer to no object.
unfoldable pub text_of : Store → SbDatum → Option Bytes
text_of store null = some []
text_of store (flat bytes) = some bytes
text_of store (read_write i) = Option.map sb_flatten_into (get_elem? store i)
text_of store (read_only i) = Option.map sb_flatten_into (get_elem? store i)

-- `memcpy(sb->buf + sb->len, …)` and `sb->len += slen`
unfoldable pub copy_behind : Bytes → ExpandedSb → ExpandedSb
copy_behind suffix sb = record sb {
  buf = memcpy sb.buf sb.len suffix;
  len = sb.len + length suffix;
}

module _ (mem : Allocator) where
  -- Behind the choice of the object: room, and the copy.
  unfoldable pub append_bytes : ExpandedSb → Bytes → Option (Result ExpandedSb)
  append_bytes sb suffix =
      if ltb 0 (length suffix)
      then Option.map (map_ok (copy_behind suffix)) (sb_ensure mem sb (length suffix))
      else some (ok sb)

  -- A suffix that is NULL appends nothing.
  unfoldable pub append_suffix : ExpandedSb → Option Bytes → Option (Result ExpandedSb)
  unfolding append_bytes
  append_suffix sb none = some (ok sb)
  append_suffix sb (some suffix) = append_bytes sb suffix

  -- The object in place.
  unfoldable pub append_in_place :
      Store → ℕ → Option Bytes → ExpandedSb → Option (Result (ℕ × Store))
  append_in_place store i suffix sb =
      Option.map (map_ok (λ sb'. (i, set store i sb'))) (append_suffix sb suffix)

  -- A new object, at the end of the store.
  unfoldable pub append_fresh :
      Store → Result ExpandedSb → Option Bytes → Option (Result (ℕ × Store))
  append_fresh store (err e) suffix = some (err e)
  append_fresh store (ok sb) suffix =
      Option.map (map_ok (λ sb'. (length store, store ++ sb' ∷ []))) (append_suffix sb suffix)

  unfoldable pub append_copy : Store → Option Bytes → Bytes → Option (Result (ℕ × Store))
  append_copy store suffix cur =
      append_fresh store (make_expanded_sb mem cur (length cur * 2)) suffix

  -- The result is the object that is returned read-write, and the store. `none` is a pointer to
  -- no object, or a loop that does not end.
  unfoldable pub plx_sb_append : Store → SbDatum → Option Bytes → Option (Result (ℕ × Store))
  unfolding append_in_place append_fresh append_copy text_of
  plx_sb_append store (read_write i) suffix =
      Option.bind (get_elem? store i) (append_in_place store i suffix)
  plx_sb_append store null suffix = append_fresh store (make_expanded_sb mem [] 0) suffix
  plx_sb_append store (flat cur) suffix = append_copy store suffix cur
  plx_sb_append store (read_only i) suffix =
      Option.bind (text_of store (read_only i)) (append_copy store suffix)
