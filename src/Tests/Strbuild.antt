-- ===== src/Tests/Strbuild.antt =====
-- The string builder over an allocator with the server's limit.
use mathlib.Core.Option
use plx.Prelude.Result.{Result, ok, err, invalid_alloc}
use plx.Prelude.{
  ℕ, zero, suc, ◌*◌, ◌≤◌, ◌<◌, ◌⊎◌, Bytes, codes, length, [], ◌∷◌, ◌++◌, none, some, ◌≡◌, refl,
  arith, ap,
}
use plx.Strbuild.Append.Laws.{AllValid, Appends, plx_sb_append-Appends}
use plx.Strbuild.Append.Loop.{append_each, append_each_lem}
use plx.Strbuild.Append.{
  Store, SbDatum, null, flat, read_write, text_of, plx_sb_append, append_suffix, append_copy,
  append_bytes, append_in_place, copy_behind,
}
use plx.Strbuild.Buffer.Inv.{Ensured, double_until_lem, sb_ensure-Ensured}
use plx.Strbuild.Buffer.{
  Allocator, ExpandedSb, make_expanded_sb, double_until, sb_ensure, new_capacity, grow_to, repalloc,
  memcpy,
}

abbrev zeros : ℕ → Bytes
zeros zero = []
zeros (suc n) = 0 ∷ zeros n

length-zeros : (n : ℕ) → length (zeros n) ≡ n
length-zeros zero = refl
length-zeros (suc n) = ap suc (length-zeros n)

abbrev server : Allocator
server = record {
  max_alloc_size = 0x3fffffff;
  fresh = zeros;
  length-fresh = length-zeros;
  max_alloc_lt = omega arith;
}

-- A small limit, so that refusals can be run.
abbrev small : Allocator
small = record {
  max_alloc_size = 128;
  fresh = zeros;
  length-fresh = length-zeros;
  max_alloc_lt = omega arith;
}

abbrev full_sb : ExpandedSb
full_sb = record { buf = zeros 64; len = 64; capacity = 64 }

double_until_lem_example :
    (n : ℕ) × (double_until 1001 128 1000 ≡ some n) × (1000 ≤ n) × ((n ≡ 128) ⊎ (n < 2 * 1000))
double_until_lem_example = double_until_lem 1001 128 1000 (omega arith) (omega arith)

sb_ensure-Ensured_example :
    (r : Result ExpandedSb) × (sb_ensure server full_sb 100 ≡ some r) × Ensured server full_sb 100 r
sb_ensure-Ensured_example = sb_ensure-Ensured server full_sb 100 (omega arith)

nothing_valid : AllValid server []
nothing_valid i sb h = absurd (ground arith)

plx_sb_append-Appends_example :
    Appends server [] (flat (codes "ab")) (some (codes "cd")) (codes "ab")
unfolding text_of
plx_sb_append-Appends_example =
    plx_sb_append-Appends server [] (flat (codes "ab")) (some (codes "cd")) nothing_valid refl

append_each_lem_example :
    (d : SbDatum) × (store : Store) × (append_each server [] null (codes "a" ∷ codes "bc" ∷ [])
      ≡ some (ok (d, store)))
    × (text_of store d ≡ some (codes "abc"))
unfolding text_of
append_each_lem_example =
    append_each_lem server (codes "a" ∷ codes "bc" ∷ []) [] null [] nothing_valid refl (omega arith)

-- A copy of a flat value asks for twice its length.
refused_copy :
    plx_sb_append small [] (flat (zeros 65)) (some (codes "x")) ≡ some (err (invalid_alloc 130))
unfolding plx_sb_append append_suffix append_copy make_expanded_sb
refused_copy = refl

-- An append into the object handed over, which grows.
in_place :
    Option.map
      (λ r. elim r [ ok (i, s) ↦ text_of s (read_write i) | err e ↦ none ])
      (plx_sb_append server (full_sb ∷ []) (read_write 0) (some (codes "x")))
    ≡ some (some (zeros 64 ++ codes "x"))
unfolding plx_sb_append append_suffix append_bytes append_in_place copy_behind sb_ensure
    new_capacity double_until grow_to repalloc memcpy text_of Option.bind
in_place = refl
