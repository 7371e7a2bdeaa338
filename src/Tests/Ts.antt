-- ===== src/Tests/Ts.antt =====
-- The TypeScript pass on small sources.
use mathlib.Core.Option
use plx.Prelude.{Bytes, codes, Option, some, ◌≡◌, refl, arith}
use plx.Tests.{ascii_ci}
use plx.Ts.Preprocess.Copies.{ts_preprocess-NoColon}
use plx.Ts.Preprocess.Ends.{ts_preprocess_total}
use plx.Ts.Preprocess.{
  ts_preprocess, read_type, read_value, plain_round, comment_round, declare_round,
}
use plx.Ts.Scan.Laws.{skip-copy}
use plx.Ts.Scan.{
  is_ident, span, copy_template, copy_quoted, ts_copy_string, ts_skip_string, comment_body,
}
use plx.Ts.Types.{
  trim_start, trim_end, split_union, without_brackets, map_scalar, map_single, map_type_on,
  ts_map_type,
}

mapped : Bytes → Option Bytes
unfolding ts_map_type map_type_on map_single map_scalar without_brackets split_union trim_end
    trim_start
mapped = ts_map_type ascii_ci

run : Bytes → Option Bytes
unfolding mapped ts_preprocess read_type read_value plain_round comment_round declare_round is_ident
    span copy_template copy_quoted ts_copy_string comment_body Option.bind
run = ts_preprocess ascii_ci

maps :
    (mapped (codes " Number[] ") ≡ some (codes "numeric[]"))
    × (mapped (codes "string | null") ≡ some (codes "text"))
    × (mapped (codes "null|bigint") ≡ some (codes "bigint"))
    × (mapped (codes "Map<a|b>") ≡ some (codes "Map<a|b>"))
unfolding mapped
maps = (refl, refl, refl, refl)

declarations :
    (run (codes "let x : number = f(1, 2); const s: string;")
      ≡ some (codes "let x= f(1, 2) /*:: numeric */; const s /*:: text */;"))
    × (run (codes "for (let i: number = 0; i < 3; i++) { a ? b : c }")
        ≡ some (codes "for (let i= 0; i < 3; i++) { a ? b : c }"))
    × (run (codes "var q: T = `a${b};`; // let x: y")
        ≡ some (codes "var q= `a${b};` /*:: T */; // let x: y"))
unfolding run
declarations = (refl, refl, refl)

-- A comment in a value with a `;` in it ends the value, and the annotation lands in the comment.
comment_in_value :
    run (codes "let x: number = 5 /* a;b */;") ≡ some (codes "let x= 5 /* a /*:: numeric */;b */;")
unfolding run
comment_in_value = refl

abbrev no_colon : Bytes
no_colon = codes "let x = '`'; // f"

ts_preprocess-NoColon_example : ts_preprocess ascii_ci no_colon ≡ some no_colon
ts_preprocess-NoColon_example = ts_preprocess-NoColon ascii_ci no_colon (omega arith)

ts_preprocess_total_example :
    (out : Bytes) × (ts_preprocess ascii_ci (codes "let x: T[") ≡ some out)
ts_preprocess_total_example = ts_preprocess_total ascii_ci (codes "let x: T[")

-- The first member is compared with its trailing blank.
null_first :
    (ts_map_type ascii_ci (codes "null | string") ≡ some (codes "null"))
    × (ts_map_type ascii_ci (codes "null|string") ≡ some (codes "text"))
unfolding ts_map_type map_type_on split_union trim_end trim_start
null_first = (refl, refl)

skip-copy_example :
    ts_skip_string (codes "`a${'`'}` + b") ≡ (ts_copy_string (codes "`a${'`'}` + b")).1
skip-copy_example = skip-copy (codes "`a${'`'}` + b")
