-- ===== src/Transpile/Stored.antt =====
-- What every stored text has, whichever front end made it.
use plx.Assemble.Recover.{ok-injective, Keeps, assemble-Keeps, assemble_plain-Keeps}
use plx.Assemble.{plx_has_sentinel, assemble_plain}
use plx.Assemble.Recover.{recover}
use plx.Dialect.{PlxFuncMeta}
use mathlib.Core.Path.{subst}
use plx.Plsql.Rewrite.Laws.{plsql_transpile_total}
use plx.Plsql.Rewrite.{plsql_transpile}
use plx.Prelude.Result.{Result, ok, err, >>=-eq-ok}
use plx.Prelude.{Bytes, IsBytes, Option, ◌≡◌, refl, true, arith}
use plx.Surface.Defs.{PlxSurface, PlxBlockStyle, keyword_end, brace, indent, cobol, plsql, tsql, go}
use plx.Transpile.{FrontEnds, Emitted, finished, assembled, transpile_by, plx_transpile}

module _ (fe : FrontEnds) where
  assembled-Keeps :
      (surf : PlxSurface) (body : Bytes) (emitted : Result Emitted) {stored : Bytes}
      → IsBytes body
      → assembled fe surf body emitted ≡ ok stored
      → Keeps body stored
  assembled-Keeps surf body (ok (locals, out)) b h = assemble-Keeps surf.lanname body locals out b h
  assembled-Keeps surf body (err e) b h = absurd (ground arith)

  transpile_by-Keeps :
      (style : PlxBlockStyle) (surf : PlxSurface) (meta : Option PlxFuncMeta) (body : Bytes)
      {stored : Bytes}
      → IsBytes body
      → transpile_by fe style surf meta body ≡ ok stored
      → Keeps body stored
  unfolding transpile_by
  transpile_by-Keeps cobol surf meta body b h = assembled-Keeps surf body _ b h
  transpile_by-Keeps tsql surf meta body b h = assembled-Keeps surf body _ b h
  transpile_by-Keeps go surf meta body b h = assembled-Keeps surf body _ b h
  transpile_by-Keeps plsql surf meta body {stored} b h =
      let (out, _, e) = >>=-eq-ok (finished (plsql_transpile fe.ci body)) _ h in
      let same : _ ≡ stored = ok-injective e in
      subst (Keeps body) same (assemble_plain-Keeps surf.lanname body out b)
  transpile_by-Keeps keyword_end surf meta body b h = assembled-Keeps surf body _ b h
  transpile_by-Keeps brace surf meta body b h = assembled-Keeps surf body _ b h
  transpile_by-Keeps indent surf meta body b h = assembled-Keeps surf body _ b h

  -- In every dialect, what `plx_transpile` returns for a body of bytes carries the sentinel, and
  -- the body is read back from its trailer.
  pub plx_transpile-Keeps :
      (body : Bytes) (meta : Option PlxFuncMeta) (surf : PlxSurface) {stored : Bytes}
      → IsBytes body
      → plx_transpile fe body meta surf ≡ ok stored
      → (plx_has_sentinel stored ≡ true) × (recover stored ≡ body)
  unfolding plx_transpile
  plx_transpile-Keeps body meta surf b h =
      let k = transpile_by-Keeps surf.block_style surf meta body b h in (k.marked, k.recovered)

  -- In a dialect of the PL/SQL style, `plx_transpile` refuses no body of bytes: it returns a text
  -- that carries the sentinel, from whose trailer the body is read back.
  pub plx_transpile_plsql :
      (body : Bytes) (meta : Option PlxFuncMeta) (surf : PlxSurface)
      → IsBytes body
      → surf.block_style ≡ plsql
      → (stored : Bytes) × (plx_transpile fe body meta surf ≡ ok stored)
        × (plx_has_sentinel stored ≡ true)
        × (recover stored ≡ body)
  unfolding plx_transpile transpile_by
  plx_transpile_plsql body meta surf b style =
      let (out, ends) = plsql_transpile_total fe.ci body in
      let stored = assemble_plain surf.lanname body out in
      let k : Keeps body stored = assemble_plain-Keeps surf.lanname body out b in
      (stored, rw (style, ends) refl, k.marked, k.recovered)
