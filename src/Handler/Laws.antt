-- ===== src/Handler/Laws.antt =====
-- What the handlers leave in the catalog, and what they hand to plpgsql.
use mathlib.Core.Path.{subst}
use plx.Assemble.Recover.{recover}
use plx.Assemble.{plx_has_sentinel}
use plx.Dialect.{PlxFuncMeta, PlxDialect}
use plx.Handler.{
  ProcRow, Catalog, update, build_meta, validate_row, validate_found, plx_generic_validator,
  InlineCodeBlock, Languages, inline_oid_of, plx_generic_inline_handler,
}
use plx.Prelude.Result.{Result, ok, >>=-eq-ok}
use plx.Prelude.{
  ℕ, Bytes, IsBytes, Bool, true, false, ==_iff, Option, none, some, ◌≡◌, ◌≢◌, ◌⊎◌, inl, inr, refl,
  sym, ◌∙◌, ap, arith, Bool-cases, Option-cases,
}
use plx.Surface.Defs.{PlxSurface}
use plx.Transpile.Stored.{plx_transpile-Keeps}
use plx.Transpile.{FrontEnds, plx_transpile}

-- The dialect transpiles by the shared transpiler, with some surface.
abbrev pub TranspilesBy : FrontEnds → PlxDialect → PlxSurface → Type 0
TranspilesBy fe d surf =
    (src : Bytes) (meta : Option PlxFuncMeta)
    → d.transpile src meta ≡ plx_transpile fe src meta surf

-- A source after validation: one that had the sentinel is as it was; any other carries it now, and
-- can be read back.
abbrev pub Stored : Bytes → Bytes → Type 0
Stored src out =
    (plx_has_sentinel out ≡ true)
    × ((plx_has_sentinel src ≡ true) × (out ≡ src)
        ⊎ (plx_has_sentinel src ≡ false) × (recover out ≡ src))

-- A call of plpgsql's inline handler for a block.
abbrev pub Handed : Languages → InlineCodeBlock → ℕ × InlineCodeBlock → Type 0
Handed langs block call =
    (langs.plpgsql_oid ≡ ok call.1.lang_oid)
    × (langs.laninline call.1.lang_oid ≡ some call.0)
    × (call.0 ≢ 0)
    × (call.1.lang_is_trusted ≡ block.lang_is_trusted)
    × (call.1.atomic ≡ block.atomic)
    × (plx_has_sentinel call.1.source_text ≡ true)
    × (recover call.1.source_text ≡ block.source_text)

ok_injective {ℓ} : {A : Type ℓ} {a b : A} → ◌≡◌ {A = Result A} (ok a) (ok b) → a ≡ b
ok_injective h = cc

kept :
    {row : ProcRow} {src : Bytes} → row.prosrc ≡ some src → row ≡ record row { prosrc = some src }
kept h = ground arith

inline_oid_found :
    (column : Option ℕ) {oid : ℕ} → inline_oid_of column ≡ ok oid → (column ≡ some oid) × (oid ≢ 0)
unfolding inline_oid_of
inline_oid_found none h = ground arith
inline_oid_found (some k) h = ground arith

update_ne : (cat : Catalog) (oid j : ℕ) (row : ProcRow) → j ≢ oid → update cat oid row j ≡ cat j
update_ne cat oid j row ne = ground arith

module _ (fe : FrontEnds) (d : PlxDialect) (surf : PlxSurface) (by : TranspilesBy fe d surf) where
  update_self : (cat : Catalog) (oid : ℕ) (row : ProcRow) → update cat oid row oid ≡ some row
  update_self cat oid row = rw ((==_iff oid oid).1 refl) refl

  -- A validation that is allowed is that of the row and the source that are found.
  validator-row :
      (access : ℕ → Bool) (cat : Catalog) (oid : ℕ) (row : ProcRow) (src : Bytes)
      → access oid ≡ true
      → cat oid ≡ some row
      → row.prosrc ≡ some src
      → plx_generic_validator access d cat oid ≡ validate_row d cat oid row src
  unfolding plx_generic_validator
  validator-row access cat oid row src allowed at has =
      rw (allowed, at) (rw (has, validate_found) refl)

  -- A validation that succeeds and is allowed leaves every other row of pg_proc as it was, and of
  -- its own row changes the source only: it carries the sentinel then, and where it did not before,
  -- the dialect's source is read back from it.
  pub validator-Stored :
      (access : ℕ → Bool) (cat : Catalog) (oid : ℕ) (row : ProcRow) (src : Bytes) {cat' : Catalog}
      → IsBytes src
      → access oid ≡ true
      → cat oid ≡ some row
      → row.prosrc ≡ some src
      → plx_generic_validator access d cat oid ≡ ok cat'
      → (out : Bytes) × (cat' oid ≡ some (record row { prosrc = some out }))
        × Stored src out
        × ((j : ℕ) → j ≢ oid → cat' j ≡ cat j)
  unfolding validate_row
  validator-Stored access cat oid row src {cat'} bytes allowed at has h =
      let q = sym (validator-row access cat oid row src allowed at has) ∙ h in
      elim (Bool-cases (plx_has_sentinel src)) [
        | inl marked ↦
            let same : cat ≡ cat' = ok_injective (rw marked at q) in
            (
              src,
              subst (λ (c : Catalog). c oid ≡ some (record row { prosrc = some src })) same
                  (at ∙ ap some (kept has)),
              (marked, inl (marked, refl)),
              λ j ne. subst (λ (c : Catalog). c j ≡ cat j) same refl,
            )
        | inr fresh ↦
            let (out, made, e) =
              >>=-eq-ok (d.transpile src (some (build_meta row oid))) _ (rw fresh at q) in
            let row' = record row { prosrc = some out } in
            let same : update cat oid row' ≡ cat' = ok_injective e in
            let (mark, back) =
              plx_transpile-Keeps fe src (some (build_meta row oid)) surf bytes
                (sym (by src _) ∙ made) in
            (
              out,
              subst (λ (c : Catalog). c oid ≡ some row') same (update_self cat oid row'),
              (mark, inr (fresh, back)),
              λ j ne. subst (λ (c : Catalog). c j ≡ cat j) same (update_ne cat oid j row' ne),
            )
      ]

  validate_marked :
      (cat : Catalog) (oid : ℕ) (row : ProcRow) (src : Bytes)
      → plx_has_sentinel src ≡ true
      → validate_row d cat oid row src ≡ ok cat
  unfolding validate_row
  validate_marked cat oid row src marked = rw marked refl

  -- A second validation of the same function succeeds and changes nothing.
  pub validator_idem :
      (access : ℕ → Bool) (cat : Catalog) (oid : ℕ) {cat' : Catalog}
      → ((row : ProcRow) (src : Bytes) → cat oid ≡ some row → row.prosrc ≡ some src → IsBytes src)
      → plx_generic_validator access d cat oid ≡ ok cat'
      → plx_generic_validator access d cat' oid ≡ ok cat'
  unfolding plx_generic_validator
  validator_idem access cat oid {cat'} bytes h = elim (Bool-cases (access oid)) [
    | inr denied ↦ rw denied refl
    | inl allowed ↦ elim (Option-cases (cat oid)) [
      | inl missing ↦ absurd (ground arith)
      | inr (row, at) ↦ elim (Option-cases row.prosrc) [
        | inl null_source ↦ absurd (ground arith)
        | inr (src, has) ↦
            let (out, at', stored, _) =
              validator-Stored access cat oid row src (bytes row src at has) allowed at has h in
            validator-row access cat' oid (record row { prosrc = some out }) out allowed at' refl
            ∙ validate_marked cat' oid (record row { prosrc = some out }) out stored.0
      ]
    ]
  ]

  -- A DO block is handed to the inline handler of plpgsql with its trust and its atomicity as they
  -- were, under the language plpgsql, and with a text that carries the sentinel and gives the block
  -- back.
  pub inline_handler-Stored :
      (langs : Languages) (block : InlineCodeBlock) {call : ℕ × InlineCodeBlock}
      → IsBytes block.source_text
      → plx_generic_inline_handler langs d block ≡ ok call
      → Handed langs block call
  unfolding plx_generic_inline_handler
  inline_handler-Stored langs block {call} bytes h =
      let (text, made, h₁) = >>=-eq-ok (d.transpile block.source_text none) _ h in
      let (oid, lang, h₂) = >>=-eq-ok langs.plpgsql_oid _ h₁ in
      let (inline, found, h₃) = >>=-eq-ok (inline_oid_of (langs.laninline oid)) _ h₂ in
      let (mark, back) =
        plx_transpile-Keeps fe block.source_text none surf bytes (sym (by _ _) ∙ made) in
      let (column, ne) = inline_oid_found (langs.laninline oid) found in
      let same : _ ≡ call = ok_injective h₃ in
      subst (Handed langs block) same (lang, column, ne, refl, refl, mark, back)
