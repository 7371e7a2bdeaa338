-- ===== src/Tsql/Types.antt =====
-- The types of T-SQL: `tq_base_type`, `tq_read_type`, `tq_type_from_range`. A position is the list
-- of the tokens from it on; a read of a token behind the last one is a fault.
use plx.Prelude.Outcome.{Outcome, done, raised, fault, ◌>>=◌}
use plx.Prelude.Result.{syntax}
use plx.Prelude.{
  Bytes, codes, str_eq, length, take, Bool, true, false, not, ◌&&◌, ◌||◌, ◌==◌, if◌then◌else◌, List,
  [], ◌∷◌, ◌++◌, Option, none, some,
}
use plx.Tsql.Token.{TqTok, is_word, is_lp, is_rp, is_eof, is_comma, tq_ident, same_word, tq_ci}

abbrev type_table : List (Bytes × Bytes)
type_table =
    (codes "int", codes "integer")
    ∷ (codes "integer", codes "integer")
    ∷ (codes "bigint", codes "bigint")
    ∷ (codes "smallint", codes "smallint")
    ∷ (codes "tinyint", codes "smallint")
    ∷ (codes "bit", codes "boolean")
    ∷ (codes "decimal", codes "numeric")
    ∷ (codes "numeric", codes "numeric")
    ∷ (codes "dec", codes "numeric")
    ∷ (codes "money", codes "numeric(19,4)")
    ∷ (codes "smallmoney", codes "numeric(10,4)")
    ∷ (codes "float", codes "double precision")
    ∷ (codes "real", codes "real")
    ∷ (codes "date", codes "date")
    ∷ (codes "datetime", codes "timestamp")
    ∷ (codes "datetime2", codes "timestamp")
    ∷ (codes "smalldatetime", codes "timestamp")
    ∷ (codes "datetimeoffset", codes "timestamptz")
    ∷ (codes "time", codes "time")
    ∷ (codes "char", codes "char")
    ∷ (codes "nchar", codes "char")
    ∷ (codes "varchar", codes "varchar")
    ∷ (codes "nvarchar", codes "varchar")
    ∷ (codes "text", codes "text")
    ∷ (codes "ntext", codes "text")
    ∷ (codes "sysname", codes "varchar")
    ∷ (codes "uniqueidentifier", codes "uuid")
    ∷ (codes "xml", codes "xml")
    ∷ (codes "binary", codes "bytea")
    ∷ (codes "varbinary", codes "bytea")
    ∷ (codes "image", codes "bytea")
    ∷ []

-- The tokens up to the first `)` or the end, and those from it on.
unfoldable pub to_rp : List TqTok → List TqTok × List TqTok
to_rp [] = ([], [])
to_rp (t ∷ ts) =
    let (inside, rest) = to_rp ts in
    if is_rp t.kind || is_eof t.kind then ([], t ∷ ts) else (t ∷ inside, rest)

-- `if (tq_cur(tq)->kind == TQ_RP) tq->pos++`
abbrev pub over_rp : List TqTok → Outcome (List TqTok)
over_rp [] = fault
over_rp (t ∷ ts) = done (if is_rp t.kind then ts else t ∷ ts)

abbrev width_text : List TqTok → Bytes
width_text [] = []
width_text (t ∷ ts) = (if is_comma t.kind then codes "," else t.s) ++ width_text ts

abbrev is_same : Option Bytes → Bytes → Bool
is_same none w = false
is_same (some b) w = str_eq b w

abbrev is_some : Option Bytes → Bool
is_some none = false
is_some (some b) = true

abbrev pub base_or : Option Bytes → Bytes → Bytes
base_or none s = tq_ident s
base_or (some b) s = b

module _ (ci : Bytes → Bytes → Bool) where
  abbrev lookup_type : List (Bytes × Bytes) → Bytes → Option Bytes
  lookup_type [] s = none
  lookup_type ((tsql, pg) ∷ rest) s = if same_word ci tsql s then some pg else lookup_type rest s

  unfoldable pub tq_base_type : Bytes → Option Bytes
  tq_base_type s = lookup_type type_table s

  -- A type has a width where it is of characters or numeric, and where it is unknown.
  abbrev keeps_width : Option Bytes → Bool
  keeps_width base =
      not (is_some base)
      || is_same base (codes "varchar")
      || is_same base (codes "char")
      || is_same base (codes "numeric")

  -- The text of a type with something in brackets, whose first token is `inner`.
  unfoldable pub width_type : Option Bytes → Bytes → TqTok → List TqTok → Bytes
  width_type base name inner inside =
      if tq_ci ci inner (codes "MAX")
      then (if is_same base (codes "bytea") then codes "bytea" else codes "text")
      else if keeps_width base
      then name ++ (codes "(" ++ (width_text inside ++ codes ")"))
      else name

  -- Behind the name of a type, at its `(`: the type, and the tokens that are left.
  unfoldable pub read_width : Option Bytes → Bytes → List TqTok → Outcome (Bytes × List TqTok)
  unfolding to_rp width_type
  read_width base name [] = fault
  read_width base name (inner ∷ ts) = do
    left ← over_rp (to_rp (inner ∷ ts)).1
    done (width_type base name inner (to_rp (inner ∷ ts)).0, left)

  unfoldable pub behind_name : Option Bytes → Bytes → List TqTok → Outcome (Bytes × List TqTok)
  unfolding read_width
  behind_name base name [] = fault
  behind_name base name (t ∷ ts) =
      if is_lp t.kind then read_width base name ts else done (name, t ∷ ts)

  unfoldable pub tq_read_type : List TqTok → Outcome (Bytes × List TqTok)
  unfolding behind_name tq_base_type
  tq_read_type [] = fault
  tq_read_type (w ∷ ts) =
      if is_word w.kind
      then behind_name (tq_base_type w.s) (base_or (tq_base_type w.s) w.s) ts
      else raised (syntax w.line (codes "expected a type name"))

  -- `pg_strncasecmp(w->s, p, 4) == 0`; no type of fewer bytes begins such a word.
  abbrev begins4 : Bytes → Bytes → Bool
  begins4 s p = length (take 4 s) == 4 && ci (take 4 s) p

  -- The tokens of a width in a range, up to its first `)`.
  unfoldable pub range_width : List TqTok → Bytes
  range_width [] = codes ")"
  range_width (t ∷ ts) =
      let more =
        (if is_comma t.kind then codes "," else if is_lp t.kind then codes "(" else t.s)
        ++ range_width ts in
      if is_rp t.kind then codes ")" else more

  abbrev width_in : List TqTok → Bytes
  width_in [] = []
  width_in (t ∷ ts) = if is_lp t.kind then range_width (t ∷ ts) else []

  abbrev ranged : Option Bytes → Bytes → Bool
  ranged base s =
      is_some base
      && (begins4 s (codes "char")
          || begins4 s (codes "varc")
          || begins4 s (codes "nvar")
          || begins4 s (codes "ncha")
          || is_same base (codes "numeric"))

  -- The type that a range of tokens names, for CONVERT.
  unfoldable pub tq_type_from_range : List TqTok → Bytes
  unfolding range_width tq_base_type
  tq_type_from_range [] = codes "text"
  tq_type_from_range (w ∷ ts) =
      let base = tq_base_type w.s in
      if is_word w.kind
      then base_or base w.s ++ (if ranged base w.s then width_in ts else [])
      else codes "text"
