-- ===== src/Assemble.antt =====
-- The assembly of the stored text at the end of src/plx_transpile.c: the sentinel, the
-- declarations, the emitted body and the trailer with the original source.
pub mod Recover
use plx.Base64.{encode}
use plx.Prelude.Result.{Result, ok, err, cannot_infer_type, ◌>>=◌}
use plx.Prelude.{
  ℕ, ◌+◌, ◌-◌, ◌*◌, ◌/◌, ◌%◌, ◌^◌, Bytes, codes, starts_with, ltb, ◌==◌, if◌then◌else◌, Bool, true,
  false, ◌||◌, List, [], ◌∷◌, ◌++◌, Option, none, some,
}

-- `PlxLocal2`; a pointer that may be NULL is an `Option`.
pub record PlxLocal2 : Type 0 where
  pub name : Bytes
  pub typ : Option Bytes
  pub is_record : Bool
  pub is_const : Bool
  pub init : Option Bytes

abbrev sentinel : Bytes
sentinel = codes "/*plx:v1:"

-- Blanks are passed over.
unfoldable pub plx_has_sentinel : Bytes → Bool
plx_has_sentinel [] = starts_with sentinel []
plx_has_sentinel (c ∷ r) =
    if c == b' ' || c == b'\n' || c == b'\t' || c == b'\r'
    then plx_has_sentinel r
    else starts_with sentinel (c ∷ r)

-- `h = ((h << 5) + h) + byte`, in 32 bits
unfoldable pub djb2_from : ℕ → Bytes → ℕ
djb2_from h [] = h
djb2_from h (c ∷ r) = djb2_from ((h * 32 + h + c) % 2 ^ 32) r

unfoldable pub djb2 : Bytes → ℕ
unfolding djb2_from
djb2 s = djb2_from 5381 s

abbrev hex_digit : ℕ → ℕ
hex_digit d = if ltb d 10 then b'0' + d else b'a' + d - 10

-- `%08x`
unfoldable pub hex8 : ℕ → Bytes
hex8 h =
    hex_digit (h / 16 ^ 7 % 16)
    ∷ hex_digit (h / 16 ^ 6 % 16)
    ∷ hex_digit (h / 16 ^ 5 % 16)
    ∷ hex_digit (h / 16 ^ 4 % 16)
    ∷ hex_digit (h / 16 ^ 3 % 16)
    ∷ hex_digit (h / 16 ^ 2 % 16)
    ∷ hex_digit (h / 16 % 16)
    ∷ hex_digit (h % 16)
    ∷ []

-- "/*plx:v1:%s:%08x*/\n"
unfoldable pub header : Bytes → Bytes → Bytes
unfolding djb2 hex8
header lanname body = sentinel ++ (lanname ++ (codes ":" ++ (hex8 (djb2 body) ++ codes "*/\n")))

abbrev pub trailer_start : Bytes
trailer_start = codes "/*plx-orig:b64$"

abbrev pub trailer_end : Bytes
trailer_end = codes "$plx-orig*/\n"

unfoldable pub trailer : Bytes → Bytes
trailer body = trailer_start ++ (encode body ++ trailer_end)

-- `%s` of a text that may be NULL, as the server's printf writes it
abbrev text_or_null : Option Bytes → Bytes
text_or_null none = codes "(null)"
text_or_null (some b) = b

-- A line of the DECLARE section.
unfoldable pub declare_typed : PlxLocal2 → Bytes → Bytes
declare_typed l typ =
    if l.is_const
    then codes "  "
      ++ (l.name
          ++ (codes " CONSTANT "
              ++ (typ ++ (codes " := " ++ (text_or_null l.init ++ codes ";\n")))))
    else elim l.init [
      | some init ↦
          codes "  " ++ (l.name ++ (codes " " ++ (typ ++ (codes " := " ++ (init ++ codes ";\n")))))
      | none ↦ codes "  " ++ (l.name ++ (codes " " ++ (typ ++ codes ";\n")))
    ]

unfoldable pub declare_local : Bytes → PlxLocal2 → Result Bytes
unfolding declare_typed
declare_local lanname l =
    if l.is_record then ok (codes "  " ++ (l.name ++ codes " RECORD;\n")) else elim l.typ [
      | none ↦ err (cannot_infer_type lanname l.name)
      | some typ ↦ ok (declare_typed l typ)
    ]

unfoldable pub declare_locals : Bytes → List PlxLocal2 → Result Bytes
unfolding declare_local
declare_locals lanname [] = ok []
declare_locals lanname (l ∷ ls) = do
  line ← declare_local lanname l
  rest ← declare_locals lanname ls
  ok (line ++ rest)

-- The DECLARE section, which is left out where there is nothing to declare.
unfoldable pub declare_section : Bytes → List PlxLocal2 → Result Bytes
unfolding declare_locals
declare_section lanname [] = ok []
declare_section lanname (l ∷ ls) = do
  lines ← declare_locals lanname (l ∷ ls)
  ok (codes "DECLARE\n" ++ lines)

-- From the label `assemble`: `locals` and `out` are what the front end left in the context.
unfoldable pub assemble : Bytes → Bytes → List PlxLocal2 → Bytes → Result Bytes
unfolding declare_section
assemble lanname body locals out = do
  decls ← declare_section lanname locals
  ok (
      header lanname body
      ++ (decls ++ (codes "BEGIN\n" ++ (out ++ (codes "END;\n" ++ trailer body)))))

-- A newline where the text does not end in one.
unfoldable pub ensure_newline : Bytes → Bytes
ensure_newline [] = codes "\n"
ensure_newline (c ∷ []) = if c == b'\n' then c ∷ [] else c ∷ codes "\n"
ensure_newline (c ∷ d ∷ r) = c ∷ ensure_newline (d ∷ r)

-- The PL/SQL branch, whose body has its own DECLARE, BEGIN and END.
unfoldable pub assemble_plain : Bytes → Bytes → Bytes → Bytes
unfolding ensure_newline
assemble_plain lanname body out = ensure_newline (header lanname body ++ out) ++ trailer body
