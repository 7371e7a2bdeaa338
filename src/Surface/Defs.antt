-- ===== src/Surface/Defs.antt =====
-- `Kw`, `PlxKwSpell`, `PlxExcMap`, `PlxBlockStyle` and `PlxSurface` of src/plx_int.h, and
-- `kw_lookup`.
use Prim.Native.String.{String}
use plx.Prelude.{ℕ, Bytes, codes, str_eq, Bool, if◌then◌else◌, List, [], ◌∷◌, Option}

-- The keywords that every dialect maps its own spellings to.
pub data Kw : Type 0 where
  kw_none kw_if kw_unless kw_elsif kw_else kw_then kw_end kw_while : Kw
  kw_until kw_for kw_foreach kw_in kw_as kw_of kw_do kw_begin kw_rescue : Kw
  kw_ensure kw_case kw_when kw_return kw_next kw_break kw_raise : Kw
  kw_and kw_or kw_not kw_emit kw_return_next kw_loop kw_def kw_let : Kw
  kw_pass kw_nil kw_true kw_false : Kw

pub record PlxKwSpell : Type 0 where
  pub w : Bytes
  pub k : Kw

abbrev pub spell : String → Kw → PlxKwSpell
spell word kw = record { w = codes word; k = kw }

pub record PlxExcMap : Type 0 where
  pub cls : Bytes
  pub cond : Bytes

pub data PlxBlockStyle : Type 0 where
  keyword_end brace indent cobol plsql tsql go : PlxBlockStyle

abbrev pub plx_trusted : ℕ
plx_trusted = 0x01

-- A pointer that may be NULL is an `Option`, a character that may be absent a number, 0 for none.
-- The length fields (`nkws`, `nexcs`) are those of the lists.
pub record PlxSurface : Type 0 where
  pub lanname : Bytes
  pub block_style : PlxBlockStyle
  pub stmt_semicolon : Bool
  pub var_sigil : ℕ
  pub cmt_hash : Bool
  pub cmt_slash : Bool
  pub cmt_block : Bool
  pub type_ann : Option Bytes
  pub sq_is_raw : Bool
  pub interp_quote : ℕ
  pub interp_hashbrace : Bool
  pub interp_dollar : Bool
  pub interp_dollarbrace : Bool
  pub fstrings : Bool
  pub concat_op : ℕ
  pub ts_types : Bool
  pub kws : List PlxKwSpell
  pub excs : List PlxExcMap
  pub flags : ℕ

unfoldable pub find_kw : List PlxKwSpell → Bytes → Kw
find_kw [] s = kw_none
find_kw (x ∷ xs) s = if str_eq x.w s then x.k else find_kw xs s

-- The first entry whose spelling is the word, length and bytes.
unfoldable pub kw_lookup : PlxSurface → Bytes → Kw
unfolding find_kw
kw_lookup surf s = find_kw surf.kws s
