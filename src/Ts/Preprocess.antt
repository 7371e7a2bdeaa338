-- ===== src/Ts/Preprocess.antt =====
-- `ts_preprocess`: annotations of `let`, `const` and `var` become comments, and all else is copied.
pub mod Ends
pub mod Copies
use mathlib.Core.Option
use plx.Prelude.Int.{ℤ, pos, increment, decrement, is_nonpos}
use plx.Prelude.{
  ℕ, zero, suc, ◌-◌, Bytes, codes, str_eq, length, ltb, Bool, true, false, not, ◌&&◌, ◌||◌, ◌==◌,
  if◌then◌else◌, List, [], ◌∷◌, ◌++◌, Option, none, some,
}
use plx.Ts.Scan.{
  passed, is_ident_start, is_ident, span, ts_copy_string, ts_skip_string, comment_body, not_newline,
}
use plx.Ts.Types.{is_blank, opens, closes, bracket_depth, ts_map_type}

-- The parentheses that are open, the depth of an open `for (` header (-1 is `none`), and whether
-- the last word was `for`.
pub record TsState : Type 0 where
  pub pdepth : ℕ
  pub for_depth : Option ℕ
  pub last_for : Bool

abbrev pub is_quote : ℕ → Bool
is_quote c = c == b'\'' || c == b'"' || c == b'`'

-- The type, up to `=`, `;`, `,`, `)` or a newline outside brackets.
unfoldable pub read_type : ℤ → Bytes → Bytes × Bytes
read_type depth [] = ([], [])
read_type depth (c ∷ r) =
    let more = passed c (read_type (bracket_depth c depth) r) in
    if opens c
    then more
    else if closes c
    then more
    else if is_nonpos depth && (c == b'=' || c == b';' || c == b',' || c == b')' || c == b'\n')
    then ([], c ∷ r)
    else more

abbrev pub joined : Bytes → Bytes × Bytes → Bytes × Bytes
joined front (taken, rest) = (front ++ taken, rest)

abbrev pub value_opens : ℕ → Bool
value_opens c = c == b'(' || c == b'[' || c == b'{'

abbrev pub value_closes : ℕ → Bool
value_closes c = c == b')' || c == b']' || c == b'}'

abbrev starts_slash : Bytes → Bool
starts_slash [] = false
starts_slash (d ∷ r) = d == b'/'

-- What a round of the loop over the value passes at `c`: a string, a `//` comment or a byte, with
-- the brackets then open; `none` ends the value.
unfoldable pub value_round : ℕ → ℕ → Bytes → Option ((Bytes × Bytes) × ℕ)
value_round vd c r =
    if is_quote c
    then some (ts_copy_string (c ∷ r), vd)
    else if c == b'/' && starts_slash r
    then some (span not_newline (c ∷ r), vd)
    else if value_opens c
    then some ((c ∷ [], r), suc vd)
    else if value_closes c
    then (if vd == 0 then none else some ((c ∷ [], r), vd - 1))
    else if vd == 0 && (c == b';' || c == b',')
    then none
    else some ((c ∷ [], r), vd)

-- The value of a declaration, on fuel; `none` is a loop cut short. `ts_skip_string` leaves what
-- `ts_copy_string` leaves (Scan/Laws), so the bytes that it skips are those that the latter copies.
unfoldable pub read_value : ℕ → ℕ → Bytes → Option (Bytes × Bytes)
unfolding value_round
read_value zero vd s = none
read_value (suc fuel) vd [] = some ([], [])
read_value (suc fuel) vd (c ∷ r) = elim (value_round vd c r) [
  | none ↦ some ([], c ∷ r)
  | some w ↦ Option.map (joined w.0.0) (read_value fuel w.1 w.0.1)
]

-- A name with an annotation, behind `let`: the text up to the name's end, the type, and what
-- follows.
pub record Annotated : Type 0 where
  pub name : Bytes
  pub type : Bytes
  pub rest : Bytes

abbrev starts_ident : Bytes → Bool
starts_ident [] = false
starts_ident (c ∷ r) = is_ident_start c

-- What is left behind a colon.
abbrev pub behind_colon : Bytes → Option Bytes
behind_colon [] = none
behind_colon (c ∷ r) = if c == b':' then some r else none

unfoldable pub read_annotated : Bytes → Option Annotated
unfolding is_ident_start
read_annotated s =
    let (gap, q) = span is_blank s in
    let (word, r) = span is_ident q in
    if starts_ident q
    then Option.map
        (λ t.
          let (type, rest) = read_type (pos 0) (span is_blank t).1 in
          record { name = gap ++ word; type = type; rest = rest })
        (behind_colon (span is_blank r).1)
    else none

abbrev pub is_declarator : Bytes → Bool
is_declarator w = str_eq w (codes "let") || str_eq w (codes "var") || str_eq w (codes "const")

abbrev pub in_header : TsState → Bool
in_header st = elim st.for_depth [ none ↦ false | some d ↦ true ]

-- What a round writes, the state behind it, and the bytes that it leaves.
pub record Round : Type 0 where
  pub out : Bytes
  pub state : TsState
  pub left : Bytes

abbrev pub annotation : TsState → Bytes → Bytes
annotation st mapped = if in_header st then [] else codes " /*:: " ++ (mapped ++ codes " */")

abbrev starts_equals : Bytes → Bool
starts_equals [] = false
starts_equals (c ∷ r) = c == b'='

-- A round at a bracket, a blank or any other byte.
unfoldable pub plain_round : TsState → ℕ → Bytes → Round
plain_round st c r =
    if c == b'('
    then record {
      out = c ∷ [];
      state = record st {
        pdepth = suc st.pdepth;
        for_depth = if st.last_for then some (suc st.pdepth) else st.for_depth;
        last_for = false;
      };
      left = r;
    }
    else if c == b')'
    then record {
      out = c ∷ [];
      state = record st {
        pdepth = st.pdepth - 1;
        for_depth = elim st.for_depth [
          | none ↦ none
          | some d ↦ if st.pdepth == d then none else some d
        ];
        last_for = false;
      };
      left = r;
    }
    else record {
      out = c ∷ [];
      state = record st {
        last_for = st.last_for && (c == b' ' || c == b'\t' || c == b'\n' || c == b'\r');
      };
      left = r;
    }

-- A comment, copied; it leaves the state as it is.
abbrev pub copied : TsState → Bytes × Bytes → Round
copied st (taken, rest) = record { out = taken; state = st; left = rest }

abbrev pub copied_word : TsState → Bytes → Bytes → Round
copied_word st word rest = record {
  out = word;
  state = record st { last_for = str_eq word (codes "for") };
  left = rest;
}

unfoldable pub comment_round : TsState → ℕ → Bytes → Option Round
comment_round st c [] = none
comment_round st c (d ∷ r) =
    if c == b'/' && d == b'/'
    then some (copied st (span not_newline (c ∷ d ∷ r)))
    else if c == b'/' && d == b'*'
    then some (copied st (passed c (passed d (comment_body r))))
    else none

-- With a value the annotation goes behind it, and without one behind the name; in the header of a
-- `for` there is none.
abbrev written : TsState → Bytes → Annotated → Bytes → Bytes × Bytes → Round
written st word a mapped (value, rest) =
    if starts_equals a.rest
    then record {
      out = word ++ (a.name ++ (value ++ annotation st mapped));
      state = record st { last_for = false };
      left = rest;
    }
    else record {
      out = word ++ (a.name ++ (if in_header st then codes " " else annotation st mapped));
      state = record st { last_for = false };
      left = a.rest;
    }

module _ (ci : Bytes → Bytes → Bool) where
  -- A declaration with an annotation, behind its first word.
  unfoldable pub declare_round : TsState → Bytes → Annotated → Option Round
  declare_round st word a =
      Option.bind (ts_map_type ci a.type) (λ mapped.
        Option.map (written st word a mapped) (read_value (suc (length a.rest)) 0 a.rest))

  -- A round at a word.
  unfoldable pub word_round : TsState → Bytes → Bytes → Option Round
  unfolding declare_round read_annotated
  word_round st word rest =
      if is_declarator word
      then elim (read_annotated rest) [
        | none ↦ some (copied_word st word rest)
        | some a ↦ declare_round st word a
      ]
      else some (copied_word st word rest)

  -- A round of the loop at `c`; `none` is a loop in it cut short.
  unfoldable pub ts_round : TsState → ℕ → Bytes → Option Round
  unfolding word_round plain_round comment_round
  ts_round st c r =
      if is_quote c
      then some (copied (record st { last_for = false }) (ts_copy_string (c ∷ r)))
      else elim (comment_round st c r) [
        | some w ↦ some w
        | none ↦
            if c == b'('
            then some (plain_round st c r)
            else if c == b')'
            then some (plain_round st c r)
            else if is_ident_start c
            then word_round st (span is_ident (c ∷ r)).0 (span is_ident (c ∷ r)).1
            else some (plain_round st c r)
      ]

  -- The loop, on fuel.
  unfoldable pub preprocess_from : ℕ → TsState → Bytes → Option Bytes
  unfolding ts_round
  preprocess_from zero st s = none
  preprocess_from (suc fuel) st [] = some []
  preprocess_from (suc fuel) st (c ∷ r) = elim (ts_round st c r) [
    | none ↦ none
    | some w ↦ Option.map (λ b. w.out ++ b) (preprocess_from fuel w.state w.left)
  ]

  unfoldable pub ts_preprocess : Bytes → Option Bytes
  unfolding preprocess_from
  ts_preprocess src =
      preprocess_from (suc (length src)) (record { pdepth = 0; for_depth = none; last_for = false })
        src
