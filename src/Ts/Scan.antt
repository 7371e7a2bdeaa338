-- ===== src/Ts/Scan.antt =====
-- The scans of the TypeScript pass over text that it copies: `ts_copy_string`, `ts_skip_string`,
-- and the comments. The pointer `p` is the list of the bytes from it to the end; a scan that copies
-- returns the bytes copied and those left.
pub mod Laws
use plx.Prelude.{
  ℕ, zero, suc, ◌-◌, Bytes, Bool, true, false, not, ◌&&◌, ◌||◌, ◌==◌, if◌then◌else◌, ltb, List, [],
  ◌∷◌, within,
}

-- A byte more in front of what a scan has copied.
abbrev pub passed : ℕ → Bytes × Bytes → Bytes × Bytes
passed c (taken, rest) = (c ∷ taken, rest)

unfoldable pub is_ident_start : ℕ → Bool
is_ident_start c = within b'a' b'z' c || within b'A' b'Z' c || c == b'_'

unfoldable pub is_ident : ℕ → Bool
unfolding is_ident_start
is_ident c = is_ident_start c || within b'0' b'9' c

-- The bytes in front of the first that fails the test.
unfoldable pub span : (ℕ → Bool) → Bytes → Bytes × Bytes
span p [] = ([], [])
span p (c ∷ r) = if p c then passed c (span p r) else ([], c ∷ r)

abbrev pub brace_closed : ℕ → ℕ → ℕ
brace_closed brace c = if ltb 0 brace && c == b'}' then brace - 1 else brace

-- A template literal, from behind the opening mark, with `brace` of its `${` open.
unfoldable pub copy_template : ℕ → Bytes → Bytes × Bytes
copy_template brace [] = ([], [])
copy_template brace (c ∷ []) = (c ∷ [], [])
copy_template brace (c ∷ d ∷ r) =
    let escaped = passed c (passed d (copy_template brace r)) in
    let opened = passed c (passed d (copy_template (suc brace) r)) in
    let one = passed c (copy_template (brace_closed brace c) (d ∷ r)) in
    if c == b'\\'
    then escaped
    else if brace == 0 && c == b'`'
    then (c ∷ [], d ∷ r)
    else if c == b'$' && d == b'{'
    then opened
    else one

-- A quoted string, from behind the opening quote `q`.
unfoldable pub copy_quoted : ℕ → Bytes → Bytes × Bytes
copy_quoted q [] = ([], [])
copy_quoted q (c ∷ []) = (c ∷ [], [])
copy_quoted q (c ∷ d ∷ r) =
    let escaped = passed c (passed d (copy_quoted q r)) in
    let one = passed c (copy_quoted q (d ∷ r)) in
    if c == b'\\' then escaped else if c == q then (c ∷ [], d ∷ r) else one

-- From the opening quote on.
unfoldable pub ts_copy_string : Bytes → Bytes × Bytes
unfolding copy_template copy_quoted
ts_copy_string [] = ([], [])
ts_copy_string (q ∷ r) = passed q (if q == b'`' then copy_template 0 r else copy_quoted q r)

-- `ts_skip_string` behind the opening quote: what is left.
unfoldable pub skip_from : ℕ → ℕ → Bytes → Bytes
skip_from q brace [] = []
skip_from q brace (c ∷ []) = []
skip_from q brace (c ∷ d ∷ r) =
    let escaped = skip_from q brace r in
    let opened = skip_from q (suc brace) r in
    let closed = skip_from q (brace - 1) (d ∷ r) in
    let one = skip_from q brace (d ∷ r) in
    if c == b'\\'
    then escaped
    else if q == b'`' && (c == b'$' && d == b'{')
    then opened
    else if q == b'`' && (ltb 0 brace && c == b'}')
    then closed
    else if brace == 0 && c == q
    then d ∷ r
    else one

unfoldable pub ts_skip_string : Bytes → Bytes
unfolding skip_from
ts_skip_string [] = []
ts_skip_string (q ∷ r) = skip_from q 0 r

-- From behind `/*`: up to and over `*/`, or to the end.
unfoldable pub comment_body : Bytes → Bytes × Bytes
comment_body [] = ([], [])
comment_body (c ∷ []) = (c ∷ [], [])
comment_body (c ∷ d ∷ r) =
    if c == b'*' && d == b'/' then (c ∷ d ∷ [], r) else passed c (comment_body (d ∷ r))

abbrev pub not_newline : ℕ → Bool
not_newline c = not (c == b'\n')
