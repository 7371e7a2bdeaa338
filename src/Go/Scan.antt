-- ===== src/Go/Scan.antt =====
-- The scans over the tokens of Go. `ts` are the tokens from a position on, and what is found is an
-- offset from there or a split there.
use plx.Prelude.Int.{ℤ, pos, increment, decrement, is_zero}
use plx.Prelude.{
  ℕ, suc, ◌-◌, length, take, drop, Bool, ◌&&◌, ◌||◌, ◌==◌, if◌then◌else◌, List, [], ◌∷◌, ◌++◌,
  Option, none, some,
}
use plx.Go.Token.{
  GoTok, Nesting, all_brackets, no_braces, parens, opens, closes, is_eof, is_lbrace, is_semi,
  is_comma,
}

abbrev pub Split : Type 0
Split = List GoTok × List GoTok

abbrev split_at : ℕ → List GoTok → Split
split_at k ts = (take k ts, drop k ts)

-- The tokens `[a, b)`.
abbrev pub sub : ℕ → ℕ → List GoTok → List GoTok
sub a b ts = take (b - a) (drop a ts)

-- Where the tokens stand that are at depth 0 and pass a test. A bracket that closes too much makes
-- the depth negative.
unfoldable pub tops : Nesting → (GoTok → Bool) → ℤ → ℕ → List GoTok → List ℕ
tops nest test depth i [] = []
tops nest test depth i (t ∷ ts) =
    let deeper = tops nest test (increment depth) (suc i) ts in
    let upper = tops nest test (decrement depth) (suc i) ts in
    let same = tops nest test depth (suc i) ts in
    if opens nest t.kind
    then deeper
    else if closes nest t.kind
    then upper
    else if is_zero depth && test t
    then i ∷ same
    else same

-- The depth behind the tokens.
unfoldable depth_at_end : Nesting → ℤ → List GoTok → ℤ
depth_at_end nest depth [] = depth
depth_at_end nest depth (t ∷ ts) =
    depth_at_end nest
      (if opens nest t.kind
        then increment depth
        else if closes nest t.kind
        then decrement depth
        else depth)
      ts

abbrev pub first_of : List ℕ → Option ℕ
first_of [] = none
first_of (k ∷ ks) = some k

abbrev pub last_of : List ℕ → Option ℕ
last_of [] = none
last_of (k ∷ []) = some k
last_of (k ∷ l ∷ ks) = last_of (l ∷ ks)

-- The ranges that end at each of the offsets, with the tokens from where they begin.
unfoldable pub ranges : ℕ → List ℕ → List GoTok → List Split
ranges start [] ts = []
ranges start (k ∷ ks) ts = (sub start k ts, drop start ts) ∷ ranges (suc k) ks ts

-- The ends of the parts of a range between commas: the commas, and the end of the range where no
-- bracket is open there.
unfoldable pub part_ends : Nesting → List GoTok → List ℕ
unfolding tops depth_at_end
part_ends nest ts =
    tops nest (λ t. is_comma t.kind) (pos 0) 0 ts
    ++ (if is_zero (depth_at_end nest (pos 0) ts) then length ts ∷ [] else [])

-- Where the tokens stand that pass a test, at any depth.
abbrev pub spots : (GoTok → Bool) → ℕ → List GoTok → List ℕ
spots test i [] = []
spots test i (t ∷ ts) = if test t then i ∷ spots test (suc i) ts else spots test (suc i) ts

-- At `nt - 1`; a list of tokens ends with go_eof, and the first case is not reached.
abbrev pub last_from : List GoTok → Split
last_from [] = ([], [])
last_from (t ∷ []) = ([], t ∷ [])
last_from (t ∷ u ∷ ts) = let (front, rest) = last_from (u ∷ ts) in (t ∷ front, rest)

abbrev pub found_or_last : Option ℕ → List GoTok → Split
found_or_last none ts = last_from ts
found_or_last (some k) ts = split_at k ts

-- The first `;`, go_eof or bracket that closes too much.
unfoldable stmt_end_from : ℕ → ℕ → List GoTok → Option ℕ
stmt_end_from depth i [] = none
stmt_end_from depth i (t ∷ ts) =
    let deeper = stmt_end_from (suc depth) (suc i) ts in
    let upper = stmt_end_from (depth - 1) (suc i) ts in
    let same = stmt_end_from depth (suc i) ts in
    if opens all_brackets t.kind
    then deeper
    else if closes all_brackets t.kind
    then (if depth == 0 then some i else upper)
    else if depth == 0 && (is_semi t.kind || is_eof t.kind)
    then some i
    else same

unfoldable pub go_stmt_end : List GoTok → Split
unfolding stmt_end_from
go_stmt_end ts = found_or_last (stmt_end_from 0 0 ts) ts

unfoldable pub go_header_end : List GoTok → Split
unfolding tops
go_header_end ts =
    found_or_last (first_of (tops no_braces (λ t. is_lbrace t.kind || is_eof t.kind) (pos 0) 0 ts))
      ts

-- A bracket with what is inside, and what stands behind: the tokens inside, the bracket that closes,
-- and the rest.
abbrev pub Inside : Type 0
Inside = List GoTok × GoTok × List GoTok

abbrev pub before : GoTok → Option Inside → Option Inside
before t none = none
before t (some (inside, close, rest)) = some (t ∷ inside, close, rest)

-- Behind an opening bracket; `depth` are those that are open inside it.
unfoldable pub match_from : ℕ → List GoTok → Option Inside
match_from depth [] = none
match_from depth (t ∷ ts) =
    let deeper = before t (match_from (suc depth) ts) in
    let upper = before t (match_from (depth - 1) ts) in
    let same = before t (match_from depth ts) in
    if opens all_brackets t.kind
    then deeper
    else if closes all_brackets t.kind
    then (if depth == 0 then some ([], t, ts) else upper)
    else same

-- `go_match`, where an opening bracket stands.
unfoldable pub go_match : List GoTok → Option Inside
unfolding match_from
go_match [] = none
go_match (t ∷ ts) = if opens all_brackets t.kind then match_from 0 ts else none

-- The first comma outside parentheses, as a split.
unfoldable pub comma_split : List GoTok → Option Split
unfolding tops
comma_split ts = elim (first_of (tops parens (λ t. is_comma t.kind) (pos 0) 0 ts)) [
  | none ↦ none
  | some k ↦ some (take k ts, drop (suc k) ts)
]
