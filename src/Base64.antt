-- ===== src/Base64.antt =====
-- `b64_encode_body` of src/plx_transpile.c, which writes the original body into the trailer.
pub mod RoundTrip
use plx.Prelude.{ℕ, ◌+◌, ◌*◌, ◌/◌, ◌%◌, ◌^◌, Bytes, codes, get_or, List, [], ◌∷◌}

abbrev pub alphabet : Bytes
alphabet = codes "ABCDEFGHIJKLMNOPQRSTUVWXYZabcdefghijklmnopqrstuvwxyz0123456789+/"

-- `b64[k]`
unfoldable pub digit : ℕ → ℕ
digit k = get_or alphabet k 0

-- `(v >> s) & 0x3f`
abbrev pub sextet : ℕ → ℕ → ℕ
sextet v s = v / 2 ^ s % 64

-- The loop takes three bytes a round, and the two branches behind it the one or two bytes left.
-- The shifted bytes do not overlap, so `|` is `+`.
unfoldable pub encode : Bytes → Bytes
encode (a ∷ b ∷ c ∷ rest) =
    let v = a * 2 ^ 16 + b * 2 ^ 8 + c in
    digit (sextet v 18) ∷ digit (sextet v 12) ∷ digit (sextet v 6) ∷ digit (v % 64) ∷ encode rest
encode (a ∷ b ∷ []) =
    let v = a * 2 ^ 16 + b * 2 ^ 8 in
    digit (sextet v 18) ∷ digit (sextet v 12) ∷ digit (sextet v 6) ∷ b'=' ∷ []
encode (a ∷ []) = let v = a * 2 ^ 16 in digit (sextet v 18) ∷ digit (sextet v 12) ∷ b'=' ∷ b'=' ∷ []
encode [] = []
