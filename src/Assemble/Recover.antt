-- ===== src/Assemble/Recover.antt =====
-- What the stored text keeps: the sentinel in front, and the original body in the trailer.
use plx.Assemble.{
  PlxLocal2, plx_has_sentinel, header, trailer_start, trailer_end, trailer, declare_section,
  assemble, ensure_newline, assemble_plain,
}
use plx.Base64.RoundTrip.{decode, decode-encode, encode-NoDollar}
use plx.Base64.{encode}
use plx.Prelude.Result.{Result, ok, >>=-eq-ok}
use mathlib.Core.Path.{subst}
use mathlib.Core.List.{reverse-append, reverse-reverse}
use plx.Prelude.{
  Bytes, IsBytes, All, codes, drop, reverse, append_assoc, ◌==◌, if◌then◌else◌, true, Bool-cases,
  inl, inr, List, [], ◌∷◌, ◌++◌, ◌≡◌, ◌≢◌, refl, sym, ap, ◌∙◌, arith,
}

up_to_dollar : Bytes → Bytes
up_to_dollar [] = []
up_to_dollar (c ∷ r) = if c == b'$' then [] else c ∷ up_to_dollar r

-- The original body, read off the end of the stored text: what stands between the last `$` but one
-- and the closing mark of the trailer, decoded.
pub recover : Bytes → Bytes
recover stored = decode (reverse (up_to_dollar (drop 12 (reverse stored))))

up_to_dollar-append : (xs r : Bytes) → All (λ c. c ≢ b'$') xs → up_to_dollar (xs ++ b'$' ∷ r) ≡ xs
unfolding up_to_dollar
up_to_dollar-append [] r h = refl
up_to_dollar-append (x ∷ xs) r h = ground (arith, up_to_dollar-append xs r h.1)

All-append {ℓ κ} :
    {A : Type ℓ} (P : A → Type κ) (xs ys : List A) → All P xs → All P ys → All P (xs ++ ys)
All-append P [] ys h k = k
All-append P (x ∷ xs) ys h k = (h.0, All-append P xs ys h.1 k)

All-reverse {ℓ κ} : {A : Type ℓ} (P : A → Type κ) (xs : List A) → All P xs → All P (reverse xs)
All-reverse P [] h = tt
All-reverse P (x ∷ xs) h =
    rw (reverse-append (x ∷ []) xs)
      (All-append P (reverse xs) (x ∷ []) (All-reverse P xs h.1) (h.0, tt))

reverse-trailer :
    (front body : Bytes)
    → reverse (front ++ trailer body)
      ≡ reverse trailer_end ++ (reverse (encode body) ++ (reverse trailer_start ++ reverse front))
unfolding trailer
reverse-trailer front body = simp (reverse-append, append_assoc)

-- Whatever stands in front of the trailer, the body is read back.
pub recover-trailer : (front body : Bytes) → IsBytes body → recover (front ++ trailer body) ≡ body
unfolding recover
recover-trailer front body h =
    ap (λ s. decode (reverse (up_to_dollar (drop 12 s)))) (reverse-trailer front body)
    ∙ ap (λ s. decode (reverse s))
        (up_to_dollar-append (reverse (encode body)) _
          (All-reverse (λ c. c ≢ b'$') (encode body) (encode-NoDollar body)))
    ∙ ap decode (reverse-reverse (encode body))
    ∙ decode-encode body h

has_sentinel-header :
    (lanname body rest : Bytes) → plx_has_sentinel (header lanname body ++ rest) ≡ true
unfolding plx_has_sentinel header
has_sentinel-header lanname body rest = refl

-- A newline more, or nothing.
ensure_newline-extends : (s : Bytes) → (extra : Bytes) × (ensure_newline s ≡ s ++ extra)
unfolding ensure_newline
ensure_newline-extends [] = (codes "\n", refl)
ensure_newline-extends (c ∷ []) = elim (Bool-cases (c == b'\n')) [
  | inl e ↦ ([], rw e refl)
  | inr e ↦ (codes "\n", rw e refl)
]
ensure_newline-extends (c ∷ d ∷ r) =
    let (extra, e) = ensure_newline-extends (d ∷ r) in (extra, ap (◌∷◌ c) e)

-- A stored text carries the sentinel, and the body that it was made from can be read back from it.
pub record Keeps (body stored : Bytes) : Type 0 where
  pub marked : plx_has_sentinel stored ≡ true
  pub recovered : recover stored ≡ body

pub ok-injective : {a b : Bytes} → ◌≡◌ {A = Result Bytes} (ok a) (ok b) → a ≡ b
ok-injective h = cc

regroup :
    (h decls out end : Bytes)
    → h ++ (decls ++ (codes "BEGIN\n" ++ (out ++ (codes "END;\n" ++ end))))
      ≡ (h ++ (decls ++ (codes "BEGIN\n" ++ (out ++ codes "END;\n")))) ++ end
regroup h decls out end = simp append_assoc

pub assemble-Keeps :
    (lanname body : Bytes) (locals : List PlxLocal2) (out : Bytes) {stored : Bytes}
    → IsBytes body
    → assemble lanname body locals out ≡ ok stored
    → Keeps body stored
unfolding assemble
assemble-Keeps lanname body locals out {stored} b h =
    let (decls, _, e) = >>=-eq-ok (declare_section lanname locals) _ h in
    let front = header lanname body ++ (decls ++ (codes "BEGIN\n" ++ (out ++ codes "END;\n"))) in
    let text : _ ≡ stored = ok-injective e in
    record {
      marked = subst (λ s. plx_has_sentinel s ≡ true) text (has_sentinel-header lanname body _);
      recovered =
          ap recover (sym text)
          ∙ ap recover (regroup (header lanname body) decls out (trailer body))
          ∙ recover-trailer front body b;
    }

pub assemble_plain-Keeps :
    (lanname body out : Bytes) → IsBytes body → Keeps body (assemble_plain lanname body out)
unfolding assemble_plain
assemble_plain-Keeps lanname body out b = record {
  marked =
      let (extra, e) = ensure_newline-extends (header lanname body ++ out) in
      rw (e, append_assoc, append_assoc) (has_sentinel-header lanname body _);
  recovered = recover-trailer (ensure_newline (header lanname body ++ out)) body b;
}
