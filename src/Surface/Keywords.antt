-- ===== src/Surface/Keywords.antt =====
-- `kw_lookup` over the tables of the nine surfaces.
use plx.Prelude.{
  Bytes, str_eq, str_eq_iff, All, Bool, true, false, not, ◌&&◌, ◌||◌, List, [], ◌∷◌, ◌≡◌, ◌≢◌, ◌↔◌,
  ◌⊎◌, inl, inr, refl, sym, arith, Bool-cases,
}
use plx.Surface.Cobol.{cob_surface}
use plx.Surface.Defs.{Kw, kw_none, PlxKwSpell, PlxSurface, find_kw, kw_lookup}
use plx.Surface.Go.{go_surface}
use plx.Surface.Js.{js_surface}
use plx.Surface.Php.{php_surface}
use plx.Surface.Plsql.{plsql_surface}
use plx.Surface.Python.{py_surface}
use plx.Surface.Ruby.{ruby_surface}
use plx.Surface.Ts.{ts_surface}
use plx.Surface.Tsql.{tsql_surface}

-- The word has this keyword in the table.
abbrev pub Listed : Bytes → Kw → List PlxKwSpell → Type 0
Listed s k [] = ⊥
Listed s k (x ∷ xs) = (x.w ≡ s) × (x.k ≡ k) ⊎ Listed s k xs

-- The word is in the table.
spelled : Bytes → List PlxKwSpell → Bool
spelled s [] = false
spelled s (x ∷ xs) = str_eq x.w s || spelled s xs

is_none : Kw → Bool
is_none kw_none = true
is_none _ = false

-- No word stands twice, and none is mapped to "no keyword".
is_table : List PlxKwSpell → Bool
is_table [] = true
is_table (x ∷ xs) = not (is_none x.k) && not (spelled x.w xs) && is_table xs

spelled_of_Listed :
    (s : Bytes) (k : Kw) (xs : List PlxKwSpell) → Listed s k xs → spelled s xs ≡ true
unfolding spelled
spelled_of_Listed s k [] h = absurd h
spelled_of_Listed s k (x ∷ xs) (inl (e, _)) = ground (arith, (str_eq_iff x.w s).1 e)
spelled_of_Listed s k (x ∷ xs) (inr h) = ground (arith, spelled_of_Listed s k xs h)

Listed-find :
    (s : Bytes) (k : Kw) (xs : List PlxKwSpell) → k ≢ kw_none → find_kw xs s ≡ k → Listed s k xs
unfolding find_kw
Listed-find s k [] ne h = absurd (ne (sym h))
Listed-find s k (x ∷ xs) ne h = elim (Bool-cases (str_eq x.w s)) [
  | inl same ↦ inl ((str_eq_iff x.w s).0 same, rw same at h)
  | inr other ↦ inr (Listed-find s k xs ne (rw other at h))
]

find_of_Listed :
    (s : Bytes) (k : Kw) (xs : List PlxKwSpell)
    → is_table xs ≡ true
    → Listed s k xs
    → find_kw xs s ≡ k
unfolding find_kw is_table
find_of_Listed s k [] t h = absurd h
find_of_Listed s k (x ∷ xs) t (inl (e, f)) = rw ((str_eq_iff x.w s).1 e) f
find_of_Listed s k (x ∷ xs) t (inr h) = elim (Bool-cases (str_eq x.w s)) [
  | inl same ↦
      let again = spelled_of_Listed s k xs h in
      let e = (str_eq_iff x.w s).0 same in absurd (ground arith)
  | inr other ↦ rw other (find_of_Listed s k xs (ground arith) h)
]

abbrev pub surfaces : List PlxSurface
surfaces =
    ruby_surface ∷ php_surface ∷ js_surface ∷ py_surface ∷ cob_surface ∷ plsql_surface ∷ ts_surface
    ∷ tsql_surface ∷ go_surface ∷ []

abbrev pub OneOf : PlxSurface → List PlxSurface → Type 0
OneOf surf [] = ⊥
OneOf surf (x ∷ xs) = (surf ≡ x) ⊎ OneOf surf xs

tables : All (λ surf. is_table surf.kws ≡ true) surfaces
unfolding is_table spelled is_none
tables = (refl, (refl, (refl, (refl, (refl, (refl, (refl, (refl, (refl, tt)))))))))

OneOf-table :
    (surf : PlxSurface) (xs : List PlxSurface)
    → All (λ x. is_table x.kws ≡ true) xs
    → OneOf surf xs
    → is_table surf.kws ≡ true
OneOf-table surf [] all h = absurd h
OneOf-table surf (x ∷ xs) all (inl e) = rw e all.0
OneOf-table surf (x ∷ xs) all (inr h) = OneOf-table surf xs all.1 h

-- In each of the nine dialects a word is looked up as a keyword exactly when the dialect's table
-- lists it with that keyword: no entry hides another.
pub kw_lookup_iff :
    (surf : PlxSurface) (s : Bytes) (k : Kw)
    → OneOf surf surfaces
    → k ≢ kw_none
    → (kw_lookup surf s ≡ k) ↔ Listed s k surf.kws
unfolding kw_lookup
kw_lookup_iff surf s k one ne = (
  Listed-find s k surf.kws ne,
  find_of_Listed s k surf.kws (OneOf-table surf surfaces tables one),
)
