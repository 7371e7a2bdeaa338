-- ===== src/Strbuild/Append/Loop.antt =====
-- Appends in a row, as `s := plx_sb_append(s, x)` in a loop makes them.
use plx.Prelude.Result.{Result, ok, err}
use plx.Prelude.{
  ℕ, ◌+◌, ◌*◌, ◌≤◌, Bytes, length, List, [], ◌∷◌, ◌++◌, Option, none, some, ◌≡◌, refl, sym, ap, ◌∙◌,
  arith, append-nil, append_assoc, length-append, max,
}
use plx.Strbuild.Append.Laws.{AllValid, Appended, target, plx_sb_append-Appends}
use plx.Strbuild.Append.{Store, SbDatum, read_write, text_of, plx_sb_append}
use plx.Strbuild.Buffer.{Allocator}

-- The chunks, one behind the other.
abbrev pub concat : List Bytes → Bytes
concat [] = []
concat (b ∷ bs) = b ++ concat bs

module _ (mem : Allocator) where
  -- The builder that is assigned to is handed over read-write from the second round on.
  unfoldable pub append_each : Store → SbDatum → List Bytes → Option (Result (SbDatum × Store))
  append_each store d [] = some (ok (d, store))
  append_each store d (b ∷ bs) = elim (plx_sb_append mem store d (some b)) [
    | none ↦ none
    | some (err e) ↦ some (err e)
    | some (ok (i, store')) ↦ append_each store' (read_write i) bs
  ]

  ok_of_Appended :
      (store : Store) (i : ℕ) (cur b : Bytes) (r : Result (ℕ × Store))
      → max 64 (2 * (length cur + length b)) ≤ mem.max_alloc_size
      → Appended mem store i cur b r
      → (k : ℕ) × (store' : Store) × (r ≡ ok (k, store'))
        × AllValid mem store'
        × (text_of store' (read_write k) ≡ some (cur ++ b))
  ok_of_Appended store i cur b (err e) small (n, what, over, most) = absurd (omega arith)
  ok_of_Appended store i cur b (ok (k, store')) small (same, text, all, _) =
      (k, store', refl, all, rw same text)

  append_each-cons :
      (store : Store) (d : SbDatum) (b : Bytes) (bs : List Bytes) {k : ℕ} {store' : Store}
      → plx_sb_append mem store d (some b) ≡ some (ok (k, store'))
      → append_each store d (b ∷ bs) ≡ append_each store' (read_write k) bs
  unfolding append_each
  append_each-cons store d b bs e = rw (e, append_each) refl

  -- A loop of appends whose whole text is at most half of what the allocator allows never fails,
  -- and leaves the builder with the text that it began with and every chunk behind it, in order.
  pub append_each_lem :
      (chunks : List Bytes) (store : Store) (d : SbDatum) (cur : Bytes)
      → AllValid mem store
      → text_of store d ≡ some cur
      → max 64 (2 * (length cur + length (concat chunks))) ≤ mem.max_alloc_size
      → (d' : SbDatum) × (store' : Store) × (append_each store d chunks ≡ some (ok (d', store')))
        × (text_of store' d' ≡ some (cur ++ concat chunks))
  unfolding append_each
  append_each_lem [] store d cur all t small = (d, store, refl, t ∙ ap some (sym (append-nil cur)))
  append_each_lem (b ∷ bs) store d cur all t small =
      let (r, e, appended) = plx_sb_append-Appends mem store d (some b) all t in
      let (k, store', is_ok, all', text) =
        ok_of_Appended store (target store d) cur b r (omega (arith, length-append b (concat bs)))
          appended in
      let (d', end, q, final) =
        append_each_lem bs store' (read_write k) (cur ++ b) all' text
          (omega (arith, length-append b (concat bs), length-append cur b)) in
      (
        d',
        end,
        append_each-cons store d b bs (e ∙ ap some is_ok) ∙ q,
        final ∙ ap some (append_assoc cur b (concat bs)),
      )
