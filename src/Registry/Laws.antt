-- ===== src/Registry/Laws.antt =====
-- The invariant of the registry, lookups after a registration, and registering again.
use plx.Dialect.{PlxDialect, plx_abi_version}
use plx.Prelude.Result.{Result, ok, >>=-eq-ok}
use plx.Prelude.{
  ◌+◌, ◌≤◌, ◌<◌, Bytes, All, str_eq, str_eq_iff, str_eq_refl, if◌then◌else◌, true, false,
  Bool-cases, length, length-append, List, [], ◌∷◌, ◌++◌, Option, none, some, ◌≡◌, refl, sym, ap,
  ◌∙◌, arith, inl, inr,
}
use plx.Registry.{
  Registry, plx_max_dialects, plx_lookup_dialect, is_registered, plx_register_dialect, register_all,
}

-- No name stands twice, every entry has the ABI of this core, and the array is not overrun.
abbrev pub Distinct : Registry → Type 0
Distinct [] = Unit
Distinct (x ∷ xs) = (is_registered xs x.lanname ≡ false) × Distinct xs

abbrev pub SameAbi : Registry → Type 0
SameAbi [] = Unit
SameAbi (x ∷ xs) = (x.abi_version ≡ plx_abi_version) × SameAbi xs

pub record IsValid (reg : Registry) : Type 0 where
  pub distinct : Distinct reg
  pub same_abi : SameAbi reg
  pub in_bounds : length reg ≤ plx_max_dialects

is_registered-append :
    (xs ys : Registry) (n : Bytes)
    → is_registered (xs ++ ys) n ≡ (if is_registered xs n then true else is_registered ys n)
unfolding is_registered
is_registered-append [] ys n = refl
is_registered-append (x ∷ xs) ys n = ground (arith, is_registered-append xs ys n)

lookup_of_unregistered :
    (xs : Registry) (n : Bytes) → is_registered xs n ≡ false → plx_lookup_dialect xs n ≡ none
unfolding is_registered plx_lookup_dialect
lookup_of_unregistered [] n h = refl
lookup_of_unregistered (x ∷ xs) n h = ground (arith, lookup_of_unregistered xs n)

lookup_of_registered :
    (xs : Registry) (n : Bytes)
    → is_registered xs n ≡ true
    → (d : PlxDialect) × (plx_lookup_dialect xs n ≡ some d)
unfolding is_registered plx_lookup_dialect
lookup_of_registered [] n h = absurd (ground arith)
lookup_of_registered (x ∷ xs) n h = elim (Bool-cases (str_eq x.lanname n)) [
  | inl here ↦ (x, rw here refl)
  | inr later ↦
      let rest : is_registered xs n ≡ true = rw later at h in
      let (d, e) = lookup_of_registered xs n rest in (d, rw later e)
]

ok-injective : {a b : Registry} → ◌≡◌ {A = Result Registry} (ok a) (ok b) → a ≡ b
ok-injective h = cc

lookup-append :
    (xs ys : Registry) (n : Bytes)
    → plx_lookup_dialect (xs ++ ys) n
      ≡ (if is_registered xs n then plx_lookup_dialect xs n else plx_lookup_dialect ys n)
unfolding is_registered plx_lookup_dialect
lookup-append [] ys n = refl
lookup-append (x ∷ xs) ys n = ground (arith, lookup-append xs ys n)

Distinct-concat :
    (xs : Registry) (d : PlxDialect)
    → is_registered xs d.lanname ≡ false
    → Distinct xs
    → Distinct (xs ++ d ∷ [])
unfolding is_registered
Distinct-concat [] d h v = (refl, tt)
Distinct-concat (x ∷ xs) d h v = ground (
  arith,
  is_registered-append xs (d ∷ []) x.lanname,
  Distinct-concat xs d,
  str_eq_iff x.lanname d.lanname,
  str_eq_iff d.lanname x.lanname,
)

SameAbi-concat :
    (xs : Registry) (d : PlxDialect)
    → d.abi_version ≡ plx_abi_version
    → SameAbi xs
    → SameAbi (xs ++ d ∷ [])
SameAbi-concat [] d h v = (h, tt)
SameAbi-concat (x ∷ xs) d h v = (v.0, SameAbi-concat xs d h v.1)

-- A registration that succeeds keeps the invariant: no name twice, the ABI of this core throughout,
-- and no more than the 32 entries that the array has.
pub plx_register_dialect-IsValid :
    (d : PlxDialect) (reg : Registry) {reg' : Registry}
    → IsValid reg
    → plx_register_dialect d reg ≡ ok reg'
    → IsValid reg'
unfolding plx_register_dialect
plx_register_dialect-IsValid d reg v h =
    ground (arith, Distinct-concat reg d, SameAbi-concat reg d, length-append reg (d ∷ []))

-- After a registration that succeeds the dialect's name is found, and gives the dialect that had
-- the name before, or else the new one; every other name is looked up as before.
pub lookup-register :
    (d : PlxDialect) (reg : Registry) (n : Bytes) {reg' : Registry}
    → plx_register_dialect d reg ≡ ok reg'
    → plx_lookup_dialect reg' n ≡ (
        if is_registered reg n
        then plx_lookup_dialect reg n
        else if str_eq d.lanname n
        then some d
        else none)
unfolding plx_register_dialect plx_lookup_dialect
lookup-register d reg n h =
    ground
      (arith, lookup-append reg (d ∷ []) n, lookup_of_unregistered reg n, str_eq_iff d.lanname n)

-- Registering keeps the names that are there, adds the dialect's, and adds one entry at most.
register_grows :
    (d : PlxDialect) (reg : Registry) (n : Bytes) {reg' : Registry}
    → plx_register_dialect d reg ≡ ok reg'
    → (is_registered reg n ≡ true → is_registered reg' n ≡ true)
      × (is_registered reg' d.lanname ≡ true)
      × (d.abi_version ≡ plx_abi_version)
      × (length reg' ≤ length reg + 1)
unfolding plx_register_dialect is_registered
register_grows d reg n h = ground (
  arith,
  is_registered-append reg (d ∷ []) n,
  is_registered-append reg (d ∷ []) d.lanname,
  str_eq_refl d.lanname,
  length-append reg (d ∷ []),
)

register_all_keeps :
    (ds : List PlxDialect) (reg : Registry) (n : Bytes) {reg' : Registry}
    → register_all ds reg ≡ ok reg'
    → is_registered reg n ≡ true
    → is_registered reg' n ≡ true
unfolding register_all
register_all_keeps [] reg n h r = ground arith
register_all_keeps (d ∷ ds) reg n h r =
    let (mid, one, rest) = >>=-eq-ok (plx_register_dialect d reg) (register_all ds) h in
    register_all_keeps ds mid n rest ((register_grows d reg n one).0 r)

-- The first that is there.
abbrev pub or_else : Option PlxDialect → Option PlxDialect → Option PlxDialect
or_else (some d) other = some d
or_else none other = other

or_else_assoc : (a b c : Option PlxDialect) → or_else (or_else a b) c ≡ or_else a (or_else b c)
or_else_assoc none b c = refl
or_else_assoc (some d) b c = refl

lookup_cons :
    (d : PlxDialect) (ds : List PlxDialect) (n : Bytes)
    → or_else (plx_lookup_dialect (d ∷ []) n) (plx_lookup_dialect ds n)
      ≡ plx_lookup_dialect (d ∷ ds) n
unfolding plx_lookup_dialect
lookup_cons d ds n = elim (Bool-cases (str_eq d.lanname n)) [
  | inl here ↦ rw here refl
  | inr later ↦ rw later refl
]

or_else-none : (a : Option PlxDialect) → or_else a none ≡ a
or_else-none none = refl
or_else-none (some d) = refl

-- A registration puts the dialect behind those that are there.
or_else-register :
    (d : PlxDialect) (reg : Registry) (n : Bytes) {reg' : Registry}
    → plx_register_dialect d reg ≡ ok reg'
    → plx_lookup_dialect reg' n ≡ or_else (plx_lookup_dialect reg n) (plx_lookup_dialect (d ∷ []) n)
unfolding plx_lookup_dialect
or_else-register d reg n h = elim (Bool-cases (is_registered reg n)) [
  | inl there ↦
      let (old, e) = lookup_of_registered reg n there in
      lookup-register d reg n h ∙ rw (there, e) refl
  | inr new ↦ lookup-register d reg n h ∙ rw (new, lookup_of_unregistered reg n new) refl
]

-- Behind registrations that succeed a name gives the dialect that had it before, or else the first
-- of those registered.
pub lookup-register_all :
    (ds : List PlxDialect) (reg : Registry) (n : Bytes) {reg' : Registry}
    → register_all ds reg ≡ ok reg'
    → plx_lookup_dialect reg' n ≡ or_else (plx_lookup_dialect reg n) (plx_lookup_dialect ds n)
unfolding register_all plx_lookup_dialect
lookup-register_all [] reg n {reg'} h =
    let same : reg ≡ reg' = ok-injective h in
    ap (λ x. plx_lookup_dialect x n) (sym same) ∙ sym (or_else-none (plx_lookup_dialect reg n))
lookup-register_all (d ∷ ds) reg n h =
    let (mid, one, rest) = >>=-eq-ok (plx_register_dialect d reg) (register_all ds) h in
    lookup-register_all ds mid n rest
    ∙ (ap (λ x. or_else x (plx_lookup_dialect ds n)) (or_else-register d reg n one)
        ∙ (or_else_assoc (plx_lookup_dialect reg n) (plx_lookup_dialect (d ∷ []) n) _
            ∙ ap (or_else (plx_lookup_dialect reg n)) (lookup_cons d ds n)))

-- The dialect is registered, and has the ABI of this core.
abbrev IsRegistered : Registry → PlxDialect → Type 0
IsRegistered reg d = (is_registered reg d.lanname ≡ true) × (d.abi_version ≡ plx_abi_version)

register_all-IsRegistered :
    (ds : List PlxDialect) (reg : Registry) {reg' : Registry}
    → register_all ds reg ≡ ok reg'
    → All (IsRegistered reg') ds
unfolding register_all
register_all-IsRegistered [] reg h = tt
register_all-IsRegistered (d ∷ ds) reg h =
    let (mid, one, rest) = >>=-eq-ok (plx_register_dialect d reg) (register_all ds) h in
    let grown = register_grows d reg d.lanname one in
    (
      (register_all_keeps ds mid d.lanname rest grown.1, grown.2),
      register_all-IsRegistered ds mid rest,
    )

register_all_again :
    (ds : List PlxDialect) (reg : Registry)
    → All (IsRegistered reg) ds
    → register_all ds reg ≡ ok reg
unfolding register_all plx_register_dialect
register_all_again [] reg all = refl
register_all_again (d ∷ ds) reg all = ground (arith, register_all_again ds reg all.1)

-- Registrations that succeed can be made again, and then change nothing: every dialect is there.
pub register_all_idem :
    (ds : List PlxDialect) (reg : Registry) {reg' : Registry}
    → register_all ds reg ≡ ok reg'
    → (register_all ds reg' ≡ ok reg') × All (IsRegistered reg') ds
register_all_idem ds reg {reg'} h =
    let all = register_all-IsRegistered ds reg h in (register_all_again ds reg' all, all)

register_ok :
    (d : PlxDialect) (reg : Registry)
    → d.abi_version ≡ plx_abi_version
    → length reg < plx_max_dialects
    → (reg' : Registry) × (plx_register_dialect d reg ≡ ok reg')
unfolding plx_register_dialect
register_ok d reg abi room = elim (Bool-cases (is_registered reg d.lanname)) [
  | inl there ↦ (reg, ground arith)
  | inr new ↦ (reg ++ d ∷ [], ground arith)
]

-- With the ABI of this core and room for them all, registrations succeed.
pub register_all_ok :
    (ds : List PlxDialect) (reg : Registry)
    → All (λ d. d.abi_version ≡ plx_abi_version) ds
    → length reg + length ds ≤ plx_max_dialects
    → (reg' : Registry) × (register_all ds reg ≡ ok reg')
unfolding register_all
register_all_ok [] reg abi room = (reg, refl)
register_all_ok (d ∷ ds) reg abi room =
    let (mid, one) = register_ok d reg abi.0 (omega arith) in
    let grown = register_grows d reg d.lanname one in
    let (end, rest) = register_all_ok ds mid abi.1 (omega (arith, grown.3)) in (end, rw one rest)
