-- ===== src/Prelude/Ends.antt =====
-- What a run of a parser comes to when it is not cut short, and texts that only grow.
use plx.Prelude.Outcome.{Outcome, done, raised, fault, cut_short, ◌>>=◌}
use plx.Prelude.Result.{Error}
use plx.Prelude.{List, [], ◌++◌, append-nil, append_assoc, ◌≡◌, ◌≢◌, refl, sym, ap, ◌∙◌}

-- The run is not cut short, and where it returns, it returns what the predicate says.
pub data Ends {ℓ} {A : Type ℓ} (P : A → Type 0) : Outcome A → Type ℓ where
  returns : {a : A} → P a → Ends P (done a)
  raises : {e : Error} → Ends P (raised e)
  faults : Ends P fault

pub Ends-done {ℓ} : {A : Type ℓ} {P : A → Type 0} {o : Outcome A} → Ends P o → o ≢ cut_short
Ends-done (returns h) e = cc
Ends-done raises e = cc
Ends-done faults e = cc

pub >>=-Ends {ℓ κ} :
    {A : Type ℓ} {B : Type κ} {P : A → Type 0} (Q : B → Type 0) (o : Outcome A) (f : A → Outcome B)
    → Ends P o
    → ((a : A) → P a → Ends Q (f a))
    → Ends Q (o >>= f)
>>=-Ends Q (done a) f (returns h) k = k a h
>>=-Ends Q (raised e) f h k = raises
>>=-Ends Q fault f h k = faults
>>=-Ends Q cut_short f h k = elim h [ ]

pub Ends-mono {ℓ} :
    {A : Type ℓ} {P : A → Type 0} (Q : A → Type 0) {o : Outcome A}
    → Ends P o
    → ((a : A) → P a → Q a)
    → Ends Q o
Ends-mono Q (returns h) k = returns (k _ h)
Ends-mono Q raises k = raises
Ends-mono Q faults k = faults

-- The run returns what the predicate says, or reports an error.
pub data Answers {ℓ} {A : Type ℓ} (P : A → Type 0) : Outcome A → Type ℓ where
  answers : {a : A} → P a → Answers P (done a)
  refuses : {e : Error} → Answers P (raised e)

pub Answers-mono {ℓ} :
    {A : Type ℓ} {P : A → Type 0} (Q : A → Type 0) {o : Outcome A}
    → Answers P o
    → ((a : A) → P a → Q a)
    → Answers Q o
Answers-mono Q (answers h) k = answers (k _ h)
Answers-mono Q refuses k = refuses

pub >>=-Answers {ℓ κ} :
    {A : Type ℓ} {B : Type κ} {P : A → Type 0} (Q : B → Type 0) (o : Outcome A) (f : A → Outcome B)
    → Answers P o
    → ((a : A) → P a → Answers Q (f a))
    → Answers Q (o >>= f)
>>=-Answers Q (done a) f (answers h) k = k a h
>>=-Answers Q (raised e) f h k = refuses
>>=-Answers Q fault f h k = elim h [ ]
>>=-Answers Q cut_short f h k = elim h [ ]

pub Answers-Ends {ℓ} : {A : Type ℓ} {P : A → Type 0} {o : Outcome A} → Answers P o → Ends P o
Answers-Ends (answers h) = returns h
Answers-Ends refuses = raises

-- The second list begins with the first.
abbrev pub Extends {ℓ} : {A : Type ℓ} → List A → List A → Type ℓ
Extends {A} xs ys = (more : List A) × (ys ≡ xs ++ more)

pub Extends-self {ℓ} : {A : Type ℓ} (xs : List A) → Extends xs xs
Extends-self xs = ([], sym (append-nil xs))

pub Extends-append {ℓ} : {A : Type ℓ} (xs ys : List A) → Extends xs (xs ++ ys)
Extends-append xs ys = (ys, refl)

pub Extends-trans {ℓ} :
    {A : Type ℓ} (xs ys zs : List A) → Extends xs ys → Extends ys zs → Extends xs zs
Extends-trans xs ys zs (a, p) (b, q) = (a ++ b, q ∙ (ap (λ w. w ++ b) p ∙ append_assoc xs a b))

-- The run returns, and what it returns is what the predicate says.
pub data Returns {ℓ} {A : Type ℓ} (P : A → Type 0) : Outcome A → Type ℓ where
  made : {a : A} → P a → Returns P (done a)

pub Returns-mono {ℓ} :
    {A : Type ℓ} {P : A → Type 0} (Q : A → Type 0) {o : Outcome A}
    → Returns P o
    → ((a : A) → P a → Q a)
    → Returns Q o
Returns-mono Q (made h) k = made (k _ h)

pub >>=-Returns {ℓ κ} :
    {A : Type ℓ} {B : Type κ} {P : A → Type 0} (Q : B → Type 0) (o : Outcome A) (f : A → Outcome B)
    → Returns P o
    → ((a : A) → P a → Returns Q (f a))
    → Returns Q (o >>= f)
>>=-Returns Q (done a) f (made h) k = k a h
>>=-Returns Q (raised e) f h k = elim h [ ]
>>=-Returns Q fault f h k = elim h [ ]
>>=-Returns Q cut_short f h k = elim h [ ]

pub Returns-Ends {ℓ} : {A : Type ℓ} {P : A → Type 0} {o : Outcome A} → Returns P o → Ends P o
Returns-Ends (made h) = returns h
