-- ===== src/Base/Results.antt =====
-- Results of fallible code, with `?` as the bind of a `do` block. `E` lists the messages of a
-- component.
use mathlib.Core.Path.{◌≡◌, refl, ap, ◌∙◌}
use mathlib.Core.Bool.{Bool, true, false}
use mathlib.Core.Option.{Option, none, some}
use mathlib.Core.List.{List, [], ◌∷◌}
use native.Mathlib.Omega.{arith}
use gigaam_v3_runtime.Base.Tests.{if◌then◌else◌}
use mathlib.Core.Logic.{◌⊎◌, inl, inr}

pub data Result (E : Type 0) (A : Type 0) : Type 0 where
  err : E → Result E A
  ok : A → Result E A

infixl 5 ◌>>=◌ ◌>>◌
abbrev pub ◌>>=◌ : {E A B : Type 0} → Result E A → (A → Result E B) → Result E B
err failure >>= next = err failure
ok value >>= next = next value

abbrev pub ◌>>◌ : {E B : Type 0} → Result E (Unit {0}) → Result E B → Result E B
first >> next = first >>= λ done. next

-- `if test { return Err(e) }`.
abbrev pub refuse_if : {E : Type 0} → Bool → E → Result E (Unit {0})
refuse_if true e = err e
refuse_if false e = ok tt

-- `ok_or_else`.
abbrev pub ok_or : {E A : Type 0} → Option A → E → Result E A
ok_or none e = err e
ok_or (some a) e = ok a

abbrev pub map_err : {E F A : Type 0} → (E → F) → Result E A → Result F A
map_err f (ok a) = ok a
map_err f (err e) = err (f e)

-- `into_iter().map(f).collect::<Result<Vec<_>, _>>()`: the first failure wins.
abbrev pub collect : {E A B : Type 0} → (A → Result E B) → List A → Result E (List B)
collect f [] = ok []
collect f (x ∷ xs) = f x >>= λ b. collect f xs >>= λ bs. ok (b ∷ bs)

pub >>=-eq-ok :
    {E A B : Type 0} (first : Result E A) (next : A → Result E B) {last : B}
    → (first >>= next) ≡ ok last
    → (value : A) × (first ≡ ok value) × (next value ≡ ok last)
>>=-eq-ok (err failure) next h = cc
>>=-eq-ok (ok value) next h = (value, refl, h)

pub Result-cases :
    {E A : Type 0} (r : Result E A) → ((a : A) × (r ≡ ok a)) ⊎ ((e : E) × (r ≡ err e))
Result-cases (ok a) = inl (a, refl)
Result-cases (err e) = inr (e, refl)

pub ok-injective : {E A : Type 0} {a b : A} → ◌≡◌ {A = Result E A} (ok a) (ok b) → a ≡ b
ok-injective h = ground arith

-- A conditional that succeeds succeeds in the branch of its test.
pub if-eq-ok :
    {E A : Type 0} (test : Bool) (first second : Result E A) {last : A}
    → (if test then first else second) ≡ ok last
    → ((test ≡ true) × (first ≡ ok last)) ⊎ ((test ≡ false) × (second ≡ ok last))
if-eq-ok true first second h = inl (refl, h)
if-eq-ok false first second h = inr (refl, h)

pub >>=-ok :
    {E A B : Type 0} (first : Result E A) (next : A → Result E B) {value : A}
    → first ≡ ok value
    → ((last : B) × (next value ≡ ok last))
    → (last : B) × ((first >>= next) ≡ ok last)
>>=-ok (err failure) next h k = cc
>>=-ok (ok value) next h k = (k.0, ap next (ok-injective h) ∙ k.1)

pub map_err-eq-ok :
    {E F A : Type 0} (f : E → F) (r : Result E A) {value : A}
    → map_err f r ≡ ok value
    → r ≡ ok value
map_err-eq-ok f (err e) h = cc
map_err-eq-ok f (ok a) h = ap ok (ok-injective h)
