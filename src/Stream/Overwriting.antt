-- ===== src/Stream/Overwriting.antt =====
-- Lists that differ only in the places that a loop overwrites, and chains of fallible steps.
use gigaam_v3_runtime.Base.{
  ℕ, zero, suc, ◌+◌, ◌*◌, ◌≤◌, ◌<◌, ◌≡◌, refl, ap, sym, ◌∙◌, ◌⊎◌, inl, inr, Bool, true, false, none,
  some, List, [], ◌∷◌, if◌then◌else◌, arith, leb, length, get_elem?, set, Result, ok, err, ◌>>=◌,
  ok-injective, ok_or,
}
use gigaam_v3_runtime.Base.Words.{checked_add, checked_mul, usize_max}

pub >>=-cong :
    {E A B : Type 0} (r : Result E A) (f g : A → Result E B)
    → ((a : A) → f a ≡ g a)
    → (r >>= f) ≡ (r >>= g)
>>=-cong (err e) f g h = refl
>>=-cong (ok a) f g h = h a

some_injective : {A : Type 0} {a b : A} → some a ≡ some b → a ≡ b
some_injective h = ground arith

shifted_position : (m n : ℕ) → (m < n) ⊎ (n < m) → (suc m < suc n) ⊎ (suc n < suc m)
shifted_position m n (inl h) = inl (omega (arith, h))
shifted_position m n (inr h) = inr (omega (arith, h))

position : (m n : ℕ) → (m ≡ n) ⊎ ((m < n) ⊎ (n < m))
position zero zero = inl refl
position zero (suc n) = inr (inl (omega arith))
position (suc m) zero = inr (inr (omega arith))
position (suc m) (suc n) = elim (position m n) [
  | inl h ↦ inl (ap suc h)
  | inr h ↦ inr (shifted_position m n h)
]

still_away :
    (from n i : ℕ)
    → (from < i) ⊎ (i < from)
    → (i < suc from) ⊎ (suc from + n ≤ i)
    → (i < from) ⊎ (from + suc n ≤ i)
still_away from n i (inr h) away = inl h
still_away from n i (inl h) (inl k) = inl (omega (arith, h, k))
still_away from n i (inl h) (inr k) = inr (omega (arith, k))

apart : (from n i : ℕ) → (i < from) ⊎ (from + suc n ≤ i) → (from < i) ⊎ (i < from)
apart from n i (inl h) = inr h
apart from n i (inr h) = inl (omega (arith, h))

away_after : (from n i : ℕ) → (i < from) ⊎ (from + suc n ≤ i) → (i < suc from) ⊎ (suc from + n ≤ i)
away_after from n i (inl h) = inl (omega (arith, h))
away_after from n i (inr h) = inr (omega (arith, h))

pub everywhere : (from i : ℕ) → (i < from) ⊎ (from + 0 ≤ i)
everywhere zero i = inr (omega arith)
everywhere (suc from) zero = inl (omega arith)
everywhere (suc from) (suc i) = elim (everywhere from i) [
  | inl h ↦ inl (omega (arith, h))
  | inr h ↦ inr (omega (arith, h))
]

pub get_elem?-within :
    {A : Type 0} (xs : List A) (i : ℕ) → i < length xs → (a : A) × (get_elem? xs i ≡ some a)
get_elem?-within [] i h = ground arith
get_elem?-within (x ∷ xs) zero h = (x, refl)
get_elem?-within (x ∷ xs) (suc i) h = get_elem?-within xs i (omega (arith, h))

away_more : (from n k i : ℕ) → n ≤ k → (i < from) ⊎ (from + k ≤ i) → (i < from) ⊎ (from + n ≤ i)
away_more from n k i h (inl j) = inl j
away_more from n k i h (inr j) = inr (omega (arith, h, j))

pub >>=-cong_ok :
    {E A B : Type 0} (r : Result E A) (f g : A → Result E B)
    → ((a : A) → r ≡ ok a → f a ≡ g a)
    → (r >>= f) ≡ (r >>= g)
>>=-cong_ok (err e) f g h = refl
>>=-cong_ok (ok a) f g h = h a refl

if_some-value :
    {E : Type 0} (b : Bool) (v : ℕ) (e : E) {n : ℕ}
    → ok_or (if b then some v else none) e ≡ ok n
    → n ≡ v
if_some-value true v e h = sym (ok-injective h)
if_some-value false v e h = cc

pub checked_mul-value :
    {E : Type 0} (a b : ℕ) (e : E) {n : ℕ} → ok_or (checked_mul a b) e ≡ ok n → n ≡ a * b
unfolding checked_mul
checked_mul-value a b e h = if_some-value (leb (a * b) usize_max) (a * b) e h

pub checked_add-value :
    {E : Type 0} (a b : ℕ) (e : E) {n : ℕ} → ok_or (checked_add a b) e ≡ ok n → n ≡ a + b
unfolding checked_add
checked_add-value a b e h = if_some-value (leb (a + b) usize_max) (a + b) e h

pub >>=-assoc :
    {E A B D : Type 0} (r : Result E A) (f : A → Result E B) (g : B → Result E D)
    → ((r >>= f) >>= g) ≡ (r >>= λ a. f a >>= g)
>>=-assoc (err e) f g = refl
>>=-assoc (ok a) f g = refl

module _ {C : Type 0} where
  -- Two lists of columns that may differ in the n columns from `from` on, and nowhere else.
  abbrev pub Outside : ℕ → ℕ → List C → List C → Type 0
  Outside from n xs ys =
      (length xs ≡ length ys)
      × ((i : ℕ) → (i < from) ⊎ (from + n ≤ i) → get_elem? xs i ≡ get_elem? ys i)

  length-set : (xs : List C) (i : ℕ) (c : C) → length (set xs i c) ≡ length xs
  length-set [] i c = refl
  length-set (x ∷ xs) zero c = refl
  length-set (x ∷ xs) (suc i) c = ap suc (length-set xs i c)

  get-set_other :
      (xs : List C) (i j : ℕ) (c : C)
      → (i < j) ⊎ (j < i)
      → get_elem? (set xs i c) j ≡ get_elem? xs j
  get-set_other [] i j c h = refl
  get-set_other (x ∷ xs) zero zero c (inl h) = ground arith
  get-set_other (x ∷ xs) zero zero c (inr h) = ground arith
  get-set_other (x ∷ xs) zero (suc j) c h = refl
  get-set_other (x ∷ xs) (suc i) zero c h = refl
  get-set_other (x ∷ xs) (suc i) (suc j) c (inl h) = get-set_other xs i j c (inl (omega (arith, h)))
  get-set_other (x ∷ xs) (suc i) (suc j) c (inr h) = get-set_other xs i j c (inr (omega (arith, h)))

  get-set_same :
      (xs ys : List C) (i : ℕ) (c : C)
      → length xs ≡ length ys
      → get_elem? (set xs i c) i ≡ get_elem? (set ys i c) i
  get-set_same [] [] i c h = refl
  get-set_same [] (y ∷ ys) i c h = ground arith
  get-set_same (x ∷ xs) [] i c h = ground arith
  get-set_same (x ∷ xs) (y ∷ ys) zero c h = refl
  get-set_same (x ∷ xs) (y ∷ ys) (suc i) c h = get-set_same xs ys i c (omega (arith, h))

  pub extensional :
      (xs ys : List C)
      → length xs ≡ length ys
      → ((i : ℕ) → get_elem? xs i ≡ get_elem? ys i)
      → xs ≡ ys
  extensional [] [] h k = refl
  extensional [] (y ∷ ys) h k = ground arith
  extensional (x ∷ xs) [] h k = ground arith
  extensional (x ∷ xs) (y ∷ ys) h k =
      ap (λ z. z ∷ xs) (some_injective (k 0))
      ∙ ap (◌∷◌ y) (extensional xs ys (omega (arith, h)) (λ i. k (suc i)))

  pub Outside-set :
      (from n : ℕ) (xs ys : List C) (c : C)
      → Outside from (suc n) xs ys
      → Outside (suc from) n (set xs from c) (set ys from c)
  Outside-set from n xs ys c (lengths, same) = (
    length-set xs from c ∙ (lengths ∙ sym (length-set ys from c)),
    λ i away. elim (position from i) [
      | inl h ↦
          (ap (get_elem? (set xs from c)) (sym h) ∙ get-set_same xs ys from c lengths)
          ∙ ap (get_elem? (set ys from c)) h
      | inr h ↦
          get-set_other xs from i c h
          ∙ (same i (still_away from n i h away) ∙ sym (get-set_other ys from i c h))
    ],
  )

  pub set-Outside :
      (from n : ℕ) (xs ys : List C) (c : C)
      → Outside (suc from) n (set xs from c) ys
      → Outside from (suc n) xs ys
  set-Outside from n xs ys c (lengths, same) = (
    sym (length-set xs from c) ∙ lengths,
    λ i away.
        sym (get-set_other xs from i c (apart from n i away)) ∙ same i (away_after from n i away),
  )

  pub Outside-more :
      (from n k : ℕ) (xs ys : List C) → n ≤ k → Outside from n xs ys → Outside from k xs ys
  Outside-more from n k xs ys h (lengths, same) =
      (lengths, λ i away. same i (away_more from n k i h away))
