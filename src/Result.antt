-- ===== src/Result.antt =====
-- Python's exceptions as values.
use kong_coco.Prelude.{◌≡◌, refl, ◌⊎◌, inl, inr, Text}

pub data Error : Type 0 where
  type_error index_error unbound_local recursion_error decode_error encode_error os_error : Error
  attribute_error name_error key_error : Text → Error
  raised : Text → Error

pub data Result {ℓ} (R : Type ℓ) : Type ℓ where
  err : Error → Result R
  ok : R → Result R

module _ {κ} {S : Type κ} where
  infixl 5 ◌>>=◌
  abbrev pub ◌>>=◌ {ℓ} : {R : Type ℓ} → Result R → (R → Result S) → Result S
  err raised_before >>= next = err raised_before
  ok r >>= next = next r

  -- A statement whose value is not used.
  infixl 5 ◌>>◌
  abbrev pub ◌>>◌ : Result (Unit {0}) → Result S → Result S
  first >> next = first >>= λ done. next

-- Inversion of a successful chain: what its first step returned, and what came of that.
pub >>=-eq-ok {μ ν} :
    {R : Type μ} {S : Type ν} (first : Result R) (next : R → Result S) {s : S}
    → first >>= next ≡ ok s
    → (r : R) × (first ≡ ok r) × (next r ≡ ok s)
>>=-eq-ok (err e) next h = cc
>>=-eq-ok (ok r) next h = (r, refl, h)

pub Result-cases {ℓ} :
    {A : Type ℓ} (r : Result A) → ((a : A) × (r ≡ ok a)) ⊎ ((e : Error) × (r ≡ err e))
Result-cases (err e) = inr (e, refl)
Result-cases (ok a) = inl (a, refl)

pub ok-injective {ℓ} : {A : Type ℓ} {a b : A} → ok a ≡ ok b → a ≡ b
ok-injective h = cc

-- A chain that ends in a plain value returns where its first step does.
pub >>=-returns {ℓ κ} :
    {A : Type ℓ} {B : Type κ} (m : Result A) (g : A → B)
    → (a : A) × (m ≡ ok a)
    → (b : B) × ((m >>= λ a. ok (g a)) ≡ ok b)
>>=-returns m g (a, h) = (g a, rw h refl)
