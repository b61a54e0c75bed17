-- ===== src/Base/Results.antt =====
-- Raised exceptions as values, with `do`.
use mathlib.Core.Path.{◌≡◌, refl}
use mathlib.Core.Logic.{◌⊎◌, inl, inr}
use mathlib.Core.Bool.{Bool, true, false}
use mathlib.Core.Option.{Option, none, some}

-- What the modelled code raises, one constructor for each message.
pub data Error : Type 0 where
  negative_gross nonpositive_reference invalid_fill : Error
  live_trading_on broker_not_paper decision_not_approved decision_not_routable : Error
  quantity_not_positive profile_mismatch action_not_executable : Error
  profile_missing profile_archived nonpositive_corpus : Error
  order_missing order_not_pending order_id_changed decision_changed bad_replacement_status : Error
  fills_required fills_forbidden not_a_pending_order : Error
  decision_missing symbol_mismatch proposal_missing : Error
  sleeves_missing sleeves_repeated weights_unbalanced cash_buffer_missing mapping_unknown : Error
  capacity_unknown cash_buffer_borrowable borrower_borrowable : Error
  field_out_of_range stock_caps_unordered score_weights_unbalanced score_bands_unordered : Error
  score_thresholds_unordered allocation_out_of_range decision_required : Error
  allocation_policy_required : Error
  reports_missing debate_missing proposal_out_of_range : Error
  provider_broken constraint_violated : Error

-- The outcome of a call: what it has raised, or its value.
pub data Result {ℓ} (Value : Type ℓ) : Type ℓ where
  err : (raised : Error) → Result Value
  ok : (value : Value) → Result Value

module _ {ℓ κ} {Value : Type ℓ} {Next : Type κ} where
  infixl 5 ◌>>=◌
  -- An exception ends the chain.
  abbrev pub ◌>>=◌ : Result Value → (Value → Result Next) → Result Next
  err raised >>= next = err raised
  ok value >>= next = next value

  -- What a chain that returned has passed on in the middle.
  pub >>=-eq-ok :
      (first : Result Value) (next : Value → Result Next) {last : Next}
      → (first >>= next) ≡ ok last
      → (middle : Value) × (first ≡ ok middle) × (next middle ≡ ok last)
  >>=-eq-ok (err raised) next returned = cc
  >>=-eq-ok (ok value) next returned = (value, refl, returned)

  -- A chain that raised has raised in its first part or in its rest.
  pub >>=-eq-err :
      (first : Result Value) (next : Value → Result Next) {e : Error}
      → (first >>= next) ≡ err e
      → (first ≡ err e) ⊎ ((middle : Value) × (first ≡ ok middle) × (next middle ≡ err e))
  >>=-eq-err (err raised) next h = inl (cc)
  >>=-eq-err (ok value) next h = inr (value, refl, h)

-- `if bad: raise e`
abbrev pub raise_if : (bad : Bool) → Error → Result (Unit {0})
raise_if true e = err e
raise_if false e = ok tt

infixl 5 ◌>>◌
-- A check, and what follows it.
abbrev pub ◌>>◌ {ℓ} : {Next : Type ℓ} → (check : Result (Unit {0})) → Result Next → Result Next
check >> rest = check >>= λ passed. rest

-- `if value is None: raise e`
abbrev pub or_raise {ℓ} : {Value : Type ℓ} → Option Value → Error → Result Value
or_raise none e = err e
or_raise (some value) e = ok value

pub ok_injective {ℓ} : {A : Type ℓ} {a b : A} → ok a ≡ ok b → a ≡ b
ok_injective h = cc

pub err_injective {ℓ} : {A : Type ℓ} {e e' : Error} → Path (Result A) (err e) (err e') → e ≡ e'
err_injective h = cc

-- Inversion of a guard.
pub raise_if-eq-ok {ℓ} :
    {B : Type ℓ} (bad : Bool) (e : Error) (k : Result B) {b : B}
    → (raise_if bad e >> k) ≡ ok b
    → (bad ≡ false) × (k ≡ ok b)
raise_if-eq-ok true e k h = cc
raise_if-eq-ok false e k h = (refl, h)

pub raise_if-eq-err {ℓ} :
    {B : Type ℓ} (bad : Bool) (e : Error) (k : Result B) {e' : Error}
    → (raise_if bad e >> k) ≡ err e'
    → ((e' ≡ e) × (bad ≡ true)) ⊎ ((bad ≡ false) × (k ≡ err e'))
raise_if-eq-err true e k h = inl (cc, refl)
raise_if-eq-err false e k h = inr (refl, h)

-- The result is a value.
abbrev pub Returns {ℓ} : {A : Type ℓ} → Result A → Type ℓ
Returns {A = A} r = (a : A) × (r ≡ ok a)

-- A chain returns where its first part does, and its rest does on that value.
pub >>=-Returns {ℓ κ} :
    {A : Type ℓ} {B : Type κ} (m : Result A) (f : A → Result B)
    → Returns m
    → ((a : A) → m ≡ ok a → Returns (f a))
    → Returns (m >>= f)
>>=-Returns m f (a, e) k = let (b, e') = k a e in (b, rw e e')

pub raise_if-Returns {ℓ} :
    {B : Type ℓ} (bad : Bool) (e : Error) (k : Result B)
    → bad ≡ false
    → Returns k
    → Returns (raise_if bad e >> k)
raise_if-Returns bad e k h (b, e') = (b, rw h e')
