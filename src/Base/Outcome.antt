-- ===== src/Base/Outcome.antt =====
-- `Result<A, E>` of Rust with the `?` operator. `panic` stands for a run that ends in a panic
-- (`unwrap`, `expect`, a slice copy of another length), so that the absence of panics is a theorem.
use mathlib.Core.Path.{◌≡◌, refl}

pub data Result {ℓ κ} (E : Type ℓ) (A : Type κ) : Type (ℓ ⊔ κ) where
  ok : A → Result E A
  err : E → Result E A
  panic : Result E A

module _ {ℓ κ} {E : Type ℓ} {A : Type κ} where
  infixl 5 ◌>>=◌
  abbrev pub ◌>>=◌ {μ} : {B : Type μ} → Result E A → (A → Result E B) → Result E B
  panic >>= next = panic
  err reason >>= next = err reason
  ok value >>= next = next value

  pub ok-injective : {a b : A} → ◌≡◌ {A = Result E A} (ok a) (ok b) → a ≡ b
  ok-injective h = cc

  -- What is known of a chain that returns: its first step did, and the rest.
  pub >>=-eq-ok {μ} :
      {B : Type μ} (first : Result E A) (next : A → Result E B) {b : B}
      → (first >>= next) ≡ ok b
      → (a : A) × (first ≡ ok a) × (next a ≡ ok b)
  >>=-eq-ok panic next h = cc
  >>=-eq-ok (err reason) next h = cc
  >>=-eq-ok (ok value) next h = (value, refl, h)

  -- `unwrap` and `expect`
  abbrev pub unwrap {μ} : {F : Type μ} → Result E A → Result F A
  unwrap (ok value) = ok value
  unwrap _ = panic

  pub unwrap-eq-ok {μ} :
      {F : Type μ} (first : Result E A) {a : A} → unwrap {F = F} first ≡ ok a → first ≡ ok a
  unwrap-eq-ok panic h = cc
  unwrap-eq-ok (err reason) h = cc
  unwrap-eq-ok (ok value) h = cc

  -- `map_err`, and the `From` conversion that `?` inserts.
  abbrev pub map_err {μ} : {F : Type μ} → (E → F) → Result E A → Result F A
  map_err convert panic = panic
  map_err convert (err reason) = err (convert reason)
  map_err convert (ok value) = ok value

  pub map_err-eq-ok {μ} :
      {F : Type μ} (convert : E → F) (first : Result E A) {a : A}
      → map_err convert first ≡ ok a
      → first ≡ ok a
  map_err-eq-ok convert panic h = cc
  map_err-eq-ok convert (err reason) h = cc
  map_err-eq-ok convert (ok value) h = cc

-- A statement that ends in `?`, and what follows.
infixl 5 ◌>>◌
abbrev pub ◌>>◌ {ℓ κ} : {E : Type ℓ} {B : Type κ} → Result E (Unit {0}) → Result E B → Result E B
check >> after = check >>= λ _. after
