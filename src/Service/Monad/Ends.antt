-- ===== src/Service/Monad/Ends.antt =====
-- What holds of the state when a handler ends, whether it returns or raises: one rule for each way
-- to build a handler.
use polymarket_event_quant.Base.{◌≡◌, refl, Bool, true, false, Result, ok, err, if◌then◌else◌}
use polymarket_event_quant.Database.{Db, IntegrityError}
use polymarket_event_quant.Exchange.{Exc}
use polymarket_event_quant.Service.{Bot}
use polymarket_event_quant.Service.Monad.{Action, ◌>>=◌, ◌>>◌, write, write_result}

module _ {ℓ κ} {A : Type ℓ} {B : Type κ} (P : Bot → Type 0) where
  -- a value that may be an exception
  pub value-ends :
      (r : Result Exc A) (f : A → Action B) (b : Bot)
      → P b
      → ((a : A) → r ≡ ok a → P (f a b).1)
      → P (◌>>=◌ (λ c. (r, c)) f b).1
  value-ends (ok a) f b h k = k a refl
  value-ends (err e) f b h k = h

  -- a handler, then the rest
  pub bind-ends :
      (m : Action A) (f : A → Action B) (b : Bot)
      → P (m b).1
      → ((a : A) → (m b).0 ≡ ok a → P (f a (m b).1).1)
      → P ((m >>= f) b).1
  bind-ends m f b h k = let (r, c) = m b in value-ends r f c h k

-- the same with the value that is returned, or the exception
module _ {ℓ κ μ} {A : Type ℓ} {B : Type κ} (P : Result Exc B × Bot → Type μ) where
  value-outcome :
      (r : Result Exc A) (f : A → Action B) (b : Bot)
      → ((a : A) → r ≡ ok a → P (f a b))
      → ((e : Exc) → r ≡ err e → P (err e, b))
      → P (◌>>=◌ (λ c. (r, c)) f b)
  value-outcome (ok a) f b h k = h a refl
  value-outcome (err e) f b h k = k e refl

  pub bind-outcome :
      (m : Action A) (f : A → Action B) (b : Bot)
      → ((a : A) → (m b).0 ≡ ok a → P (f a (m b).1))
      → ((e : Exc) → (m b).0 ≡ err e → P (err e, (m b).1))
      → P ((m >>= f) b)
  bind-outcome m f b h k = let (r, c) = m b in value-outcome r f c h k

module _ {ℓ} {A : Type ℓ} (P : Bot → Type 0) where
  pub if-ends :
      (t : Bool) (m n : Action A) (b : Bot)
      → (t ≡ true → P (m b).1)
      → (t ≡ false → P (n b).1)
      → P ((if t then m else n) b).1
  if-ends true m n b h k = h refl
  if-ends false m n b h k = k refl

  write_result-ends :
      (r : Result IntegrityError Db) (f : Action A) (b : Bot)
      → P b
      → ((db : Db) → r ≡ ok db → P (f (record b { db = db })).1)
      → P ((write_result r >> f) b).1
  write_result-ends (ok db) f b h k = k db refl
  write_result-ends (err e) f b h k = h

  -- a statement that may be refused, then the rest
  pub write-ends :
      (w : Db → Result IntegrityError Db) (f : Action A) (b : Bot)
      → P b
      → ((db : Db) → w b.db ≡ ok db → P (f (record b { db = db })).1)
      → P ((write w >> f) b).1
  write-ends w f b h k = write_result-ends (w b.db) f b h k
