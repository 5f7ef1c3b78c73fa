-- ===== src/Service/Monad.antt =====
-- A handler: it changes the state of the service, and returns or raises. What was written before
-- a raise stays written.
pub mod Ends
use polymarket_event_quant.Base.{ℕ, suc, String, Option, some, Result, ok, err}
use polymarket_event_quant.Database.{Db, IntegrityError, unique_slug, unknown_market, event}
use polymarket_event_quant.Exchange.{Exc}
use polymarket_event_quant.Service.{Bot}

abbrev pub Action {ℓ} : Type ℓ → Type ℓ
Action A = Bot → Result Exc A × Bot

infixl 5 ◌>>=◌ ◌>>◌
abbrev pub ◌>>=◌ {ℓ κ} : {A : Type ℓ} {B : Type κ} → Action A → (A → Action B) → Action B
◌>>=◌ m f b = let (r, b') = m b in elim r [ ok a ↦ f a b' | err e ↦ (err e, b') ]

abbrev pub ◌>>◌ {ℓ κ} : {A : Type ℓ} {B : Type κ} → Action A → Action B → Action B
m >> k = m >>= λ _. k

abbrev pub pure {ℓ} : {A : Type ℓ} → A → Action A
pure a b = (ok a, b)

abbrev pub raise {ℓ} : {A : Type ℓ} → Exc → Action A
raise e b = (err e, b)

abbrev pub gets {ℓ} : {A : Type ℓ} → (Db → A) → Action A
gets f b = (ok (f b.db), b)

abbrev pub modify : (Db → Db) → Action (Unit {0})
modify f b = (ok tt, record b { db = f b.db })

abbrev pub integrity_text : IntegrityError → Exc
integrity_text unique_slug = "IntegrityError: UNIQUE constraint failed: markets.slug"
integrity_text unknown_market = "IntegrityError: FOREIGN KEY constraint failed"

abbrev pub write_result : Result IntegrityError Db → Action (Unit {0})
write_result (ok db) b = (ok tt, record b { db = db })
write_result (err e) b = (err (integrity_text e), b)

-- a statement that may raise; then nothing is written
abbrev pub write : (Db → Result IntegrityError Db) → Action (Unit {0})
write f b = write_result (f b.db) b

-- one request to the venue, its exception kept as a value (the `try` of the callers)
abbrev pub request {ℓ} : {A : Type ℓ} → (ℕ → Result Exc A) → Action (Result Exc A)
request f b = (ok (f b.calls), record b { calls = suc b.calls })

-- one request whose exception goes on
abbrev pub ask {ℓ} : {A : Type ℓ} → (ℕ → Result Exc A) → Action A
ask f b = (f b.calls, record b { calls = suc b.calls })

-- self.database.event(self.run_id, level, event_type, slug=slug)
abbrev pub log : ℕ → ℕ → String → String → Option String → Action (Unit {0})
log now run_id level event_type slug = modify (event now (some run_id) level event_type slug)
