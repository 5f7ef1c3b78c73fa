-- ===== src/Exchange/Signing/Reuse.antt =====
-- The signed orders of a market that was handed back.
use polymarket_event_quant.Base.{
  String, ◌≡◌, refl, true, Option, none, some, List, [], Result, ok, err, arith, eq_refl, ap,
}
use polymarket_event_quant.Base.Decimal.{Decimal}
use polymarket_event_quant.Models.{Market, PlacementResult}
use polymarket_event_quant.Exchange.Session.{
  Signer, SubmissionKey, Session, Submission, Raised, submission_key, submission_of, same_key,
  then_call,
}
use polymarket_event_quant.Exchange.Signing.{
  Entry, Prepared, prepare_entry, prepare_from, keep_signed, entry_of, sign_entries,
  prime_tick_size,
}

same_key_refl : (k : SubmissionKey) → same_key k k ≡ true
same_key_refl k =
    ground (arith, eq_refl k.condition_id, eq_refl k.up_token_id, eq_refl k.down_token_id)

module _ (signer : Signer) (how : Submission) (market : Market) (price size : Decimal) where
  abbrev key : SubmissionKey
  key = submission_key market price size

  -- what a call leaves in the cache when it returns an entry
  abbrev Kept : Result Raised Prepared × Session → Type 0
  Kept r =
      (e : Entry)
      → r.0 ≡ ok (Prepared.ready e)
      → (signed : List String) × (e ≡ entry_of signer how market price size signed)
        × (submission_of key r.1.submissions ≡ some signed)

  keep_signed-Kept :
      (r : Result Raised (List String) × Session)
      → Kept (keep_signed signer how market price size r)
  keep_signed-Kept (ok signed, s) e h = (signed, grind arith, rw (same_key_refl key) refl)
  keep_signed-Kept (err (Raised.signing_not_ready t), s) e h = absurd (grind arith)
  keep_signed-Kept (err (Raised.raised t), s) e h = absurd (grind arith)
  keep_signed-Kept (err (Raised.ambiguous t b k), s) e h = absurd (grind arith)
  keep_signed-Kept (err Raised.unfinished, s) e h = absurd (grind arith)

  primed-Kept :
      (r : Result Raised (Unit {0}) × Session)
      → Kept (
          then_call
            (λ _ s.
              keep_signed signer how market price size
                (sign_entries signer how market price size s))
            r)
  primed-Kept (ok _, s) e h = keep_signed-Kept (sign_entries signer how market price size s) e h
  primed-Kept (err x, s) e h = absurd (grind arith)

  prepare_from-Kept :
      (found : Option (List String)) (s : Session)
      → submission_of key s.submissions ≡ found
      → Kept (prepare_from signer how market price size found s)
  prepare_from-Kept (some signed) s q e h = (signed, grind arith, q)
  prepare_from-Kept none s q e h = primed-Kept (prime_tick_size signer how market s) e h

  abbrev Refuses : Result Raised Prepared × Session → Type 0
  Refuses end = (r : PlacementResult) → end.0 ≡ ok (Prepared.refused r) → r.orders ≡ []

  keep_signed-Refuses :
      (r : Result Raised (List String) × Session)
      → Refuses (keep_signed signer how market price size r)
  keep_signed-Refuses (ok signed, s) r h = absurd (grind arith)
  keep_signed-Refuses (err (Raised.signing_not_ready t), s) r h = grind arith
  keep_signed-Refuses (err (Raised.raised t), s) r h = absurd (grind arith)
  keep_signed-Refuses (err (Raised.ambiguous t b k), s) r h = absurd (grind arith)
  keep_signed-Refuses (err Raised.unfinished, s) r h = absurd (grind arith)

  primed-Refuses :
      (r : Result Raised (Unit {0}) × Session)
      → Refuses (
          then_call
            (λ _ s.
              keep_signed signer how market price size
                (sign_entries signer how market price size s))
            r)
  primed-Refuses (ok _, s) r h =
      keep_signed-Refuses (sign_entries signer how market price size s) r h
  primed-Refuses (err x, s) r h = absurd (grind arith)

  prepare_from-Refuses :
      (found : Option (List String)) (s : Session)
      → Refuses (prepare_from signer how market price size found s)
  prepare_from-Refuses (some signed) s r h = absurd (grind arith)
  prepare_from-Refuses none s r h = primed-Refuses (prime_tick_size signer how market s) r h

  again :
      (found : Option (List String)) (signed : List String) (t : Session)
      → found ≡ some signed
      → prepare_from signer how market price size found t
        ≡ (ok (Prepared.ready (entry_of signer how market price size signed)), t)
  again found signed t h = rw h refl

  -- Every send for a market is the same signed order: once an entry was prepared, a later request
  -- for the market at the same price and size gets the very same entry back, without any request to
  -- the client, as long as the cache has not changed in between.
  pub prepare_entry_once :
      (s t : Session) (e : Entry)
      → (prepare_entry signer how market price size s).0 ≡ ok (Prepared.ready e)
      → t.submissions ≡ (prepare_entry signer how market price size s).1.submissions
      → prepare_entry signer how market price size t ≡ (ok (Prepared.ready e), t)
  unfolding prepare_entry
  prepare_entry_once s t e h q =
      let (signed, same, found) = prepare_from-Kept (submission_of key s.submissions) s refl e h in
      rw same (again (submission_of key t.submissions) signed t (rw q found))

  -- what an entry or a refusal holds
  abbrev pub Asked : Prepared → Type 0
  Asked (Prepared.ready e) = (e.price ≡ price) × (e.size ≡ size)
  Asked (Prepared.refused r) = r.orders ≡ []

  -- the entry of a request is at the price and the size asked for, and a refusal has no order
  pub prepare_entry-Asked :
      (s : Session) (p : Prepared)
      → (prepare_entry signer how market price size s).0 ≡ ok p
      → Asked p
  unfolding prepare_entry
  prepare_entry-Asked s (Prepared.ready e) h =
      let (signed, same, found) = prepare_from-Kept (submission_of key s.submissions) s refl e h in
      (ap (λ x. x.price) same, ap (λ x. x.size) same)
  prepare_entry-Asked s (Prepared.refused r) h =
      prepare_from-Refuses (submission_of key s.submissions) s r h
