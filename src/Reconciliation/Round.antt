-- ===== src/Reconciliation/Round.antt =====
-- Every tracked order is resolved once in a round, and none is given up on a single missed read.
use polymarket_event_quant.Base.{
  ℕ, suc, ◌+◌, ◌≤◌, ◌<◌, ◌≡◌, refl, Bool, false, none, some, List, [], ◌∷◌, ok, err, length, All,
  All-append, arith, Option-cases, Result-cases, inl, inr, Bool-cases,
}
use polymarket_event_quant.Exchange.{Exc, RawOrder}
use polymarket_event_quant.Exchange.Client.{Client}
use polymarket_event_quant.Reconciliation.{
  Snapshot, ReconciledOrder, open_by_id, gone, resolved, failed_read, resolve, first_pass,
  add_resolved, second_pass, fetch,
}

-- where a reported state comes from: the open orders, a direct read, a failed read, or two reads,
-- one before the pause and one after it, that both found nothing
pub data Justified (client : Client) (raws : List RawOrder) (o : ReconciledOrder) : Type 0 where
  listed :
      (raw : RawOrder)
      → open_by_id o.snapshot.order_id raws ≡ some raw
      → o ≡ resolved o.snapshot raw
      → Justified client raws o
  read :
      (call : ℕ) (raw : RawOrder)
      → client.get_order call o.snapshot.order_id ≡ ok (some raw)
      → o ≡ resolved o.snapshot raw
      → Justified client raws o
  unreadable :
      (call : ℕ) (e : Exc)
      → client.get_order call o.snapshot.order_id ≡ err e
      → o ≡ failed_read o.snapshot e
      → Justified client raws o
  missed_twice :
      (first second : ℕ)
      → first < second
      → open_by_id o.snapshot.order_id raws ≡ none
      → client.get_order first o.snapshot.order_id ≡ ok none
      → client.get_order second o.snapshot.order_id ≡ ok none
      → o ≡ resolved o.snapshot (gone o.snapshot.order_id)
      → Justified client raws o

module _ (client : Client) (raws : List RawOrder) where
  -- missed before request `bound`
  record Missed (bound : ℕ) (s : Snapshot) : Type 0 where
    at : ℕ
    before : at < bound
    not_listed : open_by_id s.order_id raws ≡ none
    not_found : client.get_order at s.order_id ≡ ok none

  abbrev Passed : ℕ → List ReconciledOrder × List Snapshot → Type 0
  Passed bound (results, missing) = All (Justified client raws) results × All (Missed bound) missing

  step-Passed :
      (bound call : ℕ) (s : Snapshot) (acc : List ReconciledOrder × List Snapshot)
      → call < bound
      → Passed bound acc
      → Passed bound
          (add_resolved client s (resolve client call s (open_by_id s.order_id raws) false) acc)
  unfolding resolve
  step-Passed bound call s (results, missing) lt h =
      elim (Option-cases (open_by_id s.order_id raws)) [
        | inr (raw, e) ↦ rw e ((listed raw e refl, h.0), h.1)
        | inl e ↦ rw e (elim (Result-cases (client.get_order call s.order_id)) [
          | inr (x, g) ↦ rw g ((unreadable call x g refl, h.0), h.1)
          | inl (found, g) ↦ elim (Option-cases found) [
            | inl q ↦
                rw (g, q)
                  (
                    h.0,
                    (record { at = call; before = lt; not_listed = e; not_found = rw (g, q) }, h.1),
                  )
            | inr (raw, q) ↦ rw (g, q) ((read call raw (rw (g, q)) refl, h.0), h.1)
          ]
        ])
      ]

  first_pass-Passed :
      (bound call : ℕ) (ss : List Snapshot)
      → call + length ss ≤ bound
      → Passed bound (first_pass client call raws ss)
  unfolding first_pass
  first_pass-Passed bound call [] h = (tt, tt)
  first_pass-Passed bound call (s ∷ ss) h =
      step-Passed bound call s (first_pass client (suc call) raws ss) (omega arith)
        (first_pass-Passed bound (suc call) ss (omega arith))

  second_pass-Justified :
      (stops : ℕ → Bool) (bound call : ℕ) (ss : List Snapshot)
      → bound ≤ call
      → All (Missed bound) ss
      → All (Justified client raws) (second_pass client stops call ss)
  unfolding second_pass resolve
  second_pass-Justified stops bound call [] le h = tt
  second_pass-Justified stops bound call (s ∷ ss) le h =
      let rest = second_pass-Justified (λ n. stops (suc n)) bound (suc call) ss (omega arith) h.1 in
      elim (Bool-cases (stops 0)) [
        | inl e ↦ rw e tt
        | inr e ↦ rw e (elim (Result-cases (client.get_order call s.order_id)) [
          | inr (x, g) ↦ rw g (unreadable call x g refl, rest)
          | inl (found, g) ↦ elim (Option-cases found) [
            | inl q ↦
                rw (g, q)
                  (
                    missed_twice h.0.at call (omega (arith, h.0.before)) h.0.not_listed
                        h.0.not_found (rw (g, q)) refl,
                    rest,
                  )
            | inr (raw, q) ↦ rw (g, q) (read call raw (rw (g, q)) refl, rest)
          ]
        ])
      ]

-- In a round, whatever the venue answers and whenever a stop comes, each reported state is a row of
-- the open orders, the answer of a direct read, the exception of one, or the mark
-- `terminal_unknown`; and that mark only for an order that the open orders do not list and that two
-- reads, one before the pause and one after it, did not find.
pub fetch-Justified :
    (client : Client) (stopped : Bool) (stops : ℕ → Bool) (call : ℕ) (ss : List Snapshot)
    (raws : List RawOrder)
    → client.get_open_orders call none ≡ ok raws
    → All (Justified client raws) (fetch client stopped stops call ss).orders
unfolding fetch
fetch-Justified client stopped stops call ss raws h = rw h (
    All-append (Justified client raws) (first_pass client (suc call) raws ss).0 _ first.0
      (elim (Bool-cases stopped) [
        | inl e ↦ rw e tt
        | inr e ↦ rw e (
            second_pass-Justified client raws stops (suc call + length ss) (suc call + length ss)
              (first_pass client (suc call) raws ss).1 (omega arith) first.1)
      ]))
  where
    first : Passed client raws (suc call + length ss) (first_pass client (suc call) raws ss)
    first = first_pass-Passed client raws (suc call + length ss) (suc call) ss (omega arith)
