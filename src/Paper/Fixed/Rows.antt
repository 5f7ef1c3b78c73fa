-- ===== src/Paper/Fixed/Rows.antt =====
-- What each statement of the paper database does to a row that is settled or missed.
use polymarket_event_quant.Base.{
  ℕ, String, ◌≡◌, refl, sym, ap, ◌∙◌, Bool, true, false, ◌&&◌, some, List, [], ◌∷◌, map, arith,
  eq_iff, str_eq, any, All, filter, Bool-cases, inl, inr, All-append, any-append,
}
use polymarket_event_quant.Paper.Tables.{
  PaperDb, PaperRow, PaperStatus, is_row, paper_row, change, expire_pending_snapshots, change_row,
  set_error, set_snapshot, set_result, expire_row, error_row, snapshot_row, result_row, register,
  new_paper_row,
}
use polymarket_event_quant.Service.{ActivationUpdate}
use polymarket_event_quant.Models.{TradePlan}
use polymarket_event_quant.Base.Decimal.{Decimal}
use polymarket_event_quant.Paper.{PaperResult}

-- the market has been judged
abbrev pub is_final : PaperStatus → Bool
is_final PaperStatus.settled = true
is_final PaperStatus.missed = true
is_final _ = false

module _ (key slug : String) (row : PaperRow) (own : is_row key slug row ≡ true)
    (final : is_final row.status ≡ true) where
  abbrev pub Fixed : List PaperRow → Type 0
  Fixed rows =
      All (λ r. is_row key slug r ≡ true → r ≡ row) rows × (any (is_row key slug) rows ≡ true)

  pub Fixed-paper_row : (rows : List PaperRow) → Fixed rows → paper_row key slug rows ≡ some row
  Fixed-paper_row [] h = ground arith
  Fixed-paper_row (r ∷ rs) h = elim (Bool-cases (is_row key slug r)) [
    | inl e ↦ rw e (ap some (h.0.0 e))
    | inr e ↦ rw e (Fixed-paper_row rs (h.0.1, ground arith))
  ]

  Fixed-any-map :
      (f : PaperRow → PaperRow)
      → ((r : PaperRow) → is_row key slug (f r) ≡ is_row key slug r)
      → (rows : List PaperRow) → any (is_row key slug) (map f rows) ≡ any (is_row key slug) rows
  Fixed-any-map f keeps [] = refl
  Fixed-any-map f keeps (r ∷ rs) = ground (arith, keeps r, Fixed-any-map f keeps rs)

  Fixed-All-map :
      (f : PaperRow → PaperRow)
      → ((r : PaperRow) → is_row key slug (f r) ≡ is_row key slug r)
      → (f row ≡ row)
      → (rows : List PaperRow) → All (λ r. is_row key slug r ≡ true → r ≡ row) rows
      → All (λ r. is_row key slug r ≡ true → r ≡ row) (map f rows)
  Fixed-All-map f keeps same [] h = tt
  Fixed-All-map f keeps same (r ∷ rs) h =
      (λ e. ap f (h.0 (sym (keeps r) ∙ e)) ∙ same, Fixed-All-map f keeps same rs h.1)

  Fixed-map :
      (f : PaperRow → PaperRow)
      → ((r : PaperRow) → is_row key slug (f r) ≡ is_row key slug r)
      → (f row ≡ row)
      → (rows : List PaperRow) → Fixed rows
      → Fixed (map f rows)
  Fixed-map f keeps same rows h =
      (Fixed-All-map f keeps same rows h.0, Fixed-any-map f keeps rows ∙ h.1)

  -- a statement on the row of another key
  Fixed-change :
      (k s : String) (f : PaperRow → PaperRow)
      → ((r : PaperRow) → (f r).strategy_key ≡ r.strategy_key)
      → ((r : PaperRow) → (f r).slug ≡ r.slug)
      → (is_row k s row ≡ false)
      → (db : PaperDb) → Fixed db.markets
      → Fixed (change k s f db).markets
  Fixed-change k s f keeps_key keeps_slug other db h =
      Fixed-map (change_row k s f) (λ r. ground (arith, keeps_key r, keeps_slug r)) (ground arith)
        db.markets h

  pub Fixed-set_error :
      (now : ℕ) (k s e : String)
      → (is_row k s row ≡ false)
      → (db : PaperDb) → Fixed db.markets
      → Fixed ((set_error now k s e db).1).markets
  unfolding set_error
  Fixed-set_error now k s e other db h =
      Fixed-change k s (error_row now e) (λ r. refl) (λ r. refl) other db h

  pub Fixed-set_snapshot :
      (now ms src : ℕ) (k s : String) (up down : Decimal)
      → (is_row k s row ≡ false)
      → (db : PaperDb) → Fixed db.markets
      → Fixed (set_snapshot now k s ms src up down db).markets
  unfolding set_snapshot
  Fixed-set_snapshot now ms src k s up down other db h =
      Fixed-change k s (snapshot_row now ms src up down) (λ r. refl) (λ r. refl) other db h

  pub Fixed-set_result :
      (now : ℕ) (k s : String) (x : PaperResult) (n : ℕ)
      → (is_row k s row ≡ false)
      → (db : PaperDb) → Fixed db.markets
      → Fixed (set_result now k s x n db).markets
  unfolding set_result
  Fixed-set_result now k s x n other db h =
      Fixed-change k s (result_row now x n) (λ r. refl) (λ r. refl) other db h

  pub Fixed-expire :
      (k : String) (now : ℕ) (db : PaperDb)
      → Fixed db.markets
      → Fixed (expire_pending_snapshots k now db).markets
  unfolding expire_pending_snapshots
  Fixed-expire k now db h =
      Fixed-map (expire_row k now) (λ r. ground arith) (ground arith) db.markets h

  -- rows that a handler selects by a status that is not final
  abbrev pub Others : String → List PaperRow → Type 0
  Others k rows = All (λ r. is_row k r.slug row ≡ false) rows

  other_of :
      (k : String) (r : PaperRow)
      → (is_row key slug r ≡ true → r ≡ row)
      → (str_eq r.strategy_key k ≡ true)
      → (is_final r.status ≡ false)
      → is_row k r.slug row ≡ false
  other_of k r h e d = elim (Bool-cases (is_row key slug r)) [
    | inl q ↦ ground (arith, h q)
    | inr q ↦ ground (
      arith,
      eq_iff r.strategy_key k,
      eq_iff row.strategy_key k,
      eq_iff r.strategy_key key,
      eq_iff row.strategy_key key,
      eq_iff row.slug r.slug,
      eq_iff row.slug slug,
      eq_iff r.slug slug,
    )
  ]

  pub Others-of :
      (k : String) (p : PaperRow → Bool)
      → ((r : PaperRow) → p r ≡ true → str_eq r.strategy_key k ≡ true)
      → ((r : PaperRow) → p r ≡ true → is_final r.status ≡ false)
      → (rows : List PaperRow) → All (λ r. is_row key slug r ≡ true → r ≡ row) rows
      → Others k (filter p rows)
  Others-of k p of_key not_final [] h = tt
  Others-of k p of_key not_final (r ∷ rs) h = elim (Bool-cases (p r)) [
    | inl e ↦
        rw e (other_of k r h.0 (of_key r e) (not_final r e), Others-of k p of_key not_final rs h.1)
    | inr e ↦ rw e (Others-of k p of_key not_final rs h.1)
  ]

  clash {ℓ} :
      {A : Type ℓ} (u : ActivationUpdate) (k : String) (rows : List PaperRow)
      → any (is_row k u.market.slug) rows ≡ false
      → any (is_row key slug) rows ≡ true
      → (str_eq k key && str_eq u.market.slug slug) ≡ true
      → A
  clash u k rows e h q =
      let a : k ≡ key = ground (arith, eq_iff k key) in
      let b : u.market.slug ≡ slug = ground (arith, eq_iff u.market.slug slug) in ground arith

  pub Fixed-register :
      (now : ℕ) (k : String) (u : ActivationUpdate) (plan : TradePlan) (db : PaperDb)
      → Fixed db.markets
      → Fixed ((register now k u plan db).1).markets
  unfolding register
  Fixed-register now k u plan db h = elim (Bool-cases (any (is_row k u.market.slug) db.markets)) [
    | inl e ↦ rw e h
    | inr e ↦ rw e (
      All-append _ db.markets (new_paper_row now k u plan ∷ []) h.0
          (λ q. clash u k db.markets e h.1 q, tt),
      ground (arith, any-append (is_row key slug) db.markets (new_paper_row now k u plan ∷ [])),
    )
  ]
