-- ===== src/Fleet/Choice.antt =====
-- The kept member is the one that the venue registered first.
use mathlib.Core.Path.{subst}
use polymarket_event_quant.Base.{
  ℕ, ◌⊎◌, ◌≤◌, String, ◌≡◌, refl, Bool, true, false, Option, none, some, List, [], ◌∷◌, arith, All,
  All-filter, filter, Bool-cases, inl, inr, if◌then◌else◌, ltb,
}
use polymarket_event_quant.Fleet.{
  MemberPlacement, Chosen, choose, registered, Clock, first_by, stamp_in, choose_registered,
  choose_among, before_stamp, venue_stamps,
}

-- a member of the placements, and its key is the least
abbrev pub IsFirst : (MemberPlacement → ℕ) → MemberPlacement → List MemberPlacement → Type 0
IsFirst key p ps = All (λ q. key p ≤ key q) ps

abbrev Least : (MemberPlacement → ℕ) → MemberPlacement → List MemberPlacement → Type 0
Least key best ps =
    let f = first_by (λ p q. ltb (key p) (key q)) best ps in (key f ≤ key best) × IsFirst key f ps

le_trans : (a b c : ℕ) → a ≤ b → b ≤ c → a ≤ c
le_trans a b c h k = omega arith

ltb-le : (a b : ℕ) → ltb a b ≡ true → a ≤ b
ltb-le a b e = ground arith

ltb-ge : (a b : ℕ) → ltb a b ≡ false → b ≤ a
ltb-ge a b e = ground arith

first_by-least :
    (key : MemberPlacement → ℕ) (best : MemberPlacement) (ps : List MemberPlacement)
    → let f = first_by (λ p q. ltb (key p) (key q)) best ps in (key f ≤ key best) × IsFirst key f ps
first_by-least key best [] = (omega arith, tt)
first_by-least key best (p ∷ ps) =
    step (ltb (key p) (key best)) refl (first_by-least key p ps) (first_by-least key best ps)
  where
    step :
        (b : Bool)
        → ltb (key p) (key best) ≡ b
        → Least key p ps
        → Least key best ps
        → let f = first_by (λ p' q. ltb (key p') (key q)) (if b then p else best) ps in
          (key f ≤ key best) × IsFirst key f (p ∷ ps)
    step true e h h' = (le_trans _ _ _ h.0 (ltb-le _ _ e), (h.0, h.1))
    step false e h h' = (h'.0, (le_trans _ _ _ h'.0 (ltb-ge _ _ e), h'.1))

first_by-keeps :
    (P : MemberPlacement → Type 0) (before : MemberPlacement → MemberPlacement → Bool)
    (best : MemberPlacement) (ps : List MemberPlacement)
    → P best
    → All P ps
    → P (first_by before best ps)
first_by-keeps P before best [] h hs = h
first_by-keeps P before best (p ∷ ps) h hs = elim (Bool-cases (before p best)) [
  | inl e ↦ rw e (first_by-keeps P before p ps hs.0 hs.1)
  | inr e ↦ rw e (first_by-keeps P before best ps h hs.1)
]

-- a member among the placements
abbrev pub IsAmong : MemberPlacement → List MemberPlacement → Type 0
IsAmong p [] = ⊥
IsAmong p (q ∷ qs) = (p ≡ q) ⊎ IsAmong p qs

All-IsAmong-more :
    (q : MemberPlacement) (qs rs : List MemberPlacement)
    → All (λ p. IsAmong p qs) rs
    → All (λ p. IsAmong p (q ∷ qs)) rs
All-IsAmong-more q qs [] h = tt
All-IsAmong-more q qs (r ∷ rs) h = (inr h.0, All-IsAmong-more q qs rs h.1)

filter-IsAmong :
    (f : MemberPlacement → Bool) (ps : List MemberPlacement)
    → All (λ p. IsAmong p ps × (f p ≡ true)) (filter f ps)
filter-IsAmong f ps = both (filter f ps) (kept ps) (All-filter f ps)
  where
    kept : (qs : List MemberPlacement) → All (λ p. IsAmong p qs) (filter f qs)
    kept [] = tt
    kept (q ∷ qs) = elim (Bool-cases (f q)) [
      | inl e ↦ rw e (inl refl, All-IsAmong-more q qs (filter f qs) (kept qs))
      | inr e ↦ rw e (All-IsAmong-more q qs (filter f qs) (kept qs))
    ]

    both :
        (rs : List MemberPlacement)
        → All (λ p. IsAmong p ps) rs
        → All (λ p. f p ≡ true) rs
        → All (λ p. IsAmong p ps × (f p ≡ true)) rs
    both [] a b = tt
    both (r ∷ rs) a b = ((a.0, b.0), both rs a.1 b.1)

-- the choice that is made, if one is made by the venue's stamps
abbrev KeepsFirst : Chosen → List MemberPlacement → Type 0
KeepsFirst c ps =
    (stamps : List (String × ℕ))
    → c.stamps ≡ some stamps
    → (p : MemberPlacement) × (IsAmong p ps × (registered p ≡ true))
      × (c.kept ≡ some p.member)
      × All (λ q. stamp_in p.member stamps ≤ stamp_in q.member stamps) (filter registered ps)

KeepsFirst-among :
    (clocks : List Clock) (ps regs : List MemberPlacement)
    → filter registered ps ≡ regs
    → All (λ p. IsAmong p ps × (registered p ≡ true)) regs
    → KeepsFirst (choose_registered clocks regs) ps
KeepsFirst-among clocks ps [] e h stamps c = ground arith
KeepsFirst-among clocks ps (r ∷ rs) e h stamps c = chosen (venue_stamps clocks (r ∷ rs)) c
  where
    chosen :
        (x : Option (List (String × ℕ)))
        → (choose_among r rs x).stamps ≡ some stamps
        → (p : MemberPlacement) × (IsAmong p ps × (registered p ≡ true))
          × ((choose_among r rs x).kept ≡ some p.member)
          × All (λ q. stamp_in p.member stamps ≤ stamp_in q.member stamps) (filter registered ps)
    chosen none c' = ground arith
    chosen (some s) c' =
        let same : s ≡ stamps = ground arith in
        let least = first_by-least (λ q. stamp_in q.member s) r rs in
        (
          first_by (before_stamp s) r rs,
          first_by-keeps (λ q. IsAmong q ps × (registered q ≡ true)) (before_stamp s) r rs h.0 h.1,
          refl,
          rw e (
              subst
                (λ x.
                  All
                    (λ q. stamp_in (first_by (before_stamp s) r rs).member x ≤ stamp_in q.member x)
                    (r ∷ rs))
                same least),
        )

-- Where the choice is made by the venue's stamps, the kept member is that of a placement among them that
-- registered its orders, and no registered member has an earlier stamp.
pub kept_is_first :
    (clocks : List Clock) (ps : List MemberPlacement) (stamps : List (String × ℕ))
    → (choose clocks ps).stamps ≡ some stamps
    → (p : MemberPlacement) × (IsAmong p ps × (registered p ≡ true))
      × ((choose clocks ps).kept ≡ some p.member)
      × All (λ q. stamp_in p.member stamps ≤ stamp_in q.member stamps) (filter registered ps)
unfolding choose
kept_is_first clocks ps stamps c =
    KeepsFirst-among clocks ps (filter registered ps) refl (filter-IsAmong registered ps) stamps c
