-- ===== src/Fleet/Phases.antt =====
-- The timetable of a fleet.
use native.Mathlib.Nat.{div-lt_iff_lt-mul, div-mul-le_self, lt-div-mul-add}
use polymarket_event_quant.Base.{
  ℕ, suc, ◌+◌, ◌*◌, ◌/◌, ◌≤◌, ◌<◌, ◌≡◌, refl, List, [], ◌∷◌, length, arith,
}
use polymarket_event_quant.Base.Decimal.{Decimal}
use polymarket_event_quant.Fleet.Place.{Member, phased_from, evenly_phased}

-- the members of a timetable from the place `index` on: each is the same but for its offset, which
-- is within the interval and less than one unit away from its share, index / count of the interval
abbrev pub IsPhased : Decimal → ℕ → ℕ → List Member → List Member → Type 0
IsPhased interval count index [] [] = Unit
IsPhased interval count index (m ∷ ms) (r ∷ rs) =
    (record r { phase_offset_ms = m.phase_offset_ms } ≡ m)
    × (r.phase_offset_ms < interval)
    × (r.phase_offset_ms * count < interval * index + count)
    × (interval * index < r.phase_offset_ms * count + count)
    × IsPhased interval count (suc index) ms rs
IsPhased interval count index [] (_ ∷ _) = ⊥
IsPhased interval count index (_ ∷ _) [] = ⊥

offset_within :
    (interval index count : ℕ) → 0 < interval → index < count → interval * index / count < interval
offset_within interval index count h q = grind (arith, div-lt_iff_lt-mul)

offset_share :
    (n count : ℕ) → 0 < count → (n / count * count < n + count) × (n < n / count * count + count)
offset_share n count h = (omega (arith, div-mul-le_self n count, h), lt-div-mul-add h)

phased_from-IsPhased :
    (interval count index : ℕ) (ms : List Member)
    → 0 < interval
    → index + length ms ≤ count
    → IsPhased interval count index ms (phased_from interval count index ms)
phased_from-IsPhased interval count index [] h q = tt
phased_from-IsPhased interval count index (m ∷ ms) h q =
    let share = offset_share (interval * index) count (omega (arith, q)) in
    (
      refl,
      offset_within interval index count h (omega (arith, q)),
      share.0,
      share.1,
      phased_from-IsPhased interval count (suc index) ms h (omega (arith, q)),
    )

-- Every member of an evenly phased fleet sends within the interval that it shares with the others,
-- at its own share of it: the i-th of n members, which is otherwise the same, is less than one unit
-- away from i / n of the interval.
pub evenly_phased_lem :
    (members : List Member) (interval : Decimal)
    → 0 < interval
    → IsPhased interval (length members) 0 members (evenly_phased members interval)
unfolding evenly_phased
evenly_phased_lem members interval h =
    phased_from-IsPhased interval (length members) 0 members h (omega arith)
