-- ===== src/Fleet/Single.antt =====
-- A fleet of one account against that account on its own.
use polymarket_event_quant.Base.{
  ℕ, ◌≡◌, refl, Bool, true, false, none, List, [], ◌∷◌, length, Result, ok, err, arith, leb,
  if◌then◌else◌,
}
use polymarket_event_quant.Base.Decimal.{Decimal}
use polymarket_event_quant.Models.{Market, PlacementResult}
use polymarket_event_quant.Exchange.{Exc}
use polymarket_event_quant.Exchange.Session.{Submission, Session, Raised, then_call, lift, raise}
use polymarket_event_quant.Exchange.Signing.{Entry, Prepared, prepare_entry}
use polymarket_event_quant.Exchange.Knock.{
  Wording, KnockOutcome, KnockPlan, knock_plan, knock_member,
}
use polymarket_event_quant.Exchange.Lost.{place_dual, place_prepared, settle_first, no_interval}
use polymarket_event_quant.Fleet.{MemberPlacement}
use polymarket_event_quant.Fleet.Place.{
  Member, place_members, settle_members, signed_slot, knock_slots, knocked, parts, settled_as,
  counted, Turn,
}

-- the member that `place_dual` makes of an account
abbrev pub alone : Member → Member
alone m = record m { name = "primary"; phase_offset_ms = 0 }

-- The library's answer has one part for each member of the plan.
abbrev pub AnswersEach : (ℕ → KnockPlan → Result Exc (List KnockOutcome)) → Type 0
AnswersEach knock =
    (call : ℕ) (plan : KnockPlan) (outcomes : List KnockOutcome)
    → knock call plan ≡ ok outcomes
    → length outcomes ≡ length plan.members

-- one member's end, as the fleet records it
abbrev pub ended : Member → Result Raised PlacementResult × Session → Member × MemberPlacement
ended m (r, s) = (record m { session = s }, settled_as m.name r)

module _ (wording : Wording) (how : Submission)
    (knock : ℕ → KnockPlan → Result Exc (List KnockOutcome)) (market : Market) (until : ℕ)
    (interval : Decimal) where
  one_answer :
      (m : Member) (entry : Entry) (s : Session) (plan : KnockPlan)
      (answer : Result Exc (List KnockOutcome))
      → ((outcomes : List KnockOutcome) → answer ≡ ok outcomes → length outcomes ≡ 1)
      → knocked wording how ((record (alone m) { session = s }, Turn.knocking entry) ∷ []) answer
        ≡ ok (
            ended (alone m) (
              then_call
                (settle_first m.client m.signer wording knock entry)
                (lift answer, counted wording how s))
            ∷ [])
  unfolding settle_members
  one_answer m entry s plan (err e) h = refl
  one_answer m entry s plan (ok []) h = absurd (omega (arith, h [] refl))
  one_answer m entry s plan (ok (o ∷ [])) h = refl
  one_answer m entry s plan (ok (o ∷ o' ∷ os)) h = absurd (omega (arith, h (o ∷ o' ∷ os) refl))

  one_gated :
      (m : Member) (entry : Entry) (s : Session) (shut : Bool)
      → shut ≡ false
      → AnswersEach knock
      → knock_slots wording how knock market until interval none
          ((record (alone m) { session = s }, Turn.knocking entry) ∷ [])
          (knock_member entry "primary" 0 ∷ [])
        ≡ ok (
            ended (alone m) (
              (if shut then raise {A = PlacementResult} (Raised.raised no_interval) else (λ s.
                  then_call (settle_first m.client m.signer wording knock entry) (
                    lift (
                        knock s.calls (
                          knock_plan market
                            (knock_member entry "primary" 0 ∷ [])
                            interval
                            until
                            none)),
                    counted wording how s,
                  )))
                s)
            ∷ [])
  one_gated m entry s true q each = absurd (grind arith)
  one_gated m entry s false q each =
      one_answer m entry s
        (knock_plan market (knock_member entry "primary" 0 ∷ []) interval until none) _
        (λ outcomes e. each s.calls _ outcomes e)

  one_prepared :
      (m : Member) (p : Result Raised Prepared × Session)
      → leb interval 0 ≡ false
      → AnswersEach knock
      → knock_slots wording how knock market until interval none
          (signed_slot wording how (alone m) p ∷ [])
          (parts wording how (signed_slot wording how (alone m) p ∷ []))
        ≡ ok (
            ended
              (alone m)
              (then_call (place_prepared m.client m.signer wording knock market until interval) p)
            ∷ [])
  unfolding settle_members
  one_prepared m (ok (Prepared.ready entry), s) q each = one_gated m entry s (leb interval 0) q each
  one_prepared m (ok (Prepared.refused r), s) q each = refl
  one_prepared m (err e, s) q each = refl

  -- A fleet of one account does exactly what that account does on its own: at an interval above 0
  -- and a knock that answers for each member, the member's placement is the end of `place_dual`, be
  -- it a result or an exception, and its exchange is left in the same session.
  pub place_members-alone :
      (m : Member) (price : Decimal)
      → leb interval 0 ≡ false
      → AnswersEach knock
      → place_members wording how knock market price until interval none (alone m ∷ [])
        ≡ ok (
            ended (alone m) (
              place_dual m.client m.signer wording knock how market price m.size interval until
                m.session)
            ∷ [])
  unfolding place_members place_dual
  place_members-alone m price q each =
      one_prepared m (prepare_entry m.signer how market price m.size m.session) q each
