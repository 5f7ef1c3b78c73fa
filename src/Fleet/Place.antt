-- ===== src/Fleet/Place.antt =====
-- fleet.py: the members of a fleet and the first half of `Fleet.place`: every member signs, one
-- knock carries all that could, and each settles its part of the answer.
use polymarket_event_quant.Base.{
  ℕ, suc, ◌*◌, ◌/◌, String, Bool, true, false, Option, none, some, List, [], ◌∷◌, map, length,
  Result, ok, err, if◌then◌else◌, any, str_eq,
}
use polymarket_event_quant.Base.Concat
use polymarket_event_quant.Base.Decimal.{Decimal}
use polymarket_event_quant.Models.{Market, PlacementResult}
use polymarket_event_quant.Exchange.{Exc}
use polymarket_event_quant.Exchange.Client.{Client, CancelReply}
use polymarket_event_quant.Exchange.Session.{Signer, Submission, Session, Raised}
use polymarket_event_quant.Exchange.Signing.{Entry, Prepared, prepare_entry}
use polymarket_event_quant.Exchange.Knock.{
  Wording, KnockOutcome, KnockPlan, KnockMember, Preview, knock_plan, knock_member,
}
use polymarket_event_quant.Exchange.Entry.{settle_entry}
use polymarket_event_quant.Fleet.{MemberPlacement, FleetPlacement, Clock, gather}

-- a member: its account's exchange with the session that it keeps, its size and its place in the
-- timetable
pub record Member : Type 0 where
  pub name : String
  pub client : Client
  pub signer : Signer
  pub session : Session
  pub size : Decimal
  pub phase_offset_ms : Decimal

-- `evenly_phased`: offsets 0, 1/N, 2/N, ... of the interval
abbrev pub phased_from : Decimal → ℕ → ℕ → List Member → List Member
phased_from interval_ms count index [] = []
phased_from interval_ms count index (m ∷ ms) =
    record m { phase_offset_ms = interval_ms * index / count }
    ∷ phased_from interval_ms count (suc index) ms

unfoldable pub evenly_phased : List Member → Decimal → List Member
evenly_phased members interval_ms = phased_from interval_ms (length members) 0 members

-- the guards of the constructor
abbrev pub names : List Member → List String
names members = map (λ m. m.name) members

unfoldable pub has_twice : List String → Bool
has_twice [] = false
has_twice (n ∷ ns) = let rest = has_twice ns in if any (str_eq n) ns then true else rest

abbrev pub checked_members : List Member → Result Exc (List Member)
checked_members [] = err "ValueError: a fleet needs at least one member"
checked_members (m ∷ ms) =
    if has_twice (names (m ∷ ms))
    then err "ValueError: fleet member names must be unique"
    else ok (m ∷ ms)

-- a member after its signing: in the knock with an entry, or out of it with its placement
pub data Turn : Type 0 where
  knocking : Entry → Turn
  out : MemberPlacement → Turn

abbrev pub Slot : Type 0
Slot = Member × Turn

abbrev pub raised_text : Raised → Exc
raised_text (Raised.ambiguous message retryable attempts) =
    Concat.◌++◌ "AmbiguousPlacementError: " message
raised_text (Raised.signing_not_ready t) = Concat.◌++◌ "_SigningNotReady: " t
raised_text (Raised.raised e) = e
raised_text Raised.unfinished = "unfinished"

abbrev pub placed_member : String → PlacementResult → MemberPlacement
placed_member name r = record { member = name; result = some r; error = none }

abbrev pub failed_member : String → Exc → MemberPlacement
failed_member name e = record { member = name; result = none; error = some e }

abbrev pub turn_of : String → Result Raised Prepared → Turn
turn_of name (ok (Prepared.ready entry)) = knocking entry
turn_of name (ok (Prepared.refused r)) = out (placed_member name r)
turn_of name (err e) = out (failed_member name (raised_text e))

abbrev pub settled_as : String → Result Raised PlacementResult → MemberPlacement
settled_as name (ok r) = placed_member name r
settled_as name (err e) = failed_member name (raised_text e)

module _ (wording : Wording) (how : Submission) where
  abbrev pub signed_slot : Member → Result Raised Prepared × Session → Slot
  signed_slot m (r, s) = (record m { session = s }, turn_of m.name r)

  -- a member whose signing fails or is not ready sits the knock out
  abbrev pub prepare_members : Market → Decimal → List Member → List Slot
  prepare_members market price members =
      map (λ m. signed_slot m (prepare_entry m.signer how market price m.size m.session)) members

  abbrev pub parts : List Slot → List KnockMember
  parts [] = []
  parts ((m, knocking entry) ∷ slots) = knock_member entry m.name m.phase_offset_ms ∷ parts slots
  parts ((m, out p) ∷ slots) = parts slots

  -- the number of the knock is that of the first member in it
  abbrev pub first_call : List Slot → ℕ
  first_call [] = 0
  first_call ((m, knocking entry) ∷ slots) = m.session.calls
  first_call ((m, out p) ∷ slots) = first_call slots

  -- the knock is a request of each account in it
  abbrev pub counted : Session → Session
  counted s = record s { calls = suc s.calls }

  abbrev pub settled_slot :
      Member → Result Raised PlacementResult × Session → Member × MemberPlacement
  settled_slot m (r, s) = (record m { session = s }, settled_as m.name r)

  abbrev pub settle_member : Member → Entry → KnockOutcome → Member × MemberPlacement
  settle_member m entry outcome =
      settled_slot m (settle_entry m.client wording entry outcome (counted m.session))

  abbrev pub strict : Exc
  strict = "ValueError: zip() argument lengths differ"

  abbrev pub with_member :
      Member × MemberPlacement
      → Result Exc (List (Member × MemberPlacement))
      → Result Exc (List (Member × MemberPlacement))
  with_member x (err e) = err e
  with_member x (ok xs) = ok (x ∷ xs)

  -- `zip(knocking, knocked["members"], strict=True)`, in the order of the members
  unfoldable pub settle_members :
      List Slot → List KnockOutcome → Result Exc (List (Member × MemberPlacement))
  settle_members [] [] = ok []
  settle_members [] (_ ∷ _) = err strict
  settle_members ((m, out p) ∷ slots) outcomes = with_member (m, p) (settle_members slots outcomes)
  settle_members ((m, knocking entry) ∷ slots) [] = err strict
  settle_members ((m, knocking entry) ∷ slots) (o ∷ os) =
      with_member (settle_member m entry o) (settle_members slots os)

  -- a knock that fails is the end of every member in it
  abbrev pub knock_failed : Exc → List Slot → List (Member × MemberPlacement)
  knock_failed e [] = []
  knock_failed e ((m, out p) ∷ slots) = (m, p) ∷ knock_failed e slots
  knock_failed e ((m, knocking entry) ∷ slots) =
      (record m { session = counted m.session }, failed_member m.name e) ∷ knock_failed e slots

  abbrev pub knocked :
      List Slot → Result Exc (List KnockOutcome) → Result Exc (List (Member × MemberPlacement))
  knocked slots (err e) = ok (knock_failed e slots)
  knocked slots (ok outcomes) = settle_members slots outcomes

  -- with no member to knock there is no knock
  abbrev pub knock_slots :
      (ℕ → KnockPlan → Result Exc (List KnockOutcome))
      → Market
      → ℕ
      → Decimal
      → Option Preview
      → List Slot
      → List KnockMember
      → Result Exc (List (Member × MemberPlacement))
  knock_slots knock market until interval preview slots [] = settle_members slots []
  knock_slots knock market until interval preview slots (p ∷ ps) =
      knocked slots (knock (first_call slots) (knock_plan market (p ∷ ps) interval until preview))

  -- the members' outcomes, before one is kept
  unfoldable pub place_members :
      (ℕ → KnockPlan → Result Exc (List KnockOutcome))
      → Market
      → Decimal
      → ℕ
      → Decimal
      → Option Preview
      → List Member
      → Result Exc (List (Member × MemberPlacement))
  place_members knock market price until interval preview members =
      let slots = prepare_members market price members in
      knock_slots knock market until interval preview slots (parts slots)

  abbrev pub then_gather :
      (String → List String → Result Exc (Option CancelReply))
      → Bool
      → List Clock
      → Result Exc (List (Member × MemberPlacement))
      → Result Exc FleetPlacement
  then_gather cancel keep_best clocks (err e) = err e
  then_gather cancel keep_best clocks (ok xs) =
      ok (gather cancel keep_best clocks (map (λ x. x.1) xs))

  -- `Fleet.place`: the cancels of the members that are not kept, and what the registration clock
  -- shows at each poll, are parameters
  unfoldable pub place :
      (ℕ → KnockPlan → Result Exc (List KnockOutcome))
      → Market
      → Decimal
      → ℕ
      → Decimal
      → Option Preview
      → List Member
      → (String → List String → Result Exc (Option CancelReply))
      → Bool
      → List Clock
      → Result Exc FleetPlacement
  place knock market price until interval preview members cancel keep_best clocks =
      then_gather cancel keep_best clocks
        (place_members knock market price until interval preview members)
