-- ===== src/Exchange/Signing/Tests.antt =====
-- Runs of the signing of an entry: a venue that is not ready at first, and one that never is.
use polymarket_event_quant.Base.{
  ℕ, ◌*◌, ◌≡◌, refl, true, none, some, [], ◌∷◌, ok, err, ltb, min, if◌then◌else◌, arith,
}
use polymarket_event_quant.Base.Text.{codes, to_lower}
use polymarket_event_quant.Base.Concat
use polymarket_event_quant.Exchange.Session.{ApiError, Signer, Session, Submission}
use polymarket_event_quant.Exchange.Signing.{
  Prepared, prepare_entry, entry_of, sign_rounds, sign_legs, Entry,
}
use polymarket_event_quant.Exchange.Signing.Rounds.{Ends, prepare_entry-Ends}
use polymarket_event_quant.Exchange.Signing.Reuse.{prepare_entry_once}
use polymarket_event_quant.Fixtures.{cents, market}
use polymarket_event_quant.Base.Float.{float_sum, last_bit}

abbrev pub not_found : ApiError
not_found = record {
  status_code = some 404;
  error = some (codes "Market not found");
  text = "PolyApiException[status_code=404]";
}

-- the first `n` requests find no market; 60 ms pass in each
abbrev pub signer : ℕ → Signer
signer n = record {
  create_order = λ call token price size tick.
      if ltb call n then err not_found else ok (Concat.◌++◌ "signed:" token);
  order_body = λ order. Concat.◌++◌ "body:" order;
  monotonic = λ call. min call 100 * 69_175_290_276_410_822;
  time_s = λ call. 100;
  get_version = none;
  is_clob_client = true;
}

abbrev pub session : Session
session = record { submissions = []; tick_sizes = some []; cached_version = none; calls = 0 }

prepare_entry-Ends_example :
    Ends 13 session
      (prepare_entry (signer 20) Submission.both_sides market (cents 10) (cents 10000) session)
prepare_entry-Ends_example =
    prepare_entry-Ends (signer 20) Submission.both_sides market (cents 10) (cents 10000) session
      (λ call. omega arith)

-- a venue that is never ready is given up
gives_up :
    (prepare_entry
      (signer 20)
      Submission.both_sides
      market
      (cents 10)
      (cents 10000)
      session).1.calls
    ≡ 5
unfolding prepare_entry sign_rounds sign_legs to_lower float_sum last_bit
gives_up = refl

-- a clock that stands at ten seconds: the rounding of the sums leaves time for a sixth round
abbrev standing : Signer
standing = record (signer 20) { monotonic = λ call. 11_529_215_046_068_469_760 }

sixth_round :
    (prepare_entry standing Submission.both_sides market (cents 10) (cents 10000) session).1.calls
    ≡ 6
unfolding prepare_entry sign_rounds sign_legs to_lower float_sum last_bit
sixth_round = refl

abbrev pub signed_entry : Entry
signed_entry =
    entry_of (signer 2) Submission.both_sides market (cents 10) (cents 10000)
      ("signed:u1" ∷ "signed:d1" ∷ [])

-- the session after the orders were signed in the third round
abbrev signed_session : Session
signed_session = record session {
  submissions =
      (prepare_entry (signer 2) Submission.both_sides market (cents 10) (cents 10000)
        session).1.submissions;
}

prepare_entry_once_example :
    prepare_entry (signer 2) Submission.both_sides market (cents 10) (cents 10000) signed_session
    ≡ (ok (Prepared.ready signed_entry), signed_session)
unfolding prepare_entry sign_rounds sign_legs to_lower float_sum last_bit
prepare_entry_once_example =
    prepare_entry_once (signer 2) Submission.both_sides market (cents 10) (cents 10000) session
      signed_session signed_entry refl refl
