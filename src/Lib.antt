-- ===== src/Lib.antt =====
-- Verification of the Polymarket BTC five-minute bot (polymarket_bot/*.py).
--
-- The bot buys both outcomes of a five-minute market as soon as the venue lists it, sells what
-- was bought at the exit prices of its plan, and cancels what is left before the market ends. Its
-- parts: the service (service.py) owns the state and runs one handler after the other; the
-- database (database.py) keeps markets, orders and events; the exchange (exchange.py) talks to
-- the venue's client; the reconciliation worker (reconciliation.py) and the user stream worker
-- (user_stream.py) hand the service updates through queues; the paper simulator (paper.py)
-- measures what resting orders would have earned.
--
-- Files:
-- Base and its children are the helpers: lists, results, integers, decimals, texts, keyed tables.
-- Models is models.py: Models.Validation is `TradePlan.validate`, Models.Statuses the sets of
-- order states that SQL and service.py test. Database is the tables and statements of
-- `BotDatabase`, Database.Queries its reads; Invariant and Statements are about every sequence of
-- statements, Rows, Reserve and Joins about single ones. Exchange is `normalize_order` and the
-- payloads, Exchange.Statuses is about the texts of a state, Exchange.Client the official client
-- as a parameter, Exchange.Orders the calls of `Exchange` for exits, balances, cancels and books.
-- Exchange.Session is what an `Exchange` keeps between its calls, Exchange.Signing its
-- `prepare_entry` and `_sign_entries`, Exchange.Knock the plan and the replies of a knock (with
-- the wording of knocker.py), Exchange.Entry `settle_entry` and `_finalize_dual_result`,
-- Exchange.Lost `reconcile_ambiguous_dual` and `place_dual`. Reconciliation is a round of
-- `ReconciliationWorker._fetch`; Reconciliation.Round is about it. Service is the state of
-- `BotService`, Service.Monad the form of a handler; Service.Exits is `_place_missing_exits`,
-- Service.Adopt `_adopt_unknown_open_orders`, Service.Reconcile `_drain_reconciliation_updates`
-- and `_reconcile`, Service.Cancel the cancels, Service.Stream `_drain_user_stream_updates`,
-- Service.Placement `_consider_market` and `_place` (of the parts in Service.Placement.Steps),
-- and Service.Placement.Live the same on the exchange of Exchange.Lost,
-- Service.Placement.Accounts `_place_with_fleet`, the handler of several accounts. Service.Loop
-- is `_tick`, Service.Loop.Process `run`, Service.Cancel.Accounts the cancels of a fleet, account
-- by account. Geoblock is the worker of geoblock.py. Fleet is the choice and the settlement of
-- `Fleet.place` (fleet.py) over several accounts, Fleet.Place what comes before it, the signing
-- of the members and their knock, Fleet.View the view of their orders; Fleet.Single and
-- Fleet.Phases are about a fleet of one account and about its timetable. Discovery is the pages
-- of discovery.py, Discovery.Reading the markets that are read from them. Activation is the
-- candidates of a `MarketActivationWorker` (market_activation.py), Activation.Slug the slug that
-- it looks for, Activation.Poll its walk from start to start and the health of its threads;
-- Activation.Once is about every interleaving of them, Activation.Healthy about the health.
-- UserStream is the state of a `UserStreamWorker` and the form of its updates. Paper is the
-- evidence and the results of paper.py, Paper.Tables `PaperDatabase`, Paper.Simulator the
-- handlers of `PaperSimulator`, Paper.Summary the figures of `status`. Fixtures has the data of
-- the tests, which stand in modules named Tests.
--
-- How the code is read:
-- A Decimal is a natural number of units of 10^-12; no value that is modelled so is negative, and
-- a profit is an integer. Sums and comparisons are exact. A product or a quotient is cut at the
-- twelfth digit, where the code keeps 28 significant digits, rounded half to even: the two agree
-- where the result has no more than twelve digits after the point, and a statement that needs the
-- plan's order size to have no more says so (IsExact). `validate`, whose tests depend on the last
-- digit, is read with the products and quotients of Base.Decimal.Context, which round as the code
-- does. An exception is the text that the handlers record. A handler takes the state and returns
-- a result or an exception together with the state, so what was written before a raise stays.
-- Each request to the venue may have another answer than the last: an answer depends on the
-- number of requests made before. A handler takes the time of its clock as an argument. Loops are
-- structural recursions over lists, except the signing of an entry, which waits for the venue: it
-- has fuel for six rounds, which are enough since a round takes a tenth of its half second, less
-- what the sums of float seconds lose (Base.Float has their rounding), and the pages of a
-- discovery, which have fuel for as many as there are events requested, enough since a full page
-- brings one at least. Any other time that the code holds in float seconds is a number of
-- milliseconds. Texts of the venue are lists of code points where the code takes them apart.
-- Tables keep the order of insertion, which is the order that sqlite gives rows with equal sort
-- keys.
--
-- Not modelled: threads, sockets, HTTP; the official client and the knock library, which is Go
-- code behind a binding, are parameters; an interrupt in the middle of a handler; the details
-- that an event stores as JSON; the schema migration; the foreign keys to the table of runs; the
-- queue probe, configuration and the command line.
pub mod Base
pub mod Models
pub mod Database
pub mod Exchange
pub mod Reconciliation
pub mod Service
pub mod Fixtures
pub mod Paper
pub mod UserStream
pub mod Fleet
pub mod Discovery
pub mod Geoblock
pub mod Activation
