-- ===== src/Lib.antt =====
-- The trading core of the crypto automated trading system: orders and fills, the double-entry ledger
-- with its projections, the risk engine, the execution authority, perpetual contracts, market data, the
-- simulated exchange with its reconciliation, the advice on sizes, and the lease, signals, events,
-- supervisor and recovery of the runtime.
--
-- How the parts work together. A strategy emits a signal. The risk engine judges it against limits and
-- the kill switch. An approved intent becomes an order, which the order manager stores; the execution
-- authority judges it once more before it goes out, with a token bucket as its last guard, and the
-- cross-exchange guard compares the prices of two exchanges. Exchange events move the order through
-- the state machine. A fill is applied to its order and handed to a settlement callback, which records
-- balanced journals in the ledger, and balances and positions are replayed from the journal. One engine
-- at a time holds the lease and may write. At a start it asks the exchange what became of the open
-- orders, and the simulated exchange adopts the replayed ledger; the reconciliation compares the two
-- from time to time. A feed keeps the order books in sequence with the exchange's deltas.
--
-- Which file models which part:
--   Base, Base/*: Boolean tests, lists, tables with keys, results that carry an error.
--   Int, Decimal: integers, and Python's decimals as integer multiples of a least quantum. Every
--     operation rounds its exact result once, in a context of `prec` digits (half to even).
--   Domain/Enums, Domain/Models, Domain/Money: src/crypto_trader/domain/enums.py, models.py, money.py.
--   Order/StateMachine: src/crypto_trader/order/state_machine.py.
--   Order/Store, Order/Manager, Order/Lifecycle, Order/Fills: src/crypto_trader/order/manager.py.
--     `create_from_intent`, `transition`, `apply_fill` and the rest keep their names; `submitting`,
--     `submitted` and `cancel_pending` are `submitting_order`, `submitted_order` and
--     `cancel_pending_order`.
--   Ledger/Journal, Ledger/Service: src/crypto_trader/ledger/service.py (`record` is
--     `record_transaction`).
--   Ledger/Projections: src/crypto_trader/ledger/projections.py.
--   Risk/KillSwitch, Risk/Reversal, Risk/Engine: src/crypto_trader/risk/kill_switch.py, engine.py.
--   Execution/RateLimiter, Execution/Authority, Execution/CrossExchange:
--     src/crypto_trader/execution/rate_limiter.py, authority.py, cross_exchange_guard.py.
--   Perpetual/Contract: src/crypto_trader/perpetual/domain.py.
--   Perpetual/Calculators: src/crypto_trader/perpetual/margin.py, funding.py, liquidation.py.
--   Perpetual/FuturesLedger, Perpetual/Projection: src/crypto_trader/perpetual/ledger.py
--     (`rebuild_futures_projection` is `rebuild`).
--   Perpetual/Engine: src/crypto_trader/perpetual/engine.py; its state is the journal, from which it
--     rebuilds the positions in every operation.
--   MarketData/Book, MarketData/Service: src/crypto_trader/market_data/orderbook.py, service.py. A
--     `Feed` is what the service's dictionaries hold for one symbol. MarketData/NewRiskGate is
--     new_risk_gate.py.
--   Simulator/Matching, Simulator/Exchange: src/crypto_trader/simulator/exchange.py (`_match_order` is
--     `match_order`, `_apply_fill_to_balances` is `apply_fill_to_balances`).
--   Simulator/SymbolMapper, Simulator/RealMarketPaper: src/crypto_trader/exchange/symbol_mapper.py,
--     simulator/real_market_paper.py.
--   Governance/*: src/crypto_trader/governance/leverage_control.py, drawdown.py,
--     capital_management/engine.py (`Allocation`), risk_v3/engine.py and capital_guard/guard.py
--     (`Guards`).
--   Reconciliation: src/crypto_trader/reconciliation/service.py, and `hydrate_from_ledger` of the
--     simulator.
--   Runtime/Lease, Runtime/Recovery, Runtime/StateMachine: src/crypto_trader/runtime/lease.py,
--     recovery.py, state_machine.py. A transaction on the leases is a `Write`; a try of `acquire` is an
--     `Attempt`.
--   Runtime/Engine, Runtime/Loops, Runtime/Signal, Runtime/PerpetualRoute, Runtime/Submission,
--     Runtime/Events: src/crypto_trader/runtime/engine.py, `start` and `stop`, the loops of the lease
--     and of the reconciliation, `process_signal` (Runtime/Signal/Process) with its two routes
--     (`execute_perpetual_order` and `submit_intent`), `process_exchange_event` for orders, and
--     `_settle_fill`. Runtime/Tick is its `tick`.
--   Runtime/ExecutionSymbols: src/crypto_trader/runtime/execution_symbols.py.
--   Runtime/Supervisor: src/crypto_trader/runtime/supervisor.py; the task of a loop is a `Loop`, and
--     what the event loop may do with it is the relation `Step`.
--   Tests/*: concrete runs, and the theorems applied to concrete inputs.
--
-- How state is modelled. The database is a store, a record of tables; an operation takes it and returns
-- its result with the store afterwards. An operation that reads and writes in separate sessions takes
-- `others`, what other tasks commit in between, so that races are inputs of the theorems. The unique
-- constraints of src/crypto_trader/persistence/models.py are tests in the commits. Errors are values
-- of `Error`. Identifiers that are drawn and the clock are arguments.
--
-- Bounds and conditions. Texts are only compared, so they are numbers, with 0 for the empty text; times
-- are numbers. Loops are structural recursion. Two helpers of the decimals count digits on fuel: the
-- number itself, which is never less than the count of its digits. The loop of the match runs on a
-- turn for each level of the book's side and two more, since a turn that goes on removes a level or
-- leaves nothing to fill; `acquire` runs on a list of tries. The decimals leave out
-- overflow, NaN and the infinities; a theorem that needs a sum to be kept without rounding says so
-- (`IsExact`). Floating-point numbers of the rate limiter are a parameter with their laws.
--
-- Not modelled: free-form payloads and reports of checks, which nothing reads back; network adapters,
-- feeds from the network and indicators, the HTTP interface, language-model agents, research and
-- evolution, the rest of the trading loop, the tables' declarations, the frontend and
-- deployment.
pub mod Base
pub mod Int
pub mod Decimal
pub mod Domain
pub mod Order
pub mod Ledger
pub mod Risk
pub mod Execution
pub mod Perpetual
pub mod MarketData
pub mod Simulator
pub mod Reconciliation
pub mod Governance
pub mod Runtime
pub mod Tests
