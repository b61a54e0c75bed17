-- ===== src/Lib.antt =====
-- The paper-trading core of Taurus Agent: how a trader's proposal becomes a reviewed decision, an
-- order, fills and an account.
--
-- `RunLevelAllocationService` ranks the purchases of a run, and `PortfolioAllocationService` sizes
-- each by the money-management policy. A proposal is then judged by `RiskEngine.evaluate`, whose
-- purchases are limited by the exposure graph; `PortfolioManagerAgent` turns the review into a final
-- decision with a quantity; `ExecutionRouter` passes approved decisions to `PaperBroker.place_order`,
-- which rebuilds the account from the stored fills and then rejects the order, fills it at once, or
-- stores it for the next open; and `settle_pending_next_open_orders` fills or rejects the stored
-- orders.
--
-- Files, by the code under packages/taurus_core:
--   Base         numbers, lists, and exceptions as values of `Result`
--   Money        decimal amounts and their rounding (`_money`, the default decimal context)
--   Execution    execution/schemas.py, costs.py and slippage.py, and the fields of config.py
--   Store        the tables and methods of db/repositories.py that execution uses, the keys of
--                the tables in db/models.py, and profiles/runtime.py
--   Broker       brokers/paper_broker.py: State (working state and replay), Fills, Affordable
--                (`_affordable_quantity`), Orders, Place (`place_order`), Settle, Cancel
--   Risk         risk/schemas.py; Graph is graph_concentration.py, Engine is engine.py, Engine/Review
--                is review_service.py
--   Approval     agents/portfolio_manager.py
--   Policy       portfolio/money_management.py: the policy's sections and their validation
--   Allocation   portfolio/active_allocation.py and score_semantics.py: Governors (drawdowns), Score,
--                Rooms (the caps of a purchase), Decisions and Service (`PortfolioAllocationService`)
--   RunAllocation  portfolio/run_allocation.py: the purchases of one run after another, under the
--                money-management policy (Run) or the settings (Fallback)
--   Trader       agents/trader_agent.py: Context (what the store says of the symbol), Lifecycle (the
--                trader's own decision) and Advice (what it takes of a language model's answer)
--   Router       execution/order_router.py; Router/Pipeline joins it with the risk engine and the
--                portfolio manager
--   Tests        runs at fixed inputs, and the theorems at inputs that meet their hypotheses
--
-- State: a session is a record of tables, each a list of rows in the order of insertion, and an
-- operation takes it and returns the new one with its result. A raised exception is an `err`; it
-- carries no session, because the transaction of a failed call is not committed. Amounts are whole
-- numbers of 0.0001 rupee, rates of 0.0001 basis point, percentages of 0.0001 percent; times are
-- seconds, dates days. Profile ids, symbols and row ids are only compared, so they are numbers,
-- symbols being upper-cased before; a proposal id of 0 stands for the empty one. The ids that
-- `stable_id` hashes are functions of a record, of which nothing is assumed. Amounts are exact up to
-- the 28 digits of the decimal context, but for the one quotient that Money/Context rounds as the
-- context does; `quantize` raises beyond that, which is outside the model.
--
-- Loops are structural: the replay of fills, the countdown of `_affordable_quantity` on the requested
-- quantity, the rounds of a settlement on the pending rows, the policies of the graph check. Only the
-- search for the 28-digit scale of a quotient takes fuel, 28 and the divisor, which bounds the number
-- of decimal places that it needs.
--
-- The keys and constraints of the tables are checked on the rows that a call would store (`flush` in
-- Store/Constraints), since the database undoes a call that violates one. What the trader reads of
-- stored payloads, and what asking the language model comes to, are arguments with their exceptions.
--
-- Not modelled: logging, alerts, metrics, texts of reasons and details, constant fields of the
-- schemas, reading endpoints of the broker, the language model's explanation of a decision, the
-- widths of the columns, the storing of reviews, decisions and proposals, the rows behind the
-- exposure graph (`GraphFacts` holds what they give for a symbol), and the parts of the program
-- outside this path: the run's portfolio plan, the other agents, backtests, data and applications.
pub mod Base
pub mod Money
pub mod Execution
pub mod Risk
pub mod Store
pub mod Broker
pub mod Approval
pub mod Policy
pub mod Allocation
pub mod RunAllocation
pub mod Trader
pub mod Router
mod Tests
