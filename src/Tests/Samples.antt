-- ===== src/Tests/Samples.antt =====
-- Settings with the defaults of config.py, a session and decisions.
use taurus_agent.Base.{ℕ, ◌+◌, ◌*◌, true, false, List, [], ◌∷◌, ◌==◌, if◌then◌else◌}
use taurus_agent.Execution.{Settings, Mode, BrokerProvider, IdScheme}
use taurus_agent.Risk.{FinalDecision, FinalDecisionStatus, TraderAction, DecisionReason}
use taurus_agent.Store.{Session, Candle, ProfileStatus}

abbrev pub settings : Settings
settings = record {
  live_trading_enabled = false;
  broker_provider = BrokerProvider.paper;
  taurus_mode = Mode.paper;
  kill_switch_enabled = false;
  profile_id = 1;
  slippage_bps = 50_000;
  brokerage_bps = 30_000;
  exchange_txn_charge_bps = 3_500;
  tax_levy_bps = 10_000;
  partial_fill_threshold = 50;
  first_fill_pct = 6_000;
  max_daily_loss_pct = 30_000;
}

abbrev pub ids : IdScheme
ids = record {
  paper_account_id = λ portfolio run. 1000 * portfolio + run;
  paper_order_id = λ final decision quantity. 1_000_000 * final + quantity;
  decision_id_for_proposal = λ run symbol proposal. 100 * proposal + symbol;
  risk_review_id = λ run symbol proposal reports. 100 * proposal + symbol;
  final_decision_id = λ run symbol proposal check. 100 * proposal + symbol;
  paper_fill_id = λ order sequence quantity price. 10 * order + sequence;
}

-- Symbol 7 trades at 100 and then opens at 101; symbol 8 opens at 250 and closes at 125.
abbrev pub candles : ℕ → List Candle
candles symbol =
    if symbol == 7
    then record { trade_date = 10; open_price = 1_000_000; close_price = 1_000_000 }
      ∷ record { trade_date = 11; open_price = 1_010_000; close_price = 1_020_000 }
      ∷ []
    else if symbol == 8
    then record { trade_date = 10; open_price = 2_500_000; close_price = 1_250_000 } ∷ []
    else []

-- An active profile with a corpus of 10,000 rupees.
abbrev pub session : Session
session = record {
  orders = [];
  fills = [];
  accounts = [];
  positions = [];
  audit = [];
  profiles =
      record { profile_id = 1; starting_corpus_inr = 100_000_000; status = ProfileStatus.active }
      ∷ [];
  final_decision_ids = 1 ∷ 2 ∷ 3 ∷ 4 ∷ 407 ∷ [];
  instruments = 7 ∷ 8 ∷ 9 ∷ [];
  candles = candles;
}

abbrev pub decision : (final symbol : ℕ) → TraderAction → (quantity pct : ℕ) → FinalDecision
decision final symbol action quantity pct = record {
  final_decision_id = final;
  decision_id = final;
  run_id = 3;
  portfolio_id = 1;
  symbol = symbol;
  proposal_id = final;
  risk_check_id = final;
  as_of = 5_000 * final;
  final_action = action;
  status = FinalDecisionStatus.approved_for_paper;
  approved_quantity = quantity;
  approved_position_pct_nav = pct;
  reason = DecisionReason.approved_for_paper;
  can_send_to_broker = true;
}

-- The same candles with one more for symbol 7.
abbrev pub later_candles : ℕ → List Candle
later_candles symbol =
    if symbol == 7
    then record { trade_date = 10; open_price = 1_000_000; close_price = 1_000_000 }
      ∷ record { trade_date = 11; open_price = 1_010_000; close_price = 1_020_000 }
      ∷ record { trade_date = 12; open_price = 1_030_000; close_price = 1_025_000 }
      ∷ []
    else []
