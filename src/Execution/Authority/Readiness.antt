-- ===== src/Execution/Authority/Readiness.antt =====
-- src/crypto_trader/execution/authority.py: what the guards 1 to 11 ask for.
use crypto_auto_trading_syst.Base.{
  ◌≡◌, ◌<◌, ◌&&◌, not, refl, ◌≢◌, ◌⊎◌, ◌↔◌, inl, inr, Bool, true, false, Option, none, some, arith,
}
use crypto_auto_trading_syst.Decimal.{Context}
use crypto_auto_trading_syst.Domain.Enums.{
  TradingMode, paper, live, shadow, OrderStatus, created, validated, unknown, ExecutionDecision,
  approve, is_approve,
}
use crypto_auto_trading_syst.Risk.KillSwitch.{KillSwitch}
use crypto_auto_trading_syst.Domain.Models.{Time, OrderIntent, RiskDecision}
use crypto_auto_trading_syst.Execution.Authority.{
  AuthorizationContext, is_live, switch_on, has_expired, may_execute, risk_approved, status_guards,
}

-- The tests of the guards 2, 3, 5, 9 and 11, said without them.
abbrev pub IsLiveAllowed : TradingMode → Bool → Type 0
IsLiveAllowed mode enabled = (mode ≢ live) ⊎ (enabled ≡ true)

abbrev pub IsOff : Option KillSwitch → Type 0
IsOff none = Unit
IsOff (some k) = k.enabled ≡ false

abbrev pub IsAlive : Option Time → Time → Type 0
IsAlive none now = Unit
IsAlive (some expiry) now = now < expiry

abbrev pub IsExecutable : OrderStatus → Type 0
IsExecutable status = (status ≡ created) ⊎ (status ≡ validated) ⊎ (status ≡ unknown)

abbrev pub IsApproved : Option RiskDecision → Type 0
IsApproved none = ⊥
IsApproved (some d) = d.decision ≡ approve

is_live-IsLiveAllowed :
    (mode : TradingMode) (enabled : Bool)
    → is_live mode && not enabled ≡ false ↔ IsLiveAllowed mode enabled
is_live-IsLiveAllowed live true = (λ h. inr refl, λ h. refl)
is_live-IsLiveAllowed live false =
    (λ h. cc, λ h. elim h [ inl other ↦ absurd (other refl) | inr on ↦ cc ])
is_live-IsLiveAllowed paper enabled = (λ h. inl (λ e. cc), λ h. refl)
is_live-IsLiveAllowed shadow enabled = (λ h. inl (λ e. cc), λ h. refl)

switch_on-IsOff : (k : Option KillSwitch) → switch_on k ≡ false ↔ IsOff k
switch_on-IsOff none = (λ h. tt, λ h. refl)
switch_on-IsOff (some k) = (λ h. h, λ h. h)

has_expired-IsAlive :
    (expiry : Option Time) (now : Time) → has_expired expiry now ≡ false ↔ IsAlive expiry now
has_expired-IsAlive none now = (λ h. tt, λ h. refl)
has_expired-IsAlive (some t) now = (λ h. ground arith, λ h. ground arith)

may_execute-IsExecutable : (status : OrderStatus) → may_execute status ≡ true → IsExecutable status
may_execute-IsExecutable created h = inl refl
may_execute-IsExecutable validated h = inr (inl refl)
may_execute-IsExecutable unknown h = inr (inr refl)
may_execute-IsExecutable _ h = cc

IsExecutable-may_execute : (status : OrderStatus) → IsExecutable status → may_execute status ≡ true
IsExecutable-may_execute status (inl e) = rw e refl
IsExecutable-may_execute status (inr (inl e)) = rw e refl
IsExecutable-may_execute status (inr (inr e)) = rw e refl

is_approve_lem : (d : ExecutionDecision) → is_approve d ≡ true → d ≡ approve
is_approve_lem approve h = refl
is_approve_lem _ h = cc

risk_approved-IsApproved : (d : Option RiskDecision) → risk_approved d ≡ true ↔ IsApproved d
risk_approved-IsApproved none = (λ h. cc, λ h. absurd h)
risk_approved-IsApproved (some d) = (is_approve_lem d.decision, λ h. rw h refl)

module _ {L : Type 0} (c : Context) (allow : L → Bool × L) (intent : OrderIntent) where
  -- The conditions on the engine, the market and the order that guards 1 to 11 ask for.
  pub record IsReady (ctx : AuthorizationContext L) : Type 0 where
    pub lease : ctx.lease_held ≡ true
    pub mode : IsLiveAllowed ctx.trading_mode ctx.live_enabled
    pub switch : IsOff ctx.kill_switch
    pub reconciled : ctx.reconciliation_halted ≡ false
    pub expiry : IsAlive intent.expires_at ctx.now
    pub market : ctx.market_data_fresh ≡ true
    pub book_fresh : ctx.orderbook_fresh ≡ true
    pub book_healthy : ctx.orderbook_healthy ≡ true
    pub tradeable : ctx.symbol_tradeable ≡ true
    pub connected : ctx.exchange_connected ≡ true
    pub balance : ctx.balance_fresh ≡ true
    pub state : IsExecutable ctx.order_status
    pub single : ctx.duplicate_client_order ≡ false
    pub risk : IsApproved ctx.risk_decision

  -- The same with the tests of the code.
  record HasPassed (ctx : AuthorizationContext L) : Type 0 where
    lease : ctx.lease_held ≡ true
    mode : is_live ctx.trading_mode && not ctx.live_enabled ≡ false
    switch : switch_on ctx.kill_switch ≡ false
    reconciled : ctx.reconciliation_halted ≡ false
    expiry : has_expired intent.expires_at ctx.now ≡ false
    market : ctx.market_data_fresh ≡ true
    book_fresh : ctx.orderbook_fresh ≡ true
    book_healthy : ctx.orderbook_healthy ≡ true
    tradeable : ctx.symbol_tradeable ≡ true
    connected : ctx.exchange_connected ≡ true
    balance : ctx.balance_fresh ≡ true
    state : may_execute ctx.order_status ≡ true
    single : ctx.duplicate_client_order ≡ false
    risk : risk_approved ctx.risk_decision ≡ true

  status_guards-HasPassed :
      (ctx : AuthorizationContext L) → status_guards c allow intent ctx ≡ none → HasPassed ctx
  unfolding status_guards
  status_guards-HasPassed ctx h = ground arith

  HasPassed-status_guards :
      (ctx : AuthorizationContext L) → HasPassed ctx → status_guards c allow intent ctx ≡ none
  unfolding status_guards
  HasPassed-status_guards ctx h = ground arith

  HasPassed-IsReady : (ctx : AuthorizationContext L) → HasPassed ctx ↔ IsReady ctx
  HasPassed-IsReady ctx = (
    λ h. record {
      lease = h.lease;
      mode = (is_live-IsLiveAllowed ctx.trading_mode ctx.live_enabled).0 h.mode;
      switch = (switch_on-IsOff ctx.kill_switch).0 h.switch;
      reconciled = h.reconciled;
      expiry = (has_expired-IsAlive intent.expires_at ctx.now).0 h.expiry;
      market = h.market;
      book_fresh = h.book_fresh;
      book_healthy = h.book_healthy;
      tradeable = h.tradeable;
      connected = h.connected;
      balance = h.balance;
      state = may_execute-IsExecutable ctx.order_status h.state;
      single = h.single;
      risk = (risk_approved-IsApproved ctx.risk_decision).0 h.risk;
    },
    λ h. record {
      lease = h.lease;
      mode = (is_live-IsLiveAllowed ctx.trading_mode ctx.live_enabled).1 h.mode;
      switch = (switch_on-IsOff ctx.kill_switch).1 h.switch;
      reconciled = h.reconciled;
      expiry = (has_expired-IsAlive intent.expires_at ctx.now).1 h.expiry;
      market = h.market;
      book_fresh = h.book_fresh;
      book_healthy = h.book_healthy;
      tradeable = h.tradeable;
      connected = h.connected;
      balance = h.balance;
      state = IsExecutable-may_execute ctx.order_status h.state;
      single = h.single;
      risk = (risk_approved-IsApproved ctx.risk_decision).1 h.risk;
    },
  )

  pub status_guards-IsReady :
      (ctx : AuthorizationContext L) → status_guards c allow intent ctx ≡ none ↔ IsReady ctx
  status_guards-IsReady ctx = (
    λ h. (HasPassed-IsReady ctx).0 (status_guards-HasPassed ctx h),
    λ h. HasPassed-status_guards ctx ((HasPassed-IsReady ctx).1 h),
  )
