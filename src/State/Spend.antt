-- ===== src/State/Spend.antt =====
-- internal/state/spend.go: what attempts cost, read from the log and added up.
use age_of_agents.Base.{
  ℕ, ◌+◌, ◌*◌, String, ◌==◌, Bool, true, false, ◌||◌, Option, none, some, [], ◌∷◌, ltb, leb, eqb,
  get_or, if◌then◌else◌,
}
use age_of_agents.Base.Dict.{Dict, get, bump}
use age_of_agents.Api.EventType.{
  EventType, proposal_submitted, ticket_decomposed, ticket_failed, worker_restarted,
}
use age_of_agents.Api.Event.{Event, ChargeKeys, event_type}
use age_of_agents.State.Model.{Charge, Spend}

abbrev pub closes_attempt : EventType → Bool
closes_attempt proposal_submitted = true
closes_attempt ticket_decomposed = true
closes_attempt ticket_failed = true
closes_attempt worker_restarted = true
closes_attempt _ = false

-- The decode of the shared keys, and the test that something was spent.
abbrev pub read_charge : Option ChargeKeys → Option (String × Charge)
read_charge none = none
read_charge (some p) =
    if ltb 0 p.tokens || ltb 0 p.cost_usd
    then some (p.ticket_id, record { tokens = p.tokens; model = p.model; cost_usd = p.cost_usd })
    else none

-- ChargeOf; `ok == false` is `none`.
unfoldable pub charge_of : Event → Option (String × Charge)
unfolding event_type
charge_of e = if closes_attempt (event_type e.body) then read_charge e.charge_keys else none

-- Spend.Add
unfoldable pub add : Spend → Charge → Spend
unfolding bump
add sp c =
    let paid =
      if ltb 0 c.cost_usd
      then record sp { cost_usd_reported = sp.cost_usd_reported + c.cost_usd }
      else sp in
    if leb c.tokens 0
    then paid
    else let counted = record paid { tokens_spent = paid.tokens_spent + c.tokens } in
      if c.model == ""
      then counted
      else let named = record counted {
        tokens_by_model = bump c.model c.tokens counted.tokens_by_model;
      } in
        if eqb c.cost_usd 0
        then record named { tokens_to_price = bump c.model c.tokens named.tokens_to_price }
        else named

-- USD, with prices in microdollars per million tokens: the division by 1e6 and the unit of the price
-- make the result picodollars, exactly. Addition of whole numbers has no order to fix.
unfoldable pub usd : Dict ℕ → Dict ℕ → ℕ
unfolding get
usd [] price_per_mtok = 0
usd ((model, tokens) ∷ rest) price_per_mtok =
    tokens * get_or (get model price_per_mtok) 0 + usd rest price_per_mtok

-- Spend.CostUSD
unfoldable pub cost_usd : Spend → Dict ℕ → ℕ
unfolding usd
cost_usd sp pricing = sp.cost_usd_reported + usd sp.tokens_to_price pricing
