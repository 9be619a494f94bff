-- ===== src/Taxation/Examples.antt =====
-- The tax on a coin at the rates of the sample chain.
use dogether_contracts.Prelude.{◌+◌, ◌-◌, ◌*◌, ◌/◌, ◌≤◌, ◌≡◌, refl, ok, arith}
use dogether_contracts.Platform.Types.{Coin, decimal_one}
use dogether_contracts.Platform.Sample.{sample_std, sample_querier, sample-IsDocumented}
use dogether_contracts.Taxation.{min, compute_tax, deduct_tax}
use dogether_contracts.Taxation.Bounds.{tax, deduct_tax_total, deduct_tax_affordable}

abbrev gross : Coin
gross = record { denom = "uusd"; amount = 1_001_000 }

abbrev net : Coin
net = record { denom = "uusd"; amount = 1_000_000 }

deduct_tax_total_example :
    deduct_tax sample_std sample_querier gross
    ≡ ok (record {
      denom = gross.denom;
      amount = gross.amount - tax gross.amount 1_000_000_000_000_000 1_000_000;
    })
deduct_tax_total_example =
    deduct_tax_total sample_std sample-IsDocumented sample_querier gross 1_000_000_000_000_000
      1_000_000 refl refl (omega arith) (omega arith) (omega arith)

deduct_tax_affordable_example :
    net.amount + min (net.amount * 1_000_000_000_000_000 / decimal_one) 1_000_000 ≤ gross.amount
unfolding deduct_tax compute_tax
deduct_tax_affordable_example =
    deduct_tax_affordable sample_std sample-IsDocumented sample_querier gross 1_000_000_000_000_000
      1_000_000 refl refl {left = net} refl
