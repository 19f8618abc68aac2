-- ===== src/Conflicts/Tests.antt =====
-- Events that meet the hypotheses of the theorems about conflicts.
use mobile_money_simulator.Prelude.{◌≡◌, refl}
use mobile_money_simulator.Events.Tests.{deposited, emptied}
use mobile_money_simulator.Conflicts.{Strategy, resolve}
use mobile_money_simulator.Conflicts.Order.{resolve_comm}

resolve_comm_example :
    resolve Strategy.by_compensation deposited emptied
    ≡ resolve Strategy.by_compensation emptied deposited
resolve_comm_example = resolve_comm Strategy.by_compensation deposited emptied refl (λ _. refl)
