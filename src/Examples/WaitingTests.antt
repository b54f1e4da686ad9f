-- ===== src/Examples/WaitingTests.antt =====
-- A proposal by its waits, with the stores and the execution layer changed at each wait.
use allegro.Prelude.{arith, ℕ, ◌≡◌, [], ◌∷◌, none}
use allegro.Consensus.Application.{Actor, propose}
use allegro.Network.Waiting.{idle, begin}
use allegro.Network.Waiting.Finishing.{interfered, begin-finishes}
use allegro.Examples.Fixtures.{eth, engine}
use allegro.Examples.Scenario.{fresh, supplied, tracker, proposing, clock}

-- At each wait, a block more was received, and the execution layer answers otherwise.
abbrev disturbed : ℕ → Actor × ℕ
disturbed w = (record supplied { metrics = none }, w)

begin-finishes_example :
    interfered eth engine
      (disturbed 0
        ∷ disturbed 1
        ∷ (fresh, 2)
        ∷ disturbed 3
        ∷ (fresh, 4)
        ∷ disturbed 9
        ∷ (fresh, 0)
        ∷ [])
      (begin eth clock (propose proposing) fresh tracker).0
    ≡ idle
begin-finishes_example =
    begin-finishes eth engine clock (propose proposing) fresh tracker
      (disturbed 0
        ∷ disturbed 1
        ∷ (fresh, 2)
        ∷ disturbed 3
        ∷ (fresh, 4)
        ∷ disturbed 9
        ∷ (fresh, 0)
        ∷ [])
      (omega arith)
