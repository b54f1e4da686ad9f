-- ===== src/Consensus/Plan.antt =====
-- commonware's plan of a broadcast: to whom a block goes.
use allegro.Prelude.{List}
use allegro.Primitives.Digest.{PublicKey}

-- `commonware_p2p::Recipients`.
pub data Recipients : Type 0 where
  everyone : Recipients
  only : List PublicKey → Recipients
  one : PublicKey → Recipients

-- `commonware_consensus::simplex::Plan`.
pub data Plan : Type 0 where
  propose : Plan
  forward : Recipients → Plan
