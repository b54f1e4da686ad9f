-- ===== src/Examples/ForgeryTests.antt =====
-- A block under a digest that is not its hash.
use allegro.Prelude.{arith, ◌≡◌, replicate, refl, true, ◌∷◌, some}
use allegro.Prelude.Dict.{get, insert}
use allegro.Prelude.Equality.{bytes_eqb}
use allegro.Primitives.Digest.{Digest, digest_eq}
use allegro.Consensus.Application.{handle_verify}
use allegro.Node.Builder.{meta_of}
use allegro.Network.Forgery.{supply, forged_digest_accepted}
use allegro.Consensus.Application.{Verify, verified_info}
use allegro.Examples.Scenario.{builder, fresh, tracker}
use allegro.Examples.Fixtures.{TestBlock, eth, engine, eth-Decodes}
use allegro.Examples.Scenario.{leader_address, leader_key, verifying}

-- A digest that is the hash of no block of the small execution layer.
abbrev forged : Digest
forged = record { inner = 9 ∷ replicate 31 9 }

abbrev block : TestBlock
block = record { seconds = 5; height = 1 }

abbrev claiming : Verify
claiming = record verifying { payload = forged }

forged_digest_accepted_example :
    let r =
      handle_verify builder claiming (supply eth leader_key forged block fresh) (tracker, 0) in
    (r.0 ≡ true)
    × (get r.1.block_info.contents forged ≡ some (verified_info claiming (meta_of eth block)))
unfolding get insert bytes_eqb
forged_digest_accepted_example =
    forged_digest_accepted eth engine eth-Decodes block forged leader_key fresh tracker 0 claiming
      leader_address refl (omega arith) refl refl refl refl refl refl refl
