-- ===== src/Xtask/Sockets.antt =====
-- The ports of the sockets that are generated.
use allegro.Prelude.{ℕ, ◌+◌, ◌≤◌, ◌≡◌, ◌↔◌, List, ok, u16_max, arith}
use Prim.Native.String.{String}
use allegro.Xtask.{Generators, sockets_from, counted_sockets}

module _ (g : Generators) where
  -- For a base port in 16 bits, a count of validators gives its sockets at consecutive ports
  -- exactly if the last port is in 16 bits.
  pub counted_sockets_iff :
      (base_port n : ℕ)
      → base_port ≤ u16_max
      → (counted_sockets g base_port n ≡ ok (sockets_from g base_port n))
        ↔ (base_port + n ≤ u16_max + 1)
  unfolding counted_sockets
  counted_sockets_iff base_port n fits = ground arith

  pub counted_sockets-same :
      (base_port n : ℕ) (sockets : List String)
      → counted_sockets g base_port n ≡ ok sockets
      → sockets ≡ sockets_from g base_port n
  unfolding counted_sockets
  counted_sockets-same base_port n sockets h = ground arith
