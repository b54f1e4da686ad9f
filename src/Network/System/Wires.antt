-- ===== src/Network/System/Wires.antt =====
-- No message on the transport has a block under a digest that is not its hash, and so nothing that is
-- received.
use allegro.Prelude.{
  ℕ, ◌≤◌, ◌≡◌, sym, subst, false, List, Option, some, Result, ok, err, arith, ◌⊎◌, inl, inr,
  Option-cases, Bool-cases, take, drop, ltb, length, take-append_at, drop-append_at,
}
use allegro.Prelude.Dict.{get, Everywhere, Everywhere-insert}
use allegro.Prelude.Lock.{Lock}
use allegro.Primitives.Digest.{Bytes, IsB256, Digest, PublicKey, digest_eq}
use allegro.Consensus.Plan.{Plan}
use allegro.Consensus.Metrics.{Metrics}
use allegro.Consensus.Application.{Blocks}
use allegro.Consensus.Relay.{message, wire, receive, relay_broadcast, send_block, plan_recipients}
use allegro.Node.Reth.{EthFormat, Decodes, Hashes}
use allegro.Network.System.{Among, Transport}
use allegro.Network.System.Binding.{Names, Stands, Names-Stands}

-- A message is too short, or its block does not decode, or its digest is the hash of its block.
pub record Unforged {B X : Type 0} (eth : EthFormat B X) (m : Bytes) : Type 0 where
  pub stands : 32 ≤ length m → Stands eth (record { inner = take 32 m }) (drop 32 m)

module _ {B X : Type 0} (eth : EthFormat B X) where
  -- What the relay sends of a block under its hash.
  pub wire-Unforged :
      Decodes eth
      → Hashes eth
      → (d : Digest) (bytes : Bytes) → Names eth d bytes
      → Unforged eth (wire d bytes)
  wire-Unforged decodes hashes d bytes n =
      let size : IsB256 d.inner = rw n.named (hashes.sized n.block) in
      record {
        stands = λ long.
            subst (λ b. Stands eth (record { inner = take 32 (wire d bytes) }) b)
              (sym (drop-append_at 32 d.inner bytes size))
              (subst (λ h. Stands eth (record { inner = h }) bytes)
                (sym (take-append_at 32 d.inner bytes size)) (Names-Stands eth d bytes decodes n));
      }

  -- What the receiver stores of such a message.
  pub receive-Stands :
      (from : PublicKey) (m : Bytes) (blocks : Lock Blocks) (metrics : Option Metrics)
      → Unforged eth m
      → Everywhere (Stands eth) blocks.contents
      → Everywhere (Stands eth) (receive (message from m) blocks metrics).0.contents
  unfolding receive
  receive-Stands from m blocks metrics w h = elim (Bool-cases (ltb (length m) 32)) [
    | inl short ↦ rw short h
    | inr long ↦ rw long (elim (Bool-cases blocks.poisoned) [
      | inl p ↦ rw p h
      | inr p ↦ rw p (
          Everywhere-insert (Stands eth) blocks.contents (record { inner = take 32 m }) (drop 32 m)
            h (w.stands (ground arith)))
    ])
  ]

module _ {N : Type 0} (t : Transport N) where
  send_block-carried :
      (msg : Bytes) (checked : Result (List PublicKey) ℕ) (metrics : Option Metrics) (n : N)
      (m : Bytes)
      → Among m (t.carried (send_block t.sender msg checked metrics n).1)
      → (m ≡ msg) ⊎ Among m (t.carried n)
  unfolding send_block
  send_block-carried msg (err until) metrics n m there = inr there
  send_block-carried msg (ok checked) metrics n m there = t.send_adds checked msg false n m there

  -- What a broadcast adds to the transport is the wire form of a block of the node.
  pub relay_broadcast-carried :
      (d : Digest) (plan : Plan) (blocks : Lock Blocks) (metrics metrics' : Option Metrics)
      (n n' : N) (m : Bytes)
      → relay_broadcast t.sender d plan blocks metrics n ≡ some (metrics', n')
      → Among m (t.carried n')
      → ((bytes : Bytes) × (get blocks.contents d ≡ some bytes) × (m ≡ wire d bytes))
        ⊎ Among m (t.carried n)
  unfolding relay_broadcast
  relay_broadcast-carried d plan blocks metrics metrics' n n' m h there =
      elim (Bool-cases blocks.poisoned) [
        | inl p ↦ absurd (ground arith)
        | inr p ↦ elim (Option-cases (get blocks.contents d)) [
          | inl unknown ↦
              let same : n' ≡ n = ground arith in
              inr (subst (λ x. Among m (t.carried x)) same there)
          | inr (bytes, own) ↦
              let (checked, n1) = t.sender.check (plan_recipients plan) n in
              let same : n' ≡ (send_block t.sender (wire d bytes) checked metrics n1).1 =
                ground arith in
              elim (send_block-carried (wire d bytes) checked metrics n1 m
                (subst (λ x. Among m (t.carried x)) same there)) [
                  | inl it ↦ inl (bytes, own, it)
                  | inr old ↦ inr (t.check_keeps (plan_recipients plan) n m old)
                ]
        ]
      ]
