-- ===== src/Network/Waiting/Finishing.antt =====
-- A handler ends, whatever happens between its waits.
use allegro.Prelude.{
  ℕ, zero, suc, ◌+◌, ◌-◌, ◌≤◌, ◌≡◌, refl, List, [], ◌∷◌, Option, none, some, Result, ok, err,
  length, map_err, arith, inl, inr, Bool-cases, Option-cases,
}
use Prim.Native.String.{String}
use Prim.Native.String
use allegro.Primitives.Digest.{Bytes, digest_eq, public_key_eq}
use allegro.Consensus.Validators.{set_lookup}
use allegro.Consensus.Application.{Actor, Message, propose, verify, broadcast, Verify, find_block}
use allegro.Node.Reth.{Engine, EthFormat}
use allegro.Node.Builder.{Tracker}
use allegro.Node.Builder.Stepwise.{
  asking, resolving, importing, finished, asked, resolved, start_build, build_step,
}
use allegro.Network.Waiting.{
  Busy, idle, proposing, verifying, begin, begin_verify, begin_found, begin_decoded, settle, resume,
}

-- The most answers that an actor can still wait for.
abbrev pub waits : {B : Type 0} → Busy B → ℕ
waits idle = 0
waits (proposing p request (asking fcs attrs n e)) = n + 2
waits (proposing p request (resolving id)) = 2
waits (proposing p request (importing block)) = 1
waits (proposing p request (finished r)) = 1
waits (verifying q block) = 1

waits-zero : {B : Type 0} (busy : Busy B) → waits busy ≡ 0 → busy ≡ idle
waits-zero idle e = refl
waits-zero (proposing p request (asking fcs attrs n x)) e = absurd (omega arith)
waits-zero (proposing p request (resolving id)) e = absurd (omega arith)
waits-zero (proposing p request (importing block)) e = absurd (omega arith)
waits-zero (proposing p request (finished r)) e = absurd (omega arith)
waits-zero (verifying q block) e = absurd (omega arith)

begin_found-waits :
    {B X : Type 0} (eth : EthFormat B X) (q : Verify) (found : Option Bytes) (s : Actor)
    → waits (begin_found eth q found s).0 ≤ 1
begin_found-waits eth q none s = omega arith
begin_found-waits {B} eth q (some bytes) s = go (eth.decode bytes)
  where
    go :
        (r : Result B String)
        → waits (begin_decoded eth q (map_err (String.◌++◌ "rlp decode: ") r) s).0 ≤ 1
    go (ok block) = omega arith
    go (err e) = omega arith

begin-waits :
    {B X : Type 0} (eth : EthFormat B X) (clock : Option ℕ) (msg : Message) (s : Actor)
    (tracker : Tracker)
    → waits (begin eth clock msg s tracker).0 ≤ 7
unfolding begin start_build
begin-waits eth clock (broadcast d) s tracker = omega arith
begin-waits eth clock (propose p) s tracker = elim (Bool-cases s.block_info.poisoned) [
  | inl poisoned ↦ simp poisoned (omega arith)
  | inr healthy ↦ simp healthy (omega arith)
]
begin-waits eth clock (verify q) s tracker =
    elim (Option-cases (set_lookup s.validators q.proposer)) [
      | inl unknown ↦ rw (unknown, begin, begin_verify) (omega arith)
      | inr (address, known) ↦
          rw (known, begin, begin_verify)
            (elim (Bool-cases s.pending_blocks.poisoned) [
              | inl poisoned ↦ simp poisoned (omega arith)
              | inr healthy ↦
                  simp healthy (omega (arith, begin_found-waits eth q (find_block q.payload s) s))
            ])
    ]

module _ {W B X : Type 0} (eth : EthFormat B X) (engine : Engine W B X) where
  resume-waits :
      (busy : Busy B) (s : Actor) (w : W) → waits (resume eth engine busy s w).0 ≤ waits busy - 1
  unfolding resume build_step
  resume-waits idle s w = omega arith
  resume-waits (verifying q block) s w = omega arith
  resume-waits (proposing p request (finished r)) s w = omega arith
  resume-waits (proposing p request (importing block)) s w = omega arith
  resume-waits (proposing p request (asking fcs attrs zero e)) s w = omega arith
  resume-waits (proposing p request (asking fcs attrs (suc n) e)) s w = go n _ _
    where
      go :
          (n : ℕ) (v : W) (r : Result ℕ String)
          → waits (settle eth engine p request (asked fcs attrs n r) s v).0 ≤ (suc n + 2) - 1
      go n v (ok id) = omega arith
      go zero v (err x) = omega arith
      go (suc n) v (err x) = omega arith
  resume-waits (proposing p request (resolving id)) s w = go _ _
    where
      go :
          (v : W) (r : Result B String) → waits (settle eth engine p request (resolved r) s v).0 ≤ 1
      go v (ok block) = omega arith
      go v (err x) = omega arith

  -- Some answers; at each, the stores and the execution layer are whatever others made of them.
  unfoldable pub interfered : List (Actor × W) → Busy B → Busy B
  unfolding resume
  interfered [] busy = busy
  interfered ((s, w) ∷ states) busy = interfered states (resume eth engine busy s w).0

  interfered-waits :
      (states : List (Actor × W)) (busy : Busy B)
      → waits (interfered states busy) ≤ waits busy - length states
  unfolding interfered
  interfered-waits [] busy = omega arith
  interfered-waits ((s, w) ∷ states) busy =
      omega (arith, interfered-waits states (resume eth engine busy s w).0, resume-waits busy s w)

  -- Every handler ends: from any message that the actor takes, with any clock reading, stores and
  -- tracker, it is idle after 7 answers at most, whatever the answers are and whatever others made
  -- of the stores and the execution layer before each of them.
  pub begin-finishes :
      (clock : Option ℕ) (msg : Message) (s : Actor) (tracker : Tracker) (states : List (Actor × W))
      → 7 ≤ length states
      → interfered states (begin eth clock msg s tracker).0 ≡ idle
  begin-finishes clock msg s tracker states enough = waits-zero _ (
      omega (
        arith,
        interfered-waits states (begin eth clock msg s tracker).0,
        begin-waits eth clock msg s tracker,
      ))
