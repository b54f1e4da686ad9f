-- ===== src/Network/System/Stability.antt =====
-- What a node knows stays, and its tracker is at a block that it knows.
use allegro.Prelude.{
  ℕ, Option, ◌≡◌, sym, ◌∙◌, subst, some, ok, inl, inr, arith, Bool-cases, nat_eqb, nat_eqb_iff,
}
use allegro.Prelude.Dict.{get, insert, get-insert}
use allegro.Primitives.Digest.{Bytes, B256, Digest, digest_eq}
use allegro.Consensus.Executor.{BuiltPayload, BuildPayloadRequest}
use allegro.Consensus.Application.{
  Actor, BlockInfo, BlockInfos, Message, Propose, proposed_info, verified_info, built_digest,
  after_build,
}
use allegro.Consensus.Application.Running.{write_guard-keeps}
use allegro.Node.Reth.{Engine, EthFormat, Jobs, Hashes}
use allegro.Node.Builder.{meta_of}
use allegro.Node.Builder.Agreement.{Builds}
use allegro.Network.Waiting.Work.{IsWhole}
use allegro.Network.Waiting.Keeps.{IsKept, begin-SameStores, resume-keeps}
use allegro.Network.System.{
  Transport, Node, Net, put, begun, resumed, Step, take_message, answer, execute, relay, deliver,
  intrude, disturb, take_digest, track,
}
use allegro.Network.System.Binding.{
  Describes, AnyRequest, NamedBy, proposed-Describes, verified-Describes,
}
use allegro.Network.System.Preserved.{NodeIsBound, NetIsBound}

-- A block is known under a digest, which is its hash.
pub record Held {B X : Type 0} (eth : EthFormat B X) (d : Digest) (infos : BlockInfos)
    : Type 0 where
  pub info : BlockInfo
  pub known : get infos d ≡ some info
  pub described : Describes eth d info

-- Records of one digest are alike.
pub Describes-agree :
    {B X : Type 0} (eth : EthFormat B X) (hashes : Hashes eth) (d : Digest) (p q : BlockInfo)
    → Describes eth d p
    → Describes eth d q
    → (p.hash ≡ d.inner)
      × (q.hash ≡ d.inner)
      × (p.number ≡ q.number)
      × (p.timestamp ≡ q.timestamp)
      × (p.timestamp_millis ≡ q.timestamp_millis)
Describes-agree eth hashes d p q a b =
    let same = hashes.distinct a.block b.block (sym a.named ∙ b.named) in
    (
      a.hash_eq ∙ sym a.named,
      b.hash_eq ∙ sym b.named,
      ground (arith, same, a.number_eq, b.number_eq),
      ground (arith, same, a.timestamp_eq, b.timestamp_eq),
      ground (arith, same, a.millis_eq, b.millis_eq),
    )

Held-insert :
    {B X : Type 0} (eth : EthFormat B X) (d e : Digest) (info : BlockInfo) (infos : BlockInfos)
    → Describes eth e info
    → Held eth d infos
    → Held eth d (insert infos e info)
Held-insert eth d e info infos new h = elim (Bool-cases (digest_eq.same_key e d)) [
  | inl hit ↦ record {
    info = info;
    known = ground (arith, get-insert infos e d info);
    described = subst (λ x. Describes eth x info) ((digest_eq.same_iff e d).0 hit) new;
  }
  | inr miss ↦ record {
    info = h.info;
    known = ground (arith, get-insert infos e d info, h.known);
    described = h.described;
  }
]

module _ {W B X : Type 0} (eth : EthFormat B X) (engine : Engine W B X) (jobs : Jobs eth engine)
    (d : Digest) where
  abbrev HeldBy : Actor → Type 0
  HeldBy s = Held eth d s.block_info.contents

  after_build-HeldBy :
      (p : Propose) (request : BuildPayloadRequest) (payload : BuiltPayload) (s : Actor)
      → IsWhole request
      → Builds eth request payload
      → HeldBy s
      → HeldBy (after_build p request (ok payload) s).1
  unfolding after_build
  after_build-HeldBy p request payload s whole b h =
      write_guard-keeps (Held eth d)
        (λ infos. insert infos (built_digest payload) (proposed_info p request payload))
        s.block_info
        (Held-insert eth d (built_digest payload) (proposed_info p request payload)
          s.block_info.contents (proposed-Describes eth p request payload b))
        h

  pub HeldBy-IsKept : IsKept eth engine jobs AnyRequest (NamedBy eth) HeldBy
  HeldBy-IsKept = record {
    same = λ s s' k h. rw k.same_info h;
    built = after_build-HeldBy;
    judged = λ q block s named timed h.
        write_guard-keeps (Held eth d)
          (λ infos. insert infos q.payload (verified_info q (meta_of eth block))) s.block_info
          (Held-insert eth d q.payload (verified_info q (meta_of eth block)) s.block_info.contents
            (verified-Describes eth q block named))
          h;
  }

module _ {W B X N : Type 0} (eth : EthFormat B X) (engine : Engine W B X) (t : Transport N)
    (jobs : Jobs eth engine) (genesis_hash : B256) (IsForeign : Bytes → Type 0) where
  put-Held :
      (d : Digest) (net : Net W B N) (i : ℕ) (n : Node W B)
      → (Held eth d (net.nodes i).actor.block_info.contents
          → Held eth d n.actor.block_info.contents)
      → (j : ℕ) → Held eth d (net.nodes j).actor.block_info.contents
      → Held eth d ((put net i n).nodes j).actor.block_info.contents
  put-Held d net i n k j h = elim (Bool-cases (nat_eqb i j)) [
    | inl hit ↦ rw hit (
        k (
          subst (λ x. Held eth d (net.nodes x).actor.block_info.contents)
            (sym ((nat_eqb_iff i j).0 hit)) h))
    | inr miss ↦ rw miss h
  ]

  abbrev pub HeldAt : Digest → Node W B → Type 0
  HeldAt d n = Held eth d n.actor.block_info.contents

  pub begun-HeldAt :
      (d : Digest) (clock : Option ℕ) (msg : Message) (n : Node W B)
      → HeldAt d n
      → HeldAt d (begun eth engine clock msg n)
  begun-HeldAt d clock msg n =
      (HeldBy-IsKept eth engine jobs d).same n.actor _
        (begin-SameStores eth clock msg n.actor n.tracker)

  pub resumed-HeldAt :
      (d : Digest) (n : Node W B)
      → NodeIsBound eth engine jobs genesis_hash n
      → HeldAt d n
      → HeldAt d (resumed eth engine n)
  resumed-HeldAt d n h k =
      (resume-keeps eth engine jobs AnyRequest (NamedBy eth) (HeldBy eth engine jobs d)
        (HeldBy-IsKept eth engine jobs d) n.busy n.actor n.world h.work k).0

  -- What a node knows stays known.
  pub Step-Held :
      (d : Digest) {net net' : Net W B N}
      → Step eth engine t IsForeign jobs.GoesOn net net'
      → NetIsBound eth engine jobs genesis_hash t net
      → (j : ℕ) → Held eth d (net.nodes j).actor.block_info.contents
      → Held eth d (net'.nodes j).actor.block_info.contents
  Step-Held d {net} (take_message i clock msg free) h =
      put-Held d net i _ (begun-HeldAt d clock msg (net.nodes i))
  Step-Held d {net} (answer i) h = put-Held d net i _ (resumed-HeldAt d (net.nodes i) (h.nodes i))
  Step-Held d {net} (execute i w on) h = put-Held d net i _ (λ k. k)
  Step-Held d {net} (relay i e plan metrics n sent) h = put-Held d net i _ (λ k. k)
  Step-Held d {net} (deliver i from m there) h = put-Held d net i _ (λ k. k)
  Step-Held d {net} (intrude i from m it) h = put-Held d net i _ (λ k. k)
  Step-Held d {net} (disturb i) h = put-Held d net i _ (λ k. k)
  Step-Held d {net} (take_digest i e free) h = put-Held d net i _ (λ k. k)
  Step-Held d {net} (track i) h = put-Held d net i _ (λ k. k)
