-- ===== src/Network/System/Memory.antt =====
-- What a node of a running network knows of blocks, now and later, and of the last finalized one.
use allegro.Prelude.{
  ℕ, ◌≡◌, ◌≢◌, refl, sym, ap, ◌∙◌, subst, some, ◌⊎◌, inl, inr, arith, Bool-cases, nat_eqb,
}
use allegro.Prelude.Dict.{get}
use allegro.Primitives.Digest.{Bytes, B256, Digest, empty_digest, digest_eq}
use allegro.Consensus.Application.{BlockInfo, BlockInfos}
use allegro.Consensus.Engine.{Commonware, EngineConfig}
use allegro.Node.Reth.{Engine, EthFormat, Decodes, Jobs, Hashes}
use allegro.Node.Builder.{Tracker, new_tracker}
use allegro.Node.Finalizer.Stepwise.{look_up-known, submit-cases}
use allegro.Network.System.{
  Transport, Node, Net, put, looking_up, settled, Step, take_message, answer, execute, relay,
  deliver, intrude, disturb, take_digest, track, Reach, here, next,
}
use allegro.Network.System.Wires.{Unforged}
use allegro.Network.System.Preserved.{NodeIsBound, NetIsBound, Reach-NetIsBound}
use allegro.Network.System.Stability.{
  Held, Describes-agree, begun-HeldAt, resumed-HeldAt, Step-Held,
}
use allegro.Network.System.Consistency.{Starts, Starts-NetIsBound}

-- The genesis block, or a block that is known under its hash.
pub data Tracked {B X : Type 0} (eth : EthFormat B X) (genesis_hash : B256) (infos : BlockInfos)
    (t : Tracker) : Type 0 where
  tracks_genesis : t ≡ new_tracker genesis_hash → Tracked eth genesis_hash infos t
  tracks_known :
      (block : B)
      → t ≡ (eth.header_hash block, eth.header_number block)
      → Held eth (record { inner = eth.header_hash block }) infos
      → Tracked eth genesis_hash infos t

Tracked-kept :
    {B X : Type 0} (eth : EthFormat B X) (genesis_hash : B256) (infos infos' : BlockInfos)
    (t : Tracker)
    → ((d : Digest) → Held eth d infos → Held eth d infos')
    → Tracked eth genesis_hash infos t
    → Tracked eth genesis_hash infos' t
Tracked-kept eth genesis_hash infos infos' t k (tracks_genesis e) = tracks_genesis e
Tracked-kept eth genesis_hash infos infos' t k (tracks_known block e h) =
    tracks_known block e (k _ h)

-- The tracker, and the block for which the finalizer waits.
pub record IsTracked {W B X : Type 0} (eth : EthFormat B X) (genesis_hash : B256) (n : Node W B)
    : Type 0 where
  pub tracks : Tracked eth genesis_hash n.actor.block_info.contents n.tracker
  pub final :
      (info : BlockInfo)
      → n.finalizing ≡ some info
      → Tracked eth genesis_hash n.actor.block_info.contents (info.hash, info.number)

module _ {W B X N : Type 0} (eth : EthFormat B X) (engine : Engine W B X) (t : Transport N)
    (jobs : Jobs eth engine) (genesis_hash : B256) (decodes : Decodes eth) (hashes : Hashes eth)
    (IsForeign : Bytes → Type 0) (unforged : (m : Bytes) → IsForeign m → Unforged eth m) where
  -- What others than the finalizer do.
  IsTracked-kept :
      (n n' : Node W B)
      → n'.tracker ≡ n.tracker
      → n'.finalizing ≡ n.finalizing
      → ((d : Digest)
          → Held eth d n.actor.block_info.contents
          → Held eth d n'.actor.block_info.contents)
      → IsTracked eth genesis_hash n
      → IsTracked eth genesis_hash n'
  IsTracked-kept n n' tracker finalizing k h = record {
    tracks = rw tracker (Tracked-kept eth genesis_hash _ _ n.tracker k h.tracks);
    final = λ info found.
        Tracked-kept eth genesis_hash _ _ (info.hash, info.number) k
          (h.final info (sym finalizing ∙ found));
  }

  looking_up-IsTracked :
      (d : Digest) (n : Node W B)
      → NodeIsBound eth engine jobs genesis_hash n
      → IsTracked eth genesis_hash n
      → IsTracked eth genesis_hash (looking_up eth engine d n)
  looking_up-IsTracked d n b h = record {
    tracks = h.tracks;
    final = λ info found.
        let known = look_up-known d n.actor.block_info info found in
        elim (b.actor.infos.at d info known) [
          | inl (empty, hash, number) ↦ tracks_genesis (ground (arith, hash, number))
          | inr e ↦ tracks_known e.block (ground (arith, e.hash_eq, e.number_eq)) (
              subst (λ h. Held eth (record { inner = h }) n.actor.block_info.contents) e.named
                (record { info = info; known = known; described = e }))
        ];
  }

  settled-IsTracked :
      (n : Node W B)
      → IsTracked eth genesis_hash n
      → IsTracked eth genesis_hash (settled eth engine n)
  settled-IsTracked n h = record {
    tracks = elim (submit-cases engine n.finalizing n.tracker n.world) [
      | inl same ↦ rw same h.tracks
      | inr (info, found, moved) ↦ rw moved (h.final info found)
    ];
    final = λ info found. cc;
  }

  put-IsTracked :
      (net : Net W B N) (i : ℕ) (n : Node W B)
      → ((j : ℕ) → IsTracked eth genesis_hash (net.nodes j))
      → IsTracked eth genesis_hash n
      → (j : ℕ) → IsTracked eth genesis_hash ((put net i n).nodes j)
  put-IsTracked net i n h k j = elim (Bool-cases (nat_eqb i j)) [
    | inl hit ↦ rw hit k
    | inr miss ↦ rw miss (h j)
  ]

  Step-IsTracked :
      {net net' : Net W B N}
      → Step eth engine t IsForeign jobs.GoesOn net net'
      → NetIsBound eth engine jobs genesis_hash t net
      → ((j : ℕ) → IsTracked eth genesis_hash (net.nodes j))
      → (j : ℕ) → IsTracked eth genesis_hash (net'.nodes j)
  Step-IsTracked {net} (take_message i clock msg free) b h = put-IsTracked net i _ h (
      IsTracked-kept (net.nodes i) _ refl refl
        (λ d. begun-HeldAt eth engine t jobs genesis_hash IsForeign d clock msg (net.nodes i))
        (h i))
  Step-IsTracked {net} (answer i) b h = put-IsTracked net i _ h (
      IsTracked-kept (net.nodes i) _ refl refl
        (λ d. resumed-HeldAt eth engine t jobs genesis_hash IsForeign d (net.nodes i) (b.nodes i))
        (h i))
  Step-IsTracked {net} (execute i w on) b h =
      put-IsTracked net i _ h (IsTracked-kept (net.nodes i) _ refl refl (λ d k. k) (h i))
  Step-IsTracked {net} (relay i e plan metrics n sent) b h =
      put-IsTracked net i _ h (IsTracked-kept (net.nodes i) _ refl refl (λ d k. k) (h i))
  Step-IsTracked {net} (deliver i from m there) b h =
      put-IsTracked net i _ h (IsTracked-kept (net.nodes i) _ refl refl (λ d k. k) (h i))
  Step-IsTracked {net} (intrude i from m it) b h =
      put-IsTracked net i _ h (IsTracked-kept (net.nodes i) _ refl refl (λ d k. k) (h i))
  Step-IsTracked {net} (disturb i) b h =
      put-IsTracked net i _ h (IsTracked-kept (net.nodes i) _ refl refl (λ d k. k) (h i))
  Step-IsTracked {net} (take_digest i d free) b h =
      put-IsTracked net i _ h (looking_up-IsTracked d (net.nodes i) (b.nodes i) (h i))
  Step-IsTracked {net} (track i) b h =
      put-IsTracked net i _ h (settled-IsTracked (net.nodes i) (h i))

  Reach-Held :
      (d : Digest) {net net' : Net W B N}
      → NetIsBound eth engine jobs genesis_hash t net
      → Reach eth engine t IsForeign jobs.GoesOn net net'
      → (i : ℕ) → Held eth d (net.nodes i).actor.block_info.contents
      → Held eth d (net'.nodes i).actor.block_info.contents
  Reach-Held d b here i h = h
  Reach-Held d b (next r st) i h =
      Step-Held eth engine t jobs genesis_hash IsForeign d st
        (Reach-NetIsBound eth engine t jobs genesis_hash decodes hashes IsForeign unforged b r) i
        (Reach-Held d b r i h)

  Reach-IsTracked :
      {net net' : Net W B N}
      → NetIsBound eth engine jobs genesis_hash t net
      → ((j : ℕ) → IsTracked eth genesis_hash (net.nodes j))
      → Reach eth engine t IsForeign jobs.GoesOn net net'
      → (j : ℕ) → IsTracked eth genesis_hash (net'.nodes j)
  Reach-IsTracked b h here = h
  Reach-IsTracked b h (next r st) =
      Step-IsTracked st
        (Reach-NetIsBound eth engine t jobs genesis_hash decodes hashes IsForeign unforged b r)
        (Reach-IsTracked b h r)

  module _ {K S C : Type 0} (cw : Commonware K S) (config : ℕ → EngineConfig K C) where
    -- In a network of any number of nodes that start on one genesis block and run this code, and of
    -- others that send any messages in which no block stands under a digest that is not its hash,
    -- whatever happens, also while a handler or a finalizer waits: a block that a node knows under
    -- a digest, other than the empty one, it knows at every later time, with the same hash, number,
    -- seconds and milliseconds. Payload jobs keep the seconds that they were started with, encoded
    -- blocks decode, hashes have 32 bytes, and blocks of one hash have one number and one time.
    pub known_stays :
        (start net net' : Net W B N)
        → Starts cw config t genesis_hash start
        → Reach eth engine t IsForeign jobs.GoesOn start net
        → Reach eth engine t IsForeign jobs.GoesOn net net'
        → (i : ℕ) (d : Digest) (p : BlockInfo) → d ≢ empty_digest
        → get (net.nodes i).actor.block_info.contents d ≡ some p
        → (q : BlockInfo) × (get (net'.nodes i).actor.block_info.contents d ≡ some q)
          × (q.hash ≡ p.hash)
          × (q.number ≡ p.number)
          × (q.timestamp ≡ p.timestamp)
          × (q.timestamp_millis ≡ p.timestamp_millis)
    known_stays start net net' s r later i d p real known =
        let b =
          Reach-NetIsBound eth engine t jobs genesis_hash decodes hashes IsForeign unforged
            (Starts-NetIsBound eth engine jobs t cw config genesis_hash start s) r in
        elim ((b.nodes i).actor.infos.at d p known) [
          | inl (empty, _, _) ↦ absurd (real empty)
          | inr e ↦
              let h = Reach-Held d b later i (record { info = p; known = known; described = e }) in
              let (hash, hash', number, seconds, millis) =
                Describes-agree eth hashes d p h.info e h.described in
              (h.info, h.known, hash' ∙ sym hash, sym number, sym seconds, sym millis)
        ]

    -- In a network of any number of nodes that start on one genesis block and run this code, and of
    -- others that send any messages in which no block stands under a digest that is not its hash,
    -- whatever happens, also while a handler or a finalizer waits: the last finalized block of a
    -- node is the genesis block, or one that the node knows, under the digest of its hash, with
    -- that hash and number. Payload jobs keep the seconds that they were started with, encoded
    -- blocks decode, hashes have 32 bytes, and blocks of one hash have one number and one time.
    pub tracker_known :
        (start net : Net W B N)
        → Starts cw config t genesis_hash start
        → Reach eth engine t IsForeign jobs.GoesOn start net
        → (i : ℕ)
        → let n = net.nodes i in
          (n.tracker ≡ (genesis_hash, 0))
          ⊎ ((info : BlockInfo) × (get n.actor.block_info.contents (record { inner = n.tracker.0 })
                ≡ some info)
              × (info.hash ≡ n.tracker.0)
              × (info.number ≡ n.tracker.1))
    tracker_known start net s r i =
        let n = net.nodes i in
        let b = Starts-NetIsBound eth engine jobs t cw config genesis_hash start s in
        let first : (j : ℕ) → IsTracked eth genesis_hash (start.nodes j) = λ j. record {
          tracks = tracks_genesis (s.trackers j);
          final = λ info found. let nothing = s.nothing_final j in cc;
        } in
        elim (Reach-IsTracked b first r i).tracks [
          | tracks_genesis e ↦ inl e
          | tracks_known block e h ↦
              let same = hashes.distinct h.described.block block (sym h.described.named) in
              inr (
                h.info,
                subst (λ x. get n.actor.block_info.contents (record { inner = x }) ≡ some h.info)
                    (sym (ap (λ x. x.0) e)) h.known,
                h.described.hash_eq ∙ sym h.described.named ∙ sym (ap (λ x. x.0) e),
                h.described.number_eq ∙ same.0 ∙ sym (ap (λ x. x.1) e),
              )
        ]
