-- ===== src/Examples/Fixtures.antt =====
-- Instances of the interfaces: a channel, buffers, RLP, and a small execution layer.
use allegro.Prelude.{
  ℕ, zero, suc, ◌+◌, ◌*◌, ◌/◌, ◌%◌, ◌≤◌, ◌<◌, ◌≡◌, refl, ap, ◌∙◌, subst, Bool, true, false, List,
  [], ◌∷◌, ◌++◌, Option, none, some, Result, ok, err, length, take, drop, replicate, arith, ltb,
  leb, if◌then◌else◌, take-append_at, drop-append_at, length-append, inl, inr, Bool-cases,
}
use Prim.Native.String.{String}
use allegro.Primitives.Digest.{Bytes}
use allegro.Primitives.Header.{Rlp, RlpLaws, RlpError, RlpHeader, malformed}
use allegro.Consensus.Block.{Buf, BufMut}
use allegro.Consensus.Channel.{Channel, SendError, full, closed}
use allegro.Consensus.Executor.{PayloadAttributes}
use allegro.Consensus.Relay.{Sender}
use allegro.Node.Reth.{
  Engine, EthFormat, Decodes, Honours, Jobs, Jobs-Honours, Hashes, valid, ForkchoiceUpdated,
}

-- A channel: its queue, whether the receiver is there, and its capacity.
pub record Queue (A : Type 0) : Type 0 where
  pub items : List A
  pub live : Bool
  pub limit : ℕ

abbrev pub push : {A : Type 0} → A → Queue A → Queue A
push a q = record q { items = q.items ++ a ∷ [] }

abbrev pub offer : {A : Type 0} → A → Queue A → Result (Unit {0}) SendError × Queue A
offer a q =
    if q.live
    then (if ltb (length q.items) q.limit then (ok tt, push a q) else (err full, q))
    else (err closed, q)

abbrev pub send_waiting : {A : Type 0} → A → Queue A → Bool × Queue A
send_waiting a q = if q.live then (true, push a q) else (false, q)

abbrev pub pop : {A : Type 0} → List A → Queue A → Option A × Queue A
pop [] q = (none, q)
pop (a ∷ rest) q = (some a, record q { items = rest })

module _ {A : Type 0} where
  pub offer-ok :
      (a : A) (q : Queue A)
      → q.live ≡ true
      → length q.items < q.limit
      → ((offer a q).0 ≡ ok tt) × ((offer a q).1.items ≡ q.items ++ a ∷ [])
  offer-ok a q live room = ground arith

  pub offer-full :
      (a : A) (q : Queue A)
      → q.live ≡ true
      → q.limit ≤ length q.items
      → ((offer a q).0 ≡ err full) × ((offer a q).1.items ≡ q.items)
  offer-full a q live none_left = ground arith

  pub offer-closed :
      (a : A) (q : Queue A)
      → q.live ≡ false
      → ((offer a q).0 ≡ err closed) × ((offer a q).1.items ≡ q.items)
  offer-closed a q shut = ground arith

  pub offer-keeps :
      (a : A) (q : Queue A) → ((offer a q).1.live ≡ q.live) × ((offer a q).1.limit ≡ q.limit)
  offer-keeps a q = ground arith

  pub pop-items :
      (items : List A) (q : Queue A) (a : A) (rest : List A)
      → items ≡ a ∷ rest
      → ((pop items q).0 ≡ some a) × ((pop items q).1.items ≡ rest)
  pop-items [] q a rest e = absurd (ground arith)
  pop-items (b ∷ items) q a rest e = ground arith

  pub send_room :
      (a : A) (q : Queue A)
      → q.live ≡ true
      → ((send_waiting a q).0 ≡ true) × ((send_waiting a q).1.items ≡ q.items ++ a ∷ [])
  send_room a q live = ground arith

abbrev pub queue_channel : (A : Type 0) → Channel A (Queue A)
queue_channel A = record {
  try_send = offer;
  next = λ q. pop q.items q;
  queued = λ q. q.items;
  is_open = λ q. q.live;
  capacity = λ q. q.limit;
  send = send_waiting;
  send-ok = offer-ok;
  send-full = offer-full;
  send-closed = offer-closed;
  send-keeps = offer-keeps;
  send-room = λ a q live room. send_room a q live;
  next-queued = λ q a rest e. pop-items q.items q a rest e;
}

-- A transport that takes every message.
abbrev pub open_sender : Sender (List Bytes)
open_sender = record {
  check = λ recipients sent. (ok [], sent);
  send = λ recipients msg priority sent. (true, sent ++ msg ∷ []);
}

-- Buffers over a byte string.
abbrev pub slice_buf : Buf Bytes
slice_buf = record {
  remaining = λ b. length b;
  copy_to_slice = λ n b. (take n b, drop n b);
  contents = λ b. b;
  remaining-length = λ b. refl;
  copy-take = λ n b fits. refl;
  copy-drop = λ n b fits. refl;
}

abbrev pub slice_buf_mut : BufMut Bytes
slice_buf_mut = record { put_slice = λ bs b. b ++ bs; written = λ b. b; written-put = λ bs b. refl }

-- A block of the small execution layer.
pub record TestBlock : Type 0 where
  pub seconds : ℕ
  pub height : ℕ

abbrev pub decode_block : Bytes → Result TestBlock String
decode_block (s ∷ h ∷ []) = ok (record { seconds = s; height = h })
decode_block _ = err "no block"

abbrev pub eth : EthFormat TestBlock TestBlock
eth = record {
  block_to_payload = λ b. b;
  header_hash = λ b. b.seconds ∷ replicate 31 (b.height + 1);
  header_number = λ b. b.height;
  header_timestamp = λ b. b.seconds;
  encode = λ b. b.seconds ∷ b.height ∷ [];
  decode = decode_block;
  debug_status = λ status. "Status";
}

abbrev pub eth-Decodes : Decodes eth
eth-Decodes = record { decode-encode = λ b. refl }

eth_distinct :
    (b c : TestBlock)
    → b.seconds ∷ replicate 31 (b.height + 1) ≡ c.seconds ∷ replicate 31 (c.height + 1)
    → (b.height ≡ c.height) × (b.seconds ≡ c.seconds)
eth_distinct b c e = ground arith

pub eth-Hashes : Hashes eth
eth-Hashes = record { sized = λ b. refl; distinct = eth_distinct }

-- It answers a number of forkchoice updates with attributes without a payload id, and then gives one.
abbrev pub updated : Option PayloadAttributes → ℕ → Result ForkchoiceUpdated String × ℕ
updated none w = (ok (record { payload_status = valid; payload_id = none }), w)
updated (some attrs) zero =
    (ok (record { payload_status = valid; payload_id = some attrs.timestamp }), zero)
updated (some attrs) (suc w) = (ok (record { payload_status = valid; payload_id = none }), w)

abbrev pub engine : Engine ℕ TestBlock TestBlock
engine = record {
  fork_choice_updated = λ state attrs w. updated attrs w;
  new_payload = λ x w. (ok valid, w);
  resolve_kind = λ id w. (some (ok (record { seconds = id; height = 1 })), w);
}

started :
    (attrs : PayloadAttributes) (w : ℕ) (fcu : ForkchoiceUpdated) (id : ℕ)
    → (updated (some attrs) w).0 ≡ ok fcu
    → fcu.payload_id ≡ some id
    → id ≡ attrs.timestamp
started attrs zero fcu id answered given = ground arith
started attrs (suc w) fcu id answered given = absurd (ground arith)

-- A payload id is its seconds.
pub engine-Jobs : Jobs eth engine
engine-Jobs = record {
  Started = λ w id seconds. id ≡ seconds;
  GoesOn = λ w w'. Unit {0};
  starts = λ state attrs w fcu id answered given. started attrs w fcu id answered given;
  resolves = λ w id seconds block h resolved. ground arith;
  kept_update = λ state attrs w id seconds h. h;
  kept_alone = λ w w' id seconds on h. h;
}

pub engine-Honours : Honours eth engine
engine-Honours = Jobs-Honours eth engine engine-Jobs

-- RLP with one number for each integer.
abbrev pub decode_number : Bytes → Result (ℕ × Bytes) RlpError
decode_number [] = err malformed
decode_number (n ∷ rest) = ok (n, rest)

abbrev pub decode_array32 : Bytes → Result (Bytes × Bytes) RlpError
decode_array32 [] = err malformed
decode_array32 (n ∷ rest) =
    if leb 32 (length rest) then ok (take 32 rest, drop 32 rest) else err malformed

abbrev pub list_tag : Bool → ℕ
list_tag true = 1
list_tag false = 0

abbrev pub encode_test_header : RlpHeader → Bytes
encode_test_header h =
    if leb h.payload_length 55
    then ((h.payload_length + 1) * 2 + list_tag h.list) ∷ []
    else (list_tag h.list) ∷ h.payload_length ∷ []

abbrev pub long_header : Bool → Bytes → Result (RlpHeader × Bytes) RlpError
long_header list [] = err malformed
long_header list (n ∷ rest) = ok (record { list = list; payload_length = n }, rest)

abbrev pub decode_test_header : Bytes → Result (RlpHeader × Bytes) RlpError
decode_test_header [] = err malformed
decode_test_header (zero ∷ rest) = long_header false rest
decode_test_header (suc zero ∷ rest) = long_header true rest
decode_test_header (suc (suc n) ∷ rest) =
    ok (record { list = if leb (n % 2) 0 then false else true; payload_length = n / 2 }, rest)

abbrev pub rlp : Rlp
rlp = record {
  encode_u64 = λ n. n ∷ [];
  decode_u64 = decode_number;
  encode_array = λ b. 160 ∷ b;
  decode_array = decode_array32;
  encode_slice = λ b. 160 ∷ b;
  encode_header = encode_test_header;
  decode_header = decode_test_header;
}

decode_array32-encode :
    (b rest : Bytes) → length b ≡ 32 → decode_array32 (160 ∷ (b ++ rest)) ≡ ok (b, rest)
decode_array32-encode b rest size =
    ground
      (arith, length-append b rest, take-append_at 32 b rest size, drop-append_at 32 b rest size)

short_header :
    (k m : ℕ) (rest : Bytes)
    → suc (suc k) ≡ m
    → decode_test_header (m ∷ rest)
      ≡ ok (record { list = if leb (k % 2) 0 then false else true; payload_length = k / 2 }, rest)
short_header k m rest e =
    subst
      (λ x.
        decode_test_header (x ∷ rest)
        ≡ ok
            (record { list = if leb (k % 2) 0 then false else true; payload_length = k / 2 }, rest))
      e refl

short_header_fields :
    (list : Bool) (n : ℕ)
    → let k = n * 2 + list_tag list in
      ((if leb (k % 2) 0 then false else true) ≡ list) × (k / 2 ≡ n)
short_header_fields true n = (ground arith, omega arith)
short_header_fields false n = (ground arith, omega arith)

decode_test_header-encode :
    (list : Bool) (n : ℕ) (rest : Bytes)
    → decode_test_header (encode_test_header (record { list = list; payload_length = n }) ++ rest)
      ≡ ok (record { list = list; payload_length = n }, rest)
decode_test_header-encode list n rest = elim (Bool-cases (leb n 55)) [
  | inl short ↦
      let (kind, size) = short_header_fields list n in
      rw (encode_test_header, short)
        (short_header (n * 2 + list_tag list) ((n + 1) * 2 + list_tag list) rest (omega arith)
          ∙ ap (λ x. ok (x, rest)) (ground (arith, kind, size)))
  | inr long ↦ rw (encode_test_header, long) (long_tag list)
]
  where
    long_tag :
        (list : Bool)
        → decode_test_header (list_tag list ∷ n ∷ rest)
          ≡ ok (record { list = list; payload_length = n }, rest)
    long_tag true = refl
    long_tag false = refl

pub rlp-RlpLaws : RlpLaws rlp
rlp-RlpLaws = record {
  u64_decodes = λ n rest fits. refl;
  array_decodes = decode_array32-encode;
  header_decodes = λ h rest fits. decode_test_header-encode h.list h.payload_length rest;
  slice_as_array = λ b size. refl;
  u64_size = λ n fits. omega arith;
  array_size = λ b size. omega (arith, size);
  header_size = λ h small. ground arith;
}
