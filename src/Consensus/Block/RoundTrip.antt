-- ===== src/Consensus/Block/RoundTrip.antt =====
-- Reading and writing blocks are inverse to one another, and `encode_size` is the size.
use allegro.Prelude.{
  ◌≤◌, ◌<◌, ◌≡◌, ok, err, length, take, drop, ltb, ◌++◌, [], length-append, take-append_at,
  drop-append_at, ◌⊎◌, take-append-drop, length-take, take-length, drop-length, arith, Bool-cases,
  inl, inr,
}
use allegro.Primitives.Digest.{IsB256}
use allegro.Consensus.Block.{Block, Buf, BufMut, buffer_too_short, write, read_cfg, encode_size}

module _ {B : Type 0} (r : Buf B) where
  -- The two branches of `read_cfg`, by the bytes that are left.
  read_cfg_short :
      (buf : B) → length (r.contents buf) < 32 → read_cfg r buf ≡ (err buffer_too_short, buf)
  unfolding read_cfg
  read_cfg_short buf h = ground (arith, r.remaining-length buf)

  read_cfg_long :
      (buf : B)
      → 32 ≤ length (r.contents buf)
      → ((read_cfg r buf).0
          ≡ ok (record { inner = drop 32 (r.contents buf); hash = take 32 (r.contents buf) }))
        × (r.contents (read_cfg r buf).1 ≡ [])
  unfolding read_cfg
  read_cfg_long buf h =
      let buf1 = (r.copy_to_slice 32 buf).1 in
      let n = r.remaining buf1 in
      ground (
        arith,
        r.remaining-length buf,
        r.copy-take 32 buf h,
        r.copy-drop 32 buf h,
        r.remaining-length buf1,
        r.copy-take n buf1,
        r.copy-drop n buf1,
        take-length (r.contents buf1),
        drop-length (r.contents buf1),
      )

  -- A block with a 32-byte hash that was written into an empty buffer is read back from those
  -- bytes, nothing is left, and there are as many as the announced size.
  pub read_cfg-write :
      {M : Type 0} (m : BufMut M) (start : M) (buf : B) (b : Block)
      → IsB256 b.hash
      → m.written start ≡ []
      → r.contents buf ≡ m.written (write m b start)
      → ((read_cfg r buf).0 ≡ ok b)
        × (r.contents (read_cfg r buf).1 ≡ [])
        × (length (r.contents buf) ≡ encode_size b)
  unfolding write encode_size
  read_cfg-write m start buf b size fresh same = ground (
    arith,
    bytes,
    read_cfg_long buf,
    length-append b.hash b.inner,
    take-append_at 32 b.hash b.inner,
    drop-append_at 32 b.hash b.inner,
  )
    where
      bytes : r.contents buf ≡ b.hash ++ b.inner
      bytes = rw (
        same,
        m.written-put b.inner (m.put_slice b.hash start),
        m.written-put b.hash start,
        fresh,
      )

  -- Bytes that are read as a block are fewer than 32, which is an error that leaves them, or they
  -- give a block with a 32-byte hash that is written, into an empty buffer, as those bytes.
  pub write-read_cfg :
      {M : Type 0} (m : BufMut M) (start : M) (buf : B)
      → m.written start ≡ []
      → ((length (r.contents buf) < 32) × (read_cfg r buf ≡ (err buffer_too_short, buf)))
        ⊎ ((b : Block) × ((read_cfg r buf).0 ≡ ok b)
            × IsB256 b.hash
            × (m.written (write m b start) ≡ r.contents buf))
  unfolding write
  write-read_cfg m start buf fresh = elim (Bool-cases (ltb (length (r.contents buf)) 32)) [
    | inl short ↦ inl (ground arith, read_cfg_short buf (ground arith))
    | inr long ↦ inr (
      record { inner = drop 32 (r.contents buf); hash = take 32 (r.contents buf) },
      (read_cfg_long buf (ground arith)).0,
      length-take 32 (r.contents buf) (ground arith),
      rw
          (
            m.written-put (drop 32 (r.contents buf)) (m.put_slice (take 32 (r.contents buf)) start),
            m.written-put (take 32 (r.contents buf)) start,
            fresh,
          )
          (take-append-drop 32 (r.contents buf)),
    )
  ]
