-- ===== src/Node/Chainspec/Loading.antt =====
-- Which entries are loaded, and which error is given.
use allegro.Prelude.{
  ◌≡◌, refl, ap, List, [], ◌∷◌, ◌++◌, none, some, Result, ok, err, and_then, inl, inr, Option-cases,
}
use Prim.Native.String.{String}
use allegro.Primitives.Digest.{Bytes, PublicKey}
use allegro.Consensus.Validators.{SocketAddr, ValidatorEntry}
use allegro.Node.Chainspec.{
  TextForms, ValidatorFileEntry, LoadError, invalid_hex, invalid_public_key, invalid_ingress,
  invalid_egress, parse_entry, parse_entries,
}

module _ (text : TextForms) where
  -- An entry in hex, with a key and two addresses, of which the egress keeps the IP address only.
  pub record IsRead (e : ValidatorFileEntry) (v : ValidatorEntry) : Type 0 where
    pub bytes : Bytes
    pub hex : text.hex_decode e.public_key ≡ some bytes
    pub key : text.decode_key bytes ≡ ok v.public_key
    pub ingress : text.parse_socket e.ingress ≡ some v.ingress
    pub egress_addr : SocketAddr
    pub egress : text.parse_socket e.egress ≡ some egress_addr
    pub egress_ip : v.egress ≡ egress_addr.ip

  -- What is wrong with an entry: the first of its fields that does not parse.
  pub data IsBad (e : ValidatorFileEntry) : LoadError → Type 0 where
    bad_hex : text.hex_decode e.public_key ≡ none → IsBad e (invalid_hex e.index e.public_key)
    bad_key :
        (bytes : Bytes) (cause : String)
        → text.hex_decode e.public_key ≡ some bytes
        → text.decode_key bytes ≡ err cause
        → IsBad e (invalid_public_key e.index cause)
    bad_ingress :
        (bytes : Bytes) (key : PublicKey)
        → text.hex_decode e.public_key ≡ some bytes
        → text.decode_key bytes ≡ ok key
        → text.parse_socket e.ingress ≡ none
        → IsBad e (invalid_ingress e.index e.ingress)
    bad_egress :
        (bytes : Bytes) (key : PublicKey) (ingress : SocketAddr)
        → text.hex_decode e.public_key ≡ some bytes
        → text.decode_key bytes ≡ ok key
        → text.parse_socket e.ingress ≡ some ingress
        → text.parse_socket e.egress ≡ none
        → IsBad e (invalid_egress e.index e.egress)

  -- The entries parse, one by one.
  pub data Parses : List ValidatorFileEntry → List ValidatorEntry → Type 0 where
    none_left : Parses [] []
    one_more :
        {e : ValidatorFileEntry} {es : List ValidatorFileEntry} {v : ValidatorEntry}
        {vs : List ValidatorEntry}
        → IsRead e v
        → Parses es vs
        → Parses (e ∷ es) (v ∷ vs)

  -- The first entry that does not parse, after some that do.
  pub record FirstBad (es : List ValidatorFileEntry) (problem : LoadError) : Type 0 where
    pub before : List ValidatorFileEntry
    pub parsed : List ValidatorEntry
    pub bad : ValidatorFileEntry
    pub after : List ValidatorFileEntry
    pub split : es ≡ before ++ bad ∷ after
    pub good : Parses before parsed
    pub why : IsBad bad problem

  -- The outcome of the loop, on every path.
  pub data Loads (es : List ValidatorFileEntry)
      : Result (List ValidatorEntry) LoadError → Type 0 where
    loaded : {vs : List ValidatorEntry} → Parses es vs → Loads es (ok vs)
    stopped : {problem : LoadError} → FirstBad es problem → Loads es (err problem)

  -- What one entry comes to.
  data Reads (e : ValidatorFileEntry) : Result ValidatorEntry LoadError → Type 0 where
    good : {v : ValidatorEntry} → IsRead e v → Reads e (ok v)
    bad : {problem : LoadError} → IsBad e problem → Reads e (err problem)

  egress-Reads :
      (e : ValidatorFileEntry) (bytes : Bytes) (key : PublicKey) (ingress : SocketAddr)
      → text.hex_decode e.public_key ≡ some bytes
      → text.decode_key bytes ≡ ok key
      → text.parse_socket e.ingress ≡ some ingress
      → Reads e (parse_entry text e)
  unfolding parse_entry
  egress-Reads e bytes key ingress h k i = elim (Option-cases (text.parse_socket e.egress)) [
    | inl missing ↦
        rw (parse_entry, h, k, i, missing) (bad (bad_egress bytes key ingress h k i missing))
    | inr (addr, there) ↦
        rw (parse_entry, h, k, i, there)
          (good (record {
            bytes = bytes;
            hex = h;
            key = k;
            ingress = i;
            egress_addr = addr;
            egress = there;
            egress_ip = refl;
          }))
  ]

  ingress-Reads :
      (e : ValidatorFileEntry) (bytes : Bytes) (key : PublicKey)
      → text.hex_decode e.public_key ≡ some bytes
      → text.decode_key bytes ≡ ok key
      → Reads e (parse_entry text e)
  unfolding parse_entry
  ingress-Reads e bytes key h k = elim (Option-cases (text.parse_socket e.ingress)) [
    | inl missing ↦ rw (parse_entry, h, k, missing) (bad (bad_ingress bytes key h k missing))
    | inr (ingress, there) ↦ egress-Reads e bytes key ingress h k there
  ]

  key-Reads :
      (e : ValidatorFileEntry) (bytes : Bytes) (r : Result PublicKey String)
      → text.hex_decode e.public_key ≡ some bytes
      → text.decode_key bytes ≡ r
      → Reads e (parse_entry text e)
  unfolding parse_entry
  key-Reads e bytes (ok key) h k = ingress-Reads e bytes key h k
  key-Reads e bytes (err cause) h k = rw (parse_entry, h, k) (bad (bad_key bytes cause h k))

  parse_entry-Reads : (e : ValidatorFileEntry) → Reads e (parse_entry text e)
  unfolding parse_entry
  parse_entry-Reads e = elim (Option-cases (text.hex_decode e.public_key)) [
    | inl missing ↦ rw (parse_entry, missing) (bad (bad_hex missing))
    | inr (bytes, there) ↦ key-Reads e bytes (text.decode_key bytes) there refl
  ]

  extend :
      (e : ValidatorFileEntry) (es : List ValidatorFileEntry) (v : ValidatorEntry)
      (r : Result (List ValidatorEntry) LoadError)
      → IsRead e v
      → Loads es r
      → Loads (e ∷ es) (and_then r λ parsed. ok (v ∷ parsed))
  extend e es v r h (loaded p) = loaded (one_more h p)
  extend e es v r h (stopped f) = stopped (record {
    before = e ∷ f.before;
    parsed = v ∷ f.parsed;
    bad = f.bad;
    after = f.after;
    split = ap (◌∷◌ e) f.split;
    good = one_more h f.good;
    why = f.why;
  })

  join-Loads :
      (e : ValidatorFileEntry) (es : List ValidatorFileEntry) (r : Result ValidatorEntry LoadError)
      (rest : Result (List ValidatorEntry) LoadError)
      → Reads e r
      → Loads es rest
      → Loads (e ∷ es) (and_then r λ v. and_then rest λ vs. ok (v ∷ vs))
  join-Loads e es (ok v) rest (good h) l = extend e es v rest h l
  join-Loads e es (err problem) rest (bad why) l = stopped (record {
    before = [];
    parsed = [];
    bad = e;
    after = es;
    split = refl;
    good = none_left;
    why = why;
  })

  -- The loop over the validators of a genesis file returns all entries, each with the key that the
  -- bytes of its hex text decode to, its parsed ingress address and the IP address of its parsed
  -- egress address; or, for the first entry that is bad, all before it having been read, the error
  -- of the first of its hex text, key, ingress and egress that does not parse, with the entry's
  -- index.
  pub parse_entries-Loads : (es : List ValidatorFileEntry) → Loads es (parse_entries text es)
  unfolding parse_entries
  parse_entries-Loads [] = loaded none_left
  parse_entries-Loads (e ∷ es) =
      join-Loads e es (parse_entry text e) (parse_entries text es) (parse_entry-Reads e)
        (parse_entries-Loads es)
