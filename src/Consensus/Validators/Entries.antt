-- ===== src/Consensus/Validators/Entries.antt =====
-- The validator set that a list of entries makes.
use allegro.Prelude.{
  ℕ, suc, ◌≡◌, refl, false, List, [], ◌∷◌, Option, none, some, arith, ◌==◌, if◌then◌else◌, inl, inr,
  Bool-cases, subst,
}
use allegro.Prelude.Dict.{get, insert, keys, get-insert}
use allegro.Primitives.Digest.{PublicKey, public_key_eq, public_key_eqb_iff}
use allegro.Consensus.Validators.{
  Address, SocketAddr, ValidatorEntry, ValidatorSet, entry_address, add_entries, from_entries,
  set_keys, set_lookup, set_is_empty,
}

-- The address of the last entry with this key, or else what was known.
abbrev pub last_address : Option Address → List ValidatorEntry → PublicKey → Option Address
last_address known [] key = known
last_address known (e ∷ entries) key =
    last_address (if e.public_key == key then some (entry_address e) else known) entries key

set_lookup-add_entries :
    (set : ValidatorSet) (entries : List ValidatorEntry) (key : PublicKey)
    → set_lookup (add_entries set entries) key ≡ last_address (set_lookup set key) entries key
unfolding add_entries
set_lookup-add_entries set [] key = refl
set_lookup-add_entries set (e ∷ entries) key =
    rw (← get-insert set e.public_key key (entry_address e))
      (set_lookup-add_entries (insert set e.public_key (entry_address e)) entries key)

-- In the validator set of a list of entries, a key has the address of the last entry with that key,
-- or none if there is no such entry.
pub set_lookup-from_entries :
    (entries : List ValidatorEntry) (key : PublicKey)
    → set_lookup (from_entries entries) key ≡ last_address none entries key
unfolding from_entries get
set_lookup-from_entries entries key = set_lookup-add_entries [] entries key

-- No key stands twice.
abbrev pub Absent : PublicKey → List PublicKey → Type 0
Absent key [] = Unit {0}
Absent key (k ∷ ks) = ((k == key) ≡ false) × Absent key ks

abbrev pub Distinct : List PublicKey → Type 0
Distinct [] = Unit {0}
Distinct (k ∷ ks) = Absent k ks × Distinct ks

Absent-insert :
    (set : ValidatorSet) (key k : PublicKey) (a : Address)
    → (k == key) ≡ false
    → Absent key (keys set)
    → Absent key (keys (insert set k a))
unfolding insert
Absent-insert [] key k a new h = (new, tt)
Absent-insert ((j, b) ∷ set) key k a new h = elim (Bool-cases (j == k)) [
  | inl hit ↦ rw (hit, insert) (new, h.1)
  | inr miss ↦ rw (miss, insert) (h.0, Absent-insert set key k a new h.1)
]

Distinct-insert :
    (set : ValidatorSet) (k : PublicKey) (a : Address)
    → Distinct (keys set)
    → Distinct (keys (insert set k a))
unfolding insert
Distinct-insert [] k a h = (tt, tt)
Distinct-insert ((j, b) ∷ set) k a h = elim (Bool-cases (j == k)) [
  | inl hit ↦
      rw (hit, insert) (subst (λ x. Absent x (keys set)) ((public_key_eqb_iff j k).0 hit) h.0, h.1)
  | inr miss ↦
      rw (miss, insert)
        (
          Absent-insert set j k a
              (ground (arith, public_key_eqb_iff j k, public_key_eqb_iff k j, miss)) h.0,
          Distinct-insert set k a h.1,
        )
]

add_entries-Distinct :
    (set : ValidatorSet) (entries : List ValidatorEntry)
    → Distinct (keys set)
    → Distinct (keys (add_entries set entries))
unfolding add_entries
add_entries-Distinct set [] h = h
add_entries-Distinct set (e ∷ entries) h =
    add_entries-Distinct (insert set e.public_key (entry_address e)) entries
      (Distinct-insert set e.public_key (entry_address e) h)

pub from_entries-Distinct :
    (entries : List ValidatorEntry) → Distinct (set_keys (from_entries entries))
unfolding from_entries
from_entries-Distinct entries = add_entries-Distinct [] entries tt

add_entries-some :
    (entries : List ValidatorEntry) (set : ValidatorSet)
    → set_is_empty set ≡ false
    → set_is_empty (add_entries set entries) ≡ false
unfolding add_entries insert
add_entries-some [] set h = h
add_entries-some (e ∷ entries) [] h = cc
add_entries-some (e ∷ entries) ((j, b) ∷ set) h = elim (Bool-cases (j == e.public_key)) [
  | inl hit ↦ rw (hit, add_entries, insert) (add_entries-some entries _ refl)
  | inr miss ↦ rw (miss, add_entries, insert) (add_entries-some entries _ refl)
]

-- The set of some entries has a validator.
pub from_entries-some :
    (e : ValidatorEntry) (entries : List ValidatorEntry)
    → set_is_empty (from_entries (e ∷ entries)) ≡ false
unfolding from_entries add_entries insert
from_entries-some e entries = add_entries-some entries _ refl

-- The entries of validators that are numbered from an index on: validator `i` has the key of seed `i`
-- and one address.
abbrev pub indexed_entries : (ℕ → PublicKey) → ℕ → List SocketAddr → List ValidatorEntry
indexed_entries key_from_seed i [] = []
indexed_entries key_from_seed i (addr ∷ addrs) =
    record { public_key = key_from_seed i; ingress = addr; egress = addr.ip }
    ∷ indexed_entries key_from_seed (suc i) addrs
