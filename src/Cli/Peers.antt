-- ===== src/Cli/Peers.antt =====
-- bin/allegro/src/main.rs: `track_peers`, which tells the network the addresses of the others.
use allegro.Prelude.{
  ℕ, ◌≡◌, refl, Bool, true, false, List, [], ◌∷◌, Option, none, some, Result, ok, err, arith, ◌==◌,
  if◌then◌else◌, inl, inr, Bool-cases, Option-cases, ==_refl, subst,
}
use Prim.Native.String.{String}
use allegro.Prelude.Dict.{Dict, get}
use allegro.Primitives.Digest.{PublicKey, public_key_eq, public_key_eqb_iff}
use allegro.Consensus.Validators.{Address, ValidatorSet, set_keys, set_lookup}

-- The entry of one key: none for the node's own.
unfoldable pub peer_of : PublicKey → ValidatorSet → PublicKey → Option (PublicKey × Address)
peer_of my_pk validators k =
    if k == my_pk
    then none
    else elim (set_lookup validators k) [ none ↦ none | some a ↦ some (k, a) ]

abbrev pub push_peer :
    Option (PublicKey × Address) → Dict PublicKey Address → Dict PublicKey Address
push_peer none pairs = pairs
push_peer (some pair) pairs = pair ∷ pairs

-- `filter_map` and `collect` over the keys.
unfoldable pub peers_among : PublicKey → ValidatorSet → List PublicKey → Dict PublicKey Address
unfolding peer_of
peers_among my_pk validators [] = []
peers_among my_pk validators (k ∷ ks) =
    push_peer (peer_of my_pk validators k) (peers_among my_pk validators ks)

unfoldable pub peer_pairs : PublicKey → ValidatorSet → Dict PublicKey Address
unfolding peers_among
peer_pairs my_pk validators = peers_among my_pk validators (set_keys validators)

-- `lookup::Oracle::track` of an ordered map, on the state `O` of the oracle.
pub record Oracle (O M : Type 0) : Type 0 where
  pub ordered_map : Dict PublicKey Address → Result M String
  pub track : ℕ → M → O → O

module _ {O M : Type 0} (oracle : Oracle O M) where
  unfoldable pub track_pairs : Dict PublicKey Address → O → O
  track_pairs [] o = o
  track_pairs (pair ∷ pairs) o = elim (oracle.ordered_map (pair ∷ pairs)) [
    | err e ↦ o
    | ok m ↦ oracle.track 0 m o
  ]

  unfoldable pub track_peers : PublicKey → ValidatorSet → O → O
  unfolding track_pairs peer_pairs
  track_peers my_pk validators o = track_pairs (peer_pairs my_pk validators) o

abbrev pub among : PublicKey → List PublicKey → Bool
among key [] = false
among key (k ∷ ks) = if k == key then true else among key ks

-- A key that is not among the keys has no address.
lookup-among :
    (set : ValidatorSet) (key : PublicKey)
    → among key (set_keys set) ≡ false
    → set_lookup set key ≡ none
unfolding get
lookup-among [] key h = refl
lookup-among ((k, b) ∷ set) key h =
    ground (arith, λ (e : among key (set_keys set) ≡ false). lookup-among set key e)

-- The lookup of the key that stands first.
get-peers_among_first :
    (my_pk : PublicKey) (validators : ValidatorSet) (k : PublicKey) (ks : List PublicKey)
    (rest : Option Address)
    → get (peers_among my_pk validators ks) k ≡ rest
    → rest ≡ (if k == my_pk then none else if among k ks then set_lookup validators k else none)
    → get (peers_among my_pk validators (k ∷ ks)) k
      ≡ (if k == my_pk then none else set_lookup validators k)
unfolding peers_among peer_of get
get-peers_among_first my_pk validators k ks rest h e =
    ground (arith, ==_refl k, Option-cases (set_lookup validators k))

get-peers_among :
    (my_pk : PublicKey) (validators : ValidatorSet) (ks : List PublicKey) (key : PublicKey)
    → get (peers_among my_pk validators ks) key
      ≡ (if key == my_pk then none else if among key ks then set_lookup validators key else none)
unfolding peers_among peer_of get
get-peers_among my_pk validators [] key = ground arith
get-peers_among my_pk validators (k ∷ ks) key = elim (Bool-cases (k == key)) [
  | inl hit ↦
      subst
        (λ x. get (peers_among my_pk validators (k ∷ ks)) x ≡ (
          if x == my_pk then none else if among x (k ∷ ks) then set_lookup validators x else none))
        ((public_key_eqb_iff k key).0 hit)
        (ground (
          arith,
          ==_refl k,
          get-peers_among_first my_pk validators k ks _ refl
              (get-peers_among my_pk validators ks k),
        ))
  | inr miss ↦
      ground
        (arith, get-peers_among my_pk validators ks key, Option-cases (set_lookup validators k))
]

-- Among the peers that are tracked, a node's own key has no address, and every other key has the
-- address that it has in the validator set.
pub get-peer_pairs :
    (my_pk : PublicKey) (validators : ValidatorSet) (key : PublicKey)
    → get (peer_pairs my_pk validators) key
      ≡ (if key == my_pk then none else set_lookup validators key)
unfolding peer_pairs
get-peer_pairs my_pk validators key =
    let looked = get-peers_among my_pk validators (set_keys validators) key in
    elim (Bool-cases (among key (set_keys validators))) [
      | inl there ↦ ground (arith, looked)
      | inr absent ↦ ground (arith, looked, lookup-among validators key absent)
    ]
