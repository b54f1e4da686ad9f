-- ===== src/Consensus/Validators.antt =====
-- crates/consensus/src/validators.rs: the validator set, a map from public keys to addresses.
-- Its lock is parking_lot's, which has no poisoning, and nothing writes after construction.
pub mod Entries
use allegro.Prelude.{ℕ, Bool, true, false, List, [], ◌∷◌, Option, length}
use allegro.Prelude.Dict.{Dict, get, insert, keys}
use allegro.Primitives.Digest.{PublicKey, public_key_eq}

-- `std::net`: an address of either family, by its number.
pub data IpAddr : Type 0 where
  v4 : ℕ → IpAddr
  v6 : ℕ → IpAddr

pub record SocketAddr : Type 0 where
  pub ip : IpAddr
  pub port : ℕ

pub record ValidatorEntry : Type 0 where
  pub public_key : PublicKey
  pub ingress : SocketAddr
  pub egress : IpAddr

-- `commonware_p2p::Address::Asymmetric`, the one form that the source builds.
pub record Address : Type 0 where
  pub ingress : SocketAddr
  pub egress : SocketAddr

abbrev pub ValidatorSet : Type 0
ValidatorSet = Dict PublicKey Address

abbrev pub new_set : ValidatorSet
new_set = []

abbrev pub entry_address : ValidatorEntry → Address
entry_address e = record { ingress = e.ingress; egress = record { ip = e.egress; port = 0 } }

-- The loop of `from_entries`.
unfoldable pub add_entries : ValidatorSet → List ValidatorEntry → ValidatorSet
add_entries map [] = map
add_entries map (e ∷ entries) = add_entries (insert map e.public_key (entry_address e)) entries

unfoldable pub from_entries : List ValidatorEntry → ValidatorSet
unfolding add_entries
from_entries entries = add_entries new_set entries

abbrev pub set_keys : ValidatorSet → List PublicKey
set_keys vs = keys vs

abbrev pub set_lookup : ValidatorSet → PublicKey → Option Address
set_lookup vs key = get vs key

abbrev pub set_len : ValidatorSet → ℕ
set_len vs = length vs

abbrev pub set_is_empty : ValidatorSet → Bool
set_is_empty [] = true
set_is_empty (_ ∷ _) = false
