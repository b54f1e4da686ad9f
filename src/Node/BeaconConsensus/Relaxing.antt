-- ===== src/Node/BeaconConsensus/Relaxing.antt =====
-- Allegro's rules accept what Ethereum's accept, and blocks within one second.
use allegro.Prelude.{ℕ, ◌≤◌, ◌<◌, ◌≡◌, ◌↔◌, ◌⊎◌, inl, inr, refl, sym, Option, ok, arith}
use native.Mathlib.Decide.{dec_lt}
use allegro.Primitives.Digest.{Bytes}
use allegro.Node.BeaconConsensus.{FullConsensus, EthRules, beacon_consensus}
use allegro.Node.BeaconConsensus.Timestamps.{Follows, validate_header_against_parent_iff}

-- Documented behaviour of reth: Ethereum's check of a header against its parent is these rules and a
-- later timestamp, and its check of an executed block is the free function.
pub record IsEthereum {S H D K R Q P E : Type 0} (rules : EthRules S H D K R Q P E) : Type 0 where
  pub against_parent :
      (spec : S) (header parent : H)
      → ((rules.eth_beacon_consensus spec).validate_header_against_parent header parent ≡ ok tt) ↔ (
          Follows (rules.header_rules spec) header parent
          × ((rules.header_rules spec).timestamp parent
              < (rules.header_rules spec).timestamp header))
  pub executed :
      (spec : S) (block : R) (result : Q) (receipts access : Option Bytes)
      → (rules.eth_beacon_consensus spec).validate_block_post_execution block result receipts access
        ≡ rules.post_execution spec block result receipts access

-- What two consensus rules have alike: all but the check of a header against its parent.
pub record Alike {H D K R Q E : Type 0} (a b : FullConsensus H D K R Q E) : Type 0 where
  pub header : (h : H) → a.validate_header h ≡ b.validate_header h
  pub body :
      (d : D) (h : H) → a.validate_body_against_header d h ≡ b.validate_body_against_header d h
  pub pre : (k : K) → a.validate_block_pre_execution k ≡ b.validate_block_pre_execution k
  pub pre_with_root :
      (k : K) (root : Option Bytes)
      → a.validate_block_pre_execution_with_tx_root k root
        ≡ b.validate_block_pre_execution_with_tx_root k root
  pub post :
      (block : R) (result : Q) (receipts access : Option Bytes)
      → a.validate_block_post_execution block result receipts access
        ≡ b.validate_block_post_execution block result receipts access

later_or_same : (a b : ℕ) → a ≤ b → (a < b) ⊎ (a ≡ b)
later_or_same a b h = elim (dec_lt a b) [ yes p ↦ inl p | no p ↦ inr (omega arith) ]

-- Allegro's consensus rules answer as Ethereum's do to every header, body, block and executed
-- block, and accept a header against its parent exactly if Ethereum's rules accept it, or if it has
-- the parent's timestamp and passes reth's other rules. Ethereum's rules are reth's rules with a
-- later timestamp, and reth's check of executed blocks.
pub beacon_consensus_relaxes :
    {S H D K R Q P E : Type 0} (rules : EthRules S H D K R Q P E)
    → IsEthereum rules
    → (spec : S)
    → Alike (beacon_consensus rules spec) (rules.eth_beacon_consensus spec)
      × ((header parent : H)
          → ((beacon_consensus rules spec).validate_header_against_parent header parent ≡ ok tt) ↔ (
              ((rules.eth_beacon_consensus spec).validate_header_against_parent header parent
                ≡ ok tt)
              ⊎ (Follows (rules.header_rules spec) header parent
                  × ((rules.header_rules spec).timestamp header
                      ≡ (rules.header_rules spec).timestamp parent))))
unfolding beacon_consensus
beacon_consensus_relaxes rules eth spec =
    let r = rules.header_rules spec in
    (
      record {
        header = λ h. refl;
        body = λ d h. refl;
        pre = λ k. refl;
        pre_with_root = λ k root. refl;
        post = λ block result receipts access. sym (eth.executed spec block result receipts access);
      },
      λ header parent. (
        λ passed.
            let f = (validate_header_against_parent_iff r header parent).0 passed in
            elim (later_or_same (r.timestamp parent) (r.timestamp header) f.not_before) [
              | inl later ↦ inl ((eth.against_parent spec header parent).1 (f, later))
              | inr same ↦ inr (f, sym same)
            ],
        λ either. (validate_header_against_parent_iff r header parent).1 (elim either [
          | inl passed ↦ ((eth.against_parent spec header parent).0 passed).0
          | inr (f, same) ↦ f
        ]),
      ),
    )
