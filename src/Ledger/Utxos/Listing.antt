-- ===== src/Ledger/Utxos/Listing.antt =====
-- The listings of `InMemoryUtxoStore` of crates/kerosene-ledger/src/utxo_store.rs, sorted by key.
use kerosene_node.Base.{List, String, keep, ◌==◌}
use kerosene_node.Ledger.Certificates.{Crypto}
use kerosene_node.Ledger.Chain.{UtxoEntry}
use kerosene_node.Ledger.Roots.{compute_utxo_root, sort_by_key}
use kerosene_node.Ledger.States.{OnchainState, onchain_eq}
use kerosene_node.Ledger.Utxos.{Utxos}

unfoldable pub list_by_state : OnchainState → Utxos → List UtxoEntry
list_by_state state us = sort_by_key (keep (λ (u : UtxoEntry). u.state == state) us)

unfoldable pub list_all : Utxos → List UtxoEntry
list_all us = sort_by_key us

unfoldable pub compute_utxo_root_hash : Crypto → Utxos → String
compute_utxo_root_hash crypto us = compute_utxo_root crypto us
