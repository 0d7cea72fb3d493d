-- ===== src/Ledger/Chain/Keys.antt =====
-- One entry to an outpoint: what chain.rs appends to a list of UTXOs.
use kerosene_node.Base.{
  Bool-cases, List, String, [], arith, false, if◌then◌else◌, inl, inr, refl, text_eq, text_iff,
  true, ℕ, ◌++◌, ◌==◌, ◌∷◌, ◌≡◌,
}
use kerosene_node.Ledger.Chain.{UtxoEntry, add_new, add_replacements, canonical_key, has_key}
use kerosene_node.Ledger.States.{}

abbrev pub HasDistinctOutpoints : List UtxoEntry → Type 0
HasDistinctOutpoints [] = Unit
HasDistinctOutpoints (u ∷ us) = (has_key (canonical_key u) us ≡ false) × HasDistinctOutpoints us

has_key-append :
    (k : String) (us : List UtxoEntry) (n : UtxoEntry)
    → has_key k (us ++ n ∷ []) ≡ (if has_key k us then true else canonical_key n == k)
has_key-append k [] n = ground arith
has_key-append k (u ∷ us) n = ground (arith, has_key-append k us n)

pub HasDistinctOutpoints-append :
    (us : List UtxoEntry) (n : UtxoEntry)
    → HasDistinctOutpoints us
    → has_key (canonical_key n) us ≡ false
    → HasDistinctOutpoints (us ++ n ∷ [])
HasDistinctOutpoints-append [] n h new = (refl, tt)
HasDistinctOutpoints-append (u ∷ us) n h new = (
  ground (
    arith,
    has_key-append (canonical_key u) us n,
    text_iff (canonical_key n) (canonical_key u),
    text_iff (canonical_key u) (canonical_key n),
  ),
  HasDistinctOutpoints-append us n h.1 (ground arith),
)

pub add_new-HasDistinctOutpoints :
    (now : ℕ) (ns us : List UtxoEntry)
    → HasDistinctOutpoints us
    → HasDistinctOutpoints (add_new now ns us).0
unfolding add_new canonical_key
add_new-HasDistinctOutpoints now [] us h = h
add_new-HasDistinctOutpoints now (n ∷ ns) us h = elim (Bool-cases (has_key (canonical_key n) us)) [
  | inl old ↦ rw (old, add_new) (add_new-HasDistinctOutpoints now ns us h)
  | inr new ↦
      rw (new, add_new)
        (add_new-HasDistinctOutpoints now ns _ (HasDistinctOutpoints-append us _ h new))
]

pub add_replacements-HasDistinctOutpoints :
    (ns us : List UtxoEntry)
    → HasDistinctOutpoints us
    → HasDistinctOutpoints (add_replacements ns us)
unfolding add_replacements canonical_key
add_replacements-HasDistinctOutpoints [] us h = h
add_replacements-HasDistinctOutpoints (n ∷ ns) us h =
    elim (Bool-cases (has_key (canonical_key n) us)) [
      | inl old ↦ rw (old, add_replacements) (add_replacements-HasDistinctOutpoints ns us h)
      | inr new ↦
          rw (new, add_replacements)
            (add_replacements-HasDistinctOutpoints ns _ (HasDistinctOutpoints-append us _ h new))
    ]
