-- ===== src/Ledger/Nonces.antt =====
-- `InMemoryNonceChecker` of crates/kerosene-ledger/src/nonce.rs. The set of consumed nonces is a
-- list.
use kerosene_node.Base.{
  Bool, List, String, [], arith, false, if◌then◌else◌, text_eq, text_iff, true, ◌==◌, ◌∷◌, ◌≡◌,
}
use kerosene_node.Base.Results.{then_do as ◌>>◌, Handler, assign, check, err, reject_if}
use kerosene_node.Ledger.Errors.{LedgerError, authorization_invalid, nonce_consumed}
use kerosene_node.Ledger.States.{}

abbrev pub NonceSet : Type 0
NonceSet = List String

-- `HashSet::contains` and `HashSet::insert`
abbrev pub contains_text : String → List String → Bool
contains_text x [] = false
contains_text x (y ∷ ys) = if y == x then true else contains_text x ys

abbrev pub insert_text : String → List String → List String
insert_text x xs = if contains_text x xs then xs else x ∷ xs

pub is_consumed : String → NonceSet → Bool
is_consumed nonce s = contains_text nonce s

unfoldable pub mark_consumed : String → Handler NonceSet LedgerError (Unit {0})
mark_consumed nonce = do
  check λ s. reject_if (contains_text nonce s) (authorization_invalid (nonce_consumed nonce))
  assign (insert_text nonce)

-- The sync path marks with no check.
unfoldable pub mark_consumed_sync : String → NonceSet → NonceSet
mark_consumed_sync nonce s = insert_text nonce s

-- A run of attempts to consume nonces, each keeping what it could.
abbrev pub consume_all : List String → NonceSet → NonceSet
consume_all [] s = s
consume_all (n ∷ ns) s = consume_all ns (mark_consumed n s).1

contains-mark_consumed :
    (n k : String) (s : NonceSet)
    → contains_text k (mark_consumed n s).1 ≡ (if n == k then true else contains_text k s)
unfolding mark_consumed
contains-mark_consumed n k s = ground (arith, text_iff n k)

contains-consume_all :
    (ns : List String) (k : String) (s : NonceSet)
    → contains_text k s ≡ true
    → contains_text k (consume_all ns s) ≡ true
contains-consume_all [] k s h = h
contains-consume_all (n ∷ ns) k s h =
    contains-consume_all ns k (mark_consumed n s).1 (ground (arith, contains-mark_consumed n k s))

refused :
    (nonce : String) (s : NonceSet)
    → contains_text nonce s ≡ true
    → mark_consumed nonce s ≡ (err (authorization_invalid (nonce_consumed nonce)), s)
unfolding mark_consumed
refused nonce s h = ground arith

-- A nonce is accepted once: after it was marked, whatever nonces are tried in between, marking it
-- again fails and changes nothing.
mark_consumed_once :
    (nonce : String) (between : List String) (s : NonceSet)
    → let later = consume_all between (mark_consumed nonce s).1 in
      mark_consumed nonce later ≡ (err (authorization_invalid (nonce_consumed nonce)), later)
mark_consumed_once nonce between s = refused nonce (consume_all between (mark_consumed nonce s).1) (
    contains-consume_all between nonce _
      (ground (arith, contains-mark_consumed nonce nonce s, text_iff nonce nonce)))
