-- ===== src/Membership/Onion.antt =====
-- `validate_onion_endpoint` of crates/kerosene-membership/src/lib.rs. The crate url is the parameter
-- `parse_url`, which gives the parts of a URL that the check reads.
use kerosene_node.Base.{
  Bool, List, Option, String, [], false, if◌then◌else◌, is_empty, is_none, leb, length, nat_eq,
  none, some, text_eq, true, ℕ, ◌&&◌, ◌==◌, ◌||◌, ◌∷◌,
}
use kerosene_node.Base.Results.{Result, ok_or, require, ◌>>=◌, ◌>>◌}
use kerosene_node.Base.Text.{as_bytes, is_empty_text}
use kerosene_node.Ledger.Chain.{outpoint_eq}
use kerosene_node.Ledger.Chart.{account_eq}
use kerosene_node.Ledger.States.{onchain_eq, reservation_state_eq, role_eq, withdrawal_status_eq}

pub record Url : Type 0 where
  pub scheme : String
  pub username : String
  pub password : Option String
  pub query : Option String
  pub fragment : Option String
  pub path : String
  pub host_str : Option String

abbrev pub bytes_eq : List ℕ → List ℕ → Bool
bytes_eq [] [] = true
bytes_eq (x ∷ xs) (y ∷ ys) = if x == y then bytes_eq xs ys else false
bytes_eq _ _ = false

abbrev pub all_bytes : (ℕ → Bool) → List ℕ → Bool
all_bytes p [] = true
all_bytes p (x ∷ xs) = if p x then all_bytes p xs else false

-- `str::strip_suffix`, on bytes
abbrev pub strip_suffix : List ℕ → List ℕ → Option (List ℕ)
strip_suffix end [] = if is_empty end then some [] else none
strip_suffix end (x ∷ xs) =
    let rest = strip_suffix end xs in
    if bytes_eq end (x ∷ xs) then some [] else elim rest [ none ↦ none | some ys ↦ some (x ∷ ys) ]

-- `value.is_ascii_lowercase() || (b'2'..=b'7').contains(&value)`
abbrev pub is_base32 : ℕ → Bool
is_base32 b = (leb 97 b && leb b 122) || (leb 50 b && leb b 55)

abbrev pub is_plain_url : Url → Bool
is_plain_url u =
    (u.scheme == "https")
    && (is_empty_text u.username
        && (is_none u.password
            && (is_none u.query
                && (is_none u.fragment && (is_empty_text u.path || (u.path == "/"))))))

abbrev pub is_service_id : List ℕ → Bool
is_service_id bytes = (length bytes == 56) && all_bytes is_base32 bytes

unfoldable pub validate_onion_endpoint :
    {E : Type 0} → (String → Option Url) → E → String → Result E (Unit {0})
validate_onion_endpoint parse_url invalid endpoint = do
  u ← ok_or (parse_url endpoint) invalid
  require (is_plain_url u) invalid
  host ← ok_or u.host_str invalid
  service_id ← ok_or (strip_suffix (as_bytes ".onion") (as_bytes host)) invalid
  require (is_service_id service_id) invalid
