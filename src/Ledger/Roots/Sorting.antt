-- ===== src/Ledger/Roots/Sorting.antt =====
-- Sorting byte strings, as `Vec<[u8; 32]>::sort` orders them; the result does not depend on the
-- order of the list.
use kerosene_node.Base.{
  Bool, List, [], arith, false, if◌then◌else◌, ltb, refl, true, ℕ, ◌∷◌, ◌≡◌, ◌∙◌,
}
use mathlib.Core.List.{Perm, Permᴰ}
use mathlib.Core.Logic.{∥∥₁_elim}
use mathlib.Core.Path.{ap₂}
use native.Mathlib.Decide.{ℕ_discrete}

-- The lexicographic order.
abbrev pub bytes_leb : List ℕ → List ℕ → Bool
bytes_leb [] ys = true
bytes_leb (x ∷ xs) [] = false
bytes_leb (x ∷ xs) (y ∷ ys) = if ltb x y then true else (if ltb y x then false else bytes_leb xs ys)

abbrev pub insert_bytes : List ℕ → List (List ℕ) → List (List ℕ)
insert_bytes b [] = b ∷ []
insert_bytes b (c ∷ cs) = if bytes_leb b c then b ∷ c ∷ cs else c ∷ insert_bytes b cs

pub sort_bytes : List (List ℕ) → List (List ℕ)
sort_bytes [] = []
sort_bytes (b ∷ bs) = insert_bytes b (sort_bytes bs)

leb_total : (a b : List ℕ) → bytes_leb a b ≡ false → bytes_leb b a ≡ true
leb_total [] b h = cc
leb_total (x ∷ a) [] h = refl
leb_total (x ∷ a) (y ∷ b) h = ground (arith, leb_total a b)

leb_antisymm : (a b : List ℕ) → bytes_leb a b ≡ true → bytes_leb b a ≡ true → a ≡ b
leb_antisymm [] [] h k = refl
leb_antisymm [] (y ∷ b) h k = cc
leb_antisymm (x ∷ a) [] h k = cc
leb_antisymm (x ∷ a) (y ∷ b) h k = ground (arith, leb_antisymm a b)

leb_trans : (a b c : List ℕ) → bytes_leb a b ≡ true → bytes_leb b c ≡ true → bytes_leb a c ≡ true
leb_trans [] b c h k = refl
leb_trans (x ∷ a) [] c h k = cc
leb_trans (x ∷ a) (y ∷ b) [] h k = cc
leb_trans (x ∷ a) (y ∷ b) (z ∷ c) h k = ground (arith, leb_trans a b c)

insert_bytes_comm :
    (a b : List ℕ) (cs : List (List ℕ))
    → insert_bytes a (insert_bytes b cs) ≡ insert_bytes b (insert_bytes a cs)
insert_bytes_comm a b [] = ground (arith, leb_total a b, leb_total b a, leb_antisymm a b)
insert_bytes_comm a b (c ∷ cs) = ground (
  arith,
  insert_bytes_comm a b cs,
  leb_total a b,
  leb_total b a,
  leb_antisymm a b,
  leb_total a c,
  leb_total b c,
  leb_trans a b c,
  leb_trans b a c,
)

sort_bytes-permᴰ : {xs ys : List (List ℕ)} → Permᴰ xs ys → sort_bytes xs ≡ sort_bytes ys
unfolding sort_bytes
sort_bytes-permᴰ Permᴰ.nil = refl
sort_bytes-permᴰ (Permᴰ.cons e p) = ap₂ insert_bytes e (sort_bytes-permᴰ p)
sort_bytes-permᴰ (Permᴰ.swap {a = a} {b = b} {l = l} e f) =
    insert_bytes_comm a b (sort_bytes l)
    ∙ ap₂ (λ x y. insert_bytes x (insert_bytes y (sort_bytes l))) f e
sort_bytes-permᴰ (Permᴰ.trans p q) = sort_bytes-permᴰ p ∙ sort_bytes-permᴰ q

bytes_set : IsSet (List (List ℕ))
bytes_set = hlevel ℕ_discrete

-- Two permutations of one list are sorted alike.
pub sort_bytes-perm : {xs ys : List (List ℕ)} → Perm xs ys → sort_bytes xs ≡ sort_bytes ys
sort_bytes-perm p = ∥∥₁_elim p (bytes_set _ _) sort_bytes-permᴰ
