-- ===== src/Store/Order.antt =====
-- The total order by which internal/store/store.go lists files.
use llm_file_gateway.Prelude.{◌≡◌, ◌≢◌, sym, subst, inl, inr, true, false, arith, Bool-cases}
use llm_file_gateway.Prelude.Text.{String, str_lt, str_lt_irrefl, str_lt_trans, str_lt_total}
use llm_file_gateway.Prelude.Sorting.{StrictOrder}
use llm_file_gateway.Store.{Key, key_lt, precedes}

key_lt_irrefl : (a : Key) → key_lt a a ≡ false
unfolding key_lt
key_lt_irrefl (s, i) = ground (arith, str_lt_irrefl i)

key_lt_trans : (a b c : Key) → key_lt a b ≡ true → key_lt b c ≡ true → key_lt a c ≡ true
unfolding key_lt
key_lt_trans (s, i) (t, j) (u, k) h l = ground (arith, str_lt_trans i j k)

str_lt_neg_trans : (s t u : String) → str_lt s t ≡ false → str_lt t u ≡ false → str_lt s u ≡ false
str_lt_neg_trans s t u h k = elim (Bool-cases (str_lt s u)) [
  | inr e ↦ e
  | inl e ↦ elim (Bool-cases (str_lt t s)) [
    | inl f ↦ cc (str_lt_trans t s u f e, k)
    | inr f ↦ subst (λ r. str_lt r u ≡ false) (sym (str_lt_total s t h f)) k
  ]
]

key_lt_neg_trans : (a b c : Key) → key_lt a b ≡ false → key_lt b c ≡ false → key_lt a c ≡ false
unfolding key_lt
key_lt_neg_trans (s, i) (t, j) (u, k) h l = ground (arith, str_lt_neg_trans i j k)

pub key_lt_total : (a b : Key) → a.1 ≢ b.1 → key_lt b a ≡ false → key_lt a b ≡ true
unfolding key_lt
key_lt_total (s, i) (t, j) h k = ground (arith, str_lt_total i j)

pub precedes-StrictOrder : (order : String) → StrictOrder (precedes order)
unfolding precedes
precedes-StrictOrder order = record {
  irrefl = λ a. ground (arith, key_lt_irrefl a);
  trans = λ a b c h k. ground (arith, key_lt_trans a b c, key_lt_trans c b a);
  neg_trans = λ a b c h k. ground (arith, key_lt_neg_trans a b c, key_lt_neg_trans c b a);
}

pub precedes_total :
    (order : String) (a b : Key)
    → a.1 ≢ b.1
    → precedes order b a ≡ false
    → precedes order a b ≡ true
unfolding precedes
precedes_total order a b h k = ground (arith, key_lt_total a b, key_lt_total b a)
