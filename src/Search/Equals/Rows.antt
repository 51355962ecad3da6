-- ===== src/Search/Equals/Rows.antt =====
-- search/equals.rs: on greedily encoded rows, comparing codes compares the rows.
use onpair.Common.{
  ◌≡◌, ◌↔◌, ◌∙◌, true, some, List, [], ◌∷◌, arith, refl, ap, sym, subst, Bytes, length,
}
use onpair.Core.Types.{Token}
use onpair.Dictionary.View.{DictionaryView, Tokens, Represents, IsSorted, IsComplete, AreBytes}
use onpair.Search.Tokenize.{tokenize}
use onpair.Search.Tokenize.Greedy.{
  IsGreedy, IsGreedy-unique, IsGreedy-decode, decode, tokenize-IsGreedy,
}
use onpair.Search.Equals.{zip_equal, equals}

zip_equal-eq : (cs ds : List Token) → length cs ≡ length ds → zip_equal cs ds ≡ true → cs ≡ ds
unfolding zip_equal
zip_equal-eq [] [] l h = refl
zip_equal-eq [] (d ∷ ds) l h = absurd (omega arith)
zip_equal-eq (c ∷ cs) [] l h = absurd (omega arith)
zip_equal-eq (c ∷ cs) (d ∷ ds) l h = ground (arith, zip_equal-eq cs ds)

zip_equal_refl : (cs : List Token) → zip_equal cs cs ≡ true
unfolding zip_equal
zip_equal_refl [] = refl
zip_equal_refl (c ∷ cs) = ground (arith, zip_equal_refl cs)

equals-eq : (cs ds : List Token) → equals cs ds ≡ true → cs ≡ ds
unfolding equals
equals-eq cs ds h = ground (arith, zip_equal-eq cs ds)

equals_refl : (cs : List Token) → equals cs cs ≡ true
unfolding equals
equals_refl cs = ground (arith, zip_equal_refl cs)

-- `equals` decides equality of code sequences.
pub equals_iff : (cs ds : List Token) → (equals cs ds ≡ true) ↔ (cs ≡ ds)
equals_iff cs ds = (equals-eq cs ds, λ e. subst (λ x. equals cs x ≡ true) e (equals_refl cs))

-- On a sorted and complete dictionary, a greedily encoded row compares equal to the codes of a
-- needle of u8 values, which tokenize finds without a panic, exactly if the row is the needle.
pub equals-tokenize :
    (v : DictionaryView) (toks : Tokens) (row needle : Bytes) (codes : List Token)
    → Represents v toks
    → IsSorted toks
    → IsComplete toks
    → AreBytes needle
    → IsGreedy toks row codes
    → (query : List Token) × (tokenize needle v ≡ some query)
      × ((equals codes query ≡ true) ↔ (row ≡ needle))
equals-tokenize v toks row needle codes rep sorted complete bytes g =
    let (query, e, q, d) = tokenize-IsGreedy v toks rep sorted complete needle bytes in
    (
      query,
      e,
      (
        λ h.
            sym (IsGreedy-decode toks row codes g) ∙ ap (decode toks) (equals-eq codes query h) ∙ d,
        λ h.
            subst (λ x. equals codes x ≡ true)
              (IsGreedy-unique v toks rep sorted needle codes query
                (subst (λ s. IsGreedy toks s codes) h g) q)
              (equals_refl codes),
      ),
    )
