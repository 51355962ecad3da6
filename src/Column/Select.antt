-- ===== src/Column/Select.antt =====
-- column/mod.rs, `select`, `rows_equal_to` and `rows_starting_with`: on an encoded column the
-- predicates over codes return the rows that satisfy the predicate over bytes.
use onpair.Common.{
  ℕ, suc, ◌+◌, ◌<◌, ◌≡◌, ◌∙◌, Bool, true, false, Option, some, List, [], ◌∷◌, arith, refl, ap, sym,
  subst, Bytes, length, get_or, ◌==◌, ◌&&◌, if◌then◌else◌, is_prefix, Bool-ext,
}
use onpair.Core.Types.{Token}
use onpair.Dictionary.View.{Tokens, Represents, IsSorted, IsComplete, AreBytes}
use onpair.Dictionary.Compact
use onpair.Search.Tokenize.Greedy.{
  IsGreedy, decode, IsGreedy-decode, IsGreedy-unique, tokenize-IsGreedy,
}
use onpair.Search.Equals.{equals}
use onpair.Search.Equals.Rows.{equals_iff}
use onpair.Search.Prefix
use onpair.Search.Prefix.{PrefixQuery, starts_with}
use onpair.Search.Prefix.Rows.{new-IsQuery, starts_with-is_prefix}
use onpair.Column.{
  Column, num_rows, row_codes, select_loop, select, rows_equal_to, rows_starting_with,
}

-- The column encodes `rows` greedily with the tokens `toks`.
pub record Encodes (toks : Tokens) (column : Column) (rows : List Bytes) : Type 0 where
  pub view : Represents (Compact.as_view column.dict) toks
  pub count : num_rows column ≡ length rows
  pub row_lem :
      (k : ℕ)
      → k < length rows
      → (codes : List Token) × (row_codes column k ≡ some codes)
        × IsGreedy toks (get_or rows k []) codes

-- The ascending indices, from `k` on, of the rows that satisfy `p`.
abbrev pub indices : (Bytes → Bool) → ℕ → List Bytes → List ℕ
indices p k [] = []
indices p k (row ∷ rows) = if p row then k ∷ indices p (k + 1) rows else indices p (k + 1) rows

-- Equality of byte strings.
abbrev pub bytes_eq : Bytes → Bytes → Bool
bytes_eq [] [] = true
bytes_eq [] (b ∷ t) = false
bytes_eq (a ∷ s) [] = false
bytes_eq (a ∷ s) (b ∷ t) = (a == b) && bytes_eq s t

pub bytes_eq-eq : (s t : Bytes) → bytes_eq s t ≡ true → s ≡ t
bytes_eq-eq [] [] h = refl
bytes_eq-eq [] (b ∷ t) h = cc
bytes_eq-eq (a ∷ s) [] h = cc
bytes_eq-eq (a ∷ s) (b ∷ t) h = ground (arith, bytes_eq-eq s t)

pub bytes_eq_refl : (s : Bytes) → bytes_eq s s ≡ true
bytes_eq_refl [] = refl
bytes_eq_refl (a ∷ s) = ground (arith, bytes_eq_refl s)

module _ (column : Column) (pred : List Token → Option Bool) (left k : ℕ) where
  select_loop_step :
      (codes : List Token) (keep : Bool) (rest : List ℕ)
      → row_codes column k ≡ some codes
      → pred codes ≡ some keep
      → select_loop column pred left (k + 1) ≡ some rest
      → select_loop column pred (suc left) k ≡ some (if keep then k ∷ rest else rest)
  unfolding select_loop
  select_loop_step codes keep rest e p r = rw (e, p, r) refl

module _ (toks : Tokens) (column : Column) (pred : List Token → Option Bool) (p : Bytes → Bool)
    (decides : (row : Bytes) (codes : List Token)
      → IsGreedy toks row codes
      → pred codes ≡ some (p row)) where
  select_loop-indices :
      (rows : List Bytes) (k : ℕ)
      → ((i : ℕ)
          → i < length rows
          → (codes : List Token) × (row_codes column (k + i) ≡ some codes)
            × IsGreedy toks (get_or rows i []) codes)
      → select_loop column pred (length rows) k ≡ some (indices p k rows)
  unfolding select_loop
  select_loop-indices [] k f = refl
  select_loop-indices (row ∷ rows) k f =
      let (codes, e, g) = f 0 (omega arith) in
      let here : row_codes column k ≡ some codes = ap (row_codes column) (omega_zero k) ∙ e in
      let rest : select_loop column pred (length rows) (k + 1) ≡ some (indices p (k + 1) rows) =
        select_loop-indices rows (k + 1) (λ i l. shift i (f (suc i) (omega arith))) in
      select_loop_step column pred (length rows) k codes (p row) _ here (decides row codes g) rest
    where
      omega_zero : (j : ℕ) → j ≡ j + 0
      omega_zero j = omega arith

      shift :
          (i : ℕ)
          → (codes : List Token) × (row_codes column (k + suc i) ≡ some codes)
            × IsGreedy toks (get_or rows i []) codes
          → (codes : List Token) × (row_codes column (k + 1 + i) ≡ some codes)
            × IsGreedy toks (get_or rows i []) codes
      shift i (codes, e, g) =
          let q : k + 1 + i ≡ k + suc i = omega arith in (codes, ap (row_codes column) q ∙ e, g)

  -- A predicate that decides `p` on greedy codes selects the rows with `p`.
  pub select-indices :
      (rows : List Bytes) → Encodes toks column rows → select column pred ≡ some (indices p 0 rows)
  unfolding select
  select-indices rows enc =
      ap (λ (n : ℕ). select_loop column pred n 0) enc.count
      ∙ select_loop-indices rows 0 (λ i l. start i (enc.row_lem i l))
    where
      start :
          (i : ℕ)
          → (codes : List Token) × (row_codes column i ≡ some codes)
            × IsGreedy toks (get_or rows i []) codes
          → (codes : List Token) × (row_codes column (0 + i) ≡ some codes)
            × IsGreedy toks (get_or rows i []) codes
      start i (codes, e, g) =
          let q : 0 + i ≡ i = omega arith in (codes, ap (row_codes column) q ∙ e, g)

module _ (toks : Tokens) (column : Column) (rows : List Bytes) (enc : Encodes toks column rows)
    (sorted : IsSorted toks) (complete : IsComplete toks) where
  -- On a greedily encoded column over a sorted and complete dictionary, and for a needle of u8
  -- values, rows_equal_to does not panic and returns the ascending indices of exactly the rows
  -- that equal the needle.
  pub rows_equal_to-indices :
      (needle : Bytes)
      → AreBytes needle
      → rows_equal_to column needle ≡ some (indices (λ row. bytes_eq row needle) 0 rows)
  unfolding rows_equal_to
  rows_equal_to-indices needle bytes =
      let v = Compact.as_view column.dict in
      let (query, e, q, d) = tokenize-IsGreedy v toks enc.view sorted complete needle bytes in
      rw e (
        select-indices toks column (λ codes. some (equals codes query)) (λ row. bytes_eq row needle)
          (λ row codes g. ap some (
            Bool-ext _ _
              (λ h.
                let same : row ≡ needle =
                  sym (IsGreedy-decode toks row codes g)
                  ∙ ap (decode toks) ((equals_iff codes query).0 h)
                  ∙ d in
                subst (λ s. bytes_eq row s ≡ true) same (bytes_eq_refl row))
              (λ h. (equals_iff codes query).1 (
                IsGreedy-unique v toks enc.view sorted needle codes query
                  (subst (λ s. IsGreedy toks s codes) (bytes_eq-eq row needle h) g) q))))
          rows enc)

  -- On a greedily encoded column over a sorted and complete dictionary, and for a prefix of u8
  -- values, rows_starting_with does not panic and returns the ascending indices of exactly the
  -- rows that start with the prefix.
  pub rows_starting_with-indices :
      (prefix : Bytes)
      → AreBytes prefix
      → rows_starting_with column prefix ≡ some (indices (is_prefix prefix) 0 rows)
  unfolding rows_starting_with
  rows_starting_with-indices prefix bytes =
      let v = Compact.as_view column.dict in
      let (query, e, q) = new-IsQuery v toks enc.view sorted complete prefix bytes in
      rw e (
        select-indices toks column (λ codes. starts_with codes query) (is_prefix prefix)
          (λ row codes g.
            same_query query codes (is_prefix prefix row) e
              (starts_with-is_prefix v toks prefix row codes enc.view sorted complete bytes g))
          rows enc)
    where
      same_query :
          (query : PrefixQuery) (codes : List Token) (b : Bool)
          → Prefix.new prefix (Compact.as_view column.dict) ≡ some query
          → (query' : PrefixQuery) × (Prefix.new prefix (Compact.as_view column.dict) ≡ some query')
            × (starts_with codes query' ≡ some b)
          → starts_with codes query ≡ some b
      same_query query codes b e (query', e', h) =
          let same : query' ≡ query = cc in
          subst (λ (x : PrefixQuery). starts_with codes x ≡ some b) same h
