-- ===== src/Search/Cover/Merge.antt =====
-- search/substring/probe/cover.rs, `ProbeCover::from_runs`: sorting and merging keep the covered
-- tokens, and separate the runs.
use onpair.Common.{
  ℕ, ◌+◌, ◌≤◌, ◌<◌, ◌≡◌, ◌∙◌, refl, ap, arith, Bool, false, ◌||◌, List, [], ◌∷◌, dec_lt, le→leb,
  lt→leb, max,
}
use onpair.Core.Types.{Token, token_mod, TokenRange, contains}
use onpair.Search.Cover.{insert_run, sort_by_begin, saturating_next, merge_loop, merge_runs}

-- Some run has the token.
abbrev pub some_run : List TokenRange → Token → Bool
some_run [] t = false
some_run (r ∷ runs) t = contains r t || some_run runs t

-- The runs are not empty.
abbrev pub AreRuns : List TokenRange → Type 0
AreRuns [] = Unit
AreRuns (r ∷ runs) = ((r.begin ≤ r.last) × (r.last < token_mod)) × AreRuns runs

-- Every run begins at `c` or later.
abbrev pub BeginFrom : ℕ → List TokenRange → Type 0
BeginFrom c [] = Unit
BeginFrom c (r ∷ runs) = (c ≤ r.begin) × BeginFrom c runs

abbrev pub AreAscending : List TokenRange → Type 0
AreAscending [] = Unit
AreAscending (r ∷ runs) = BeginFrom r.begin runs × AreAscending runs

-- Ascending with a gap between neighbours.
abbrev pub AreSeparate : List TokenRange → Type 0
AreSeparate [] = Unit
AreSeparate (r ∷ runs) = (r.begin ≤ r.last) × BeginFrom (r.last + 1) runs × AreSeparate runs

pub BeginFrom-weaken :
    (c d : ℕ) (runs : List TokenRange) → d ≤ c → BeginFrom c runs → BeginFrom d runs
BeginFrom-weaken c d [] l h = tt
BeginFrom-weaken c d (r ∷ runs) l h = (omega (arith, h.0), BeginFrom-weaken c d runs l h.1)

insert_run-some_run :
    (r : TokenRange) (runs : List TokenRange) (t : Token)
    → some_run (insert_run r runs) t ≡ (contains r t || some_run runs t)
insert_run-some_run r [] t = refl
insert_run-some_run r (q ∷ runs) t = ground (arith, insert_run-some_run r runs t)

insert_run-AreRuns :
    (r : TokenRange) (runs : List TokenRange)
    → (r.begin ≤ r.last) × (r.last < token_mod)
    → AreRuns runs
    → AreRuns (insert_run r runs)
insert_run-AreRuns r [] h k = (h, tt)
insert_run-AreRuns r (q ∷ runs) h k = elim (dec_lt q.begin r.begin) [
  | no le ↦ rw (le→leb r.begin q.begin (omega arith)) (h, k)
  | yes lt ↦ rw (lt→leb r.begin q.begin lt) (k.0, insert_run-AreRuns r runs h k.1)
]

insert_run-BeginFrom :
    (c : ℕ) (r : TokenRange) (runs : List TokenRange)
    → c ≤ r.begin
    → BeginFrom c runs
    → BeginFrom c (insert_run r runs)
insert_run-BeginFrom c r [] h k = (h, tt)
insert_run-BeginFrom c r (q ∷ runs) h k = elim (dec_lt q.begin r.begin) [
  | no le ↦ rw (le→leb r.begin q.begin (omega arith)) (h, k)
  | yes lt ↦ rw (lt→leb r.begin q.begin lt) (k.0, insert_run-BeginFrom c r runs h k.1)
]

insert_run-AreAscending :
    (r : TokenRange) (runs : List TokenRange) → AreAscending runs → AreAscending (insert_run r runs)
insert_run-AreAscending r [] k = (tt, tt)
insert_run-AreAscending r (q ∷ runs) k = elim (dec_lt q.begin r.begin) [
  | no le ↦
      rw (le→leb r.begin q.begin (omega arith))
        ((omega arith, BeginFrom-weaken q.begin r.begin runs (omega arith) k.0), k)
  | yes lt ↦
      rw (lt→leb r.begin q.begin lt)
        (insert_run-BeginFrom q.begin r runs (omega arith) k.0, insert_run-AreAscending r runs k.1)
]

-- Sorting keeps the runs.
pub record IsSorting (runs sorted : List TokenRange) : Type 0 where
  pub nonempty : AreRuns sorted
  pub ascending : AreAscending sorted
  pub same : (t : Token) → some_run sorted t ≡ some_run runs t

pub sort_by_begin-IsSorting :
    (runs : List TokenRange) → AreRuns runs → IsSorting runs (sort_by_begin runs)
sort_by_begin-IsSorting [] h = record { nonempty = tt; ascending = tt; same = λ t. refl }
sort_by_begin-IsSorting (r ∷ runs) h =
    let s = sort_by_begin-IsSorting runs h.1 in
    record {
      nonempty = insert_run-AreRuns r (sort_by_begin runs) h.0 s.nonempty;
      ascending = insert_run-AreAscending r (sort_by_begin runs) s.ascending;
      same = λ t.
          insert_run-some_run r (sort_by_begin runs) t
          ∙ ap (λ (b : Bool). contains r t || b) (s.same t);
    }

abbrev joined : TokenRange → TokenRange → TokenRange
joined r run = record { begin = r.begin; last = max r.last run.last }

merge_loop_join :
    (r run : TokenRange) (runs : List TokenRange)
    → run.begin ≤ saturating_next r.last
    → merge_loop r (run ∷ runs) ≡ merge_loop (joined r run) runs
merge_loop_join r run runs h = rw (le→leb run.begin (saturating_next r.last) h) refl

merge_loop_push :
    (r run : TokenRange) (runs : List TokenRange)
    → saturating_next r.last < run.begin
    → merge_loop r (run ∷ runs) ≡ r ∷ merge_loop run runs
merge_loop_push r run runs h = rw (lt→leb run.begin (saturating_next r.last) h) refl

-- What the merging loop makes of a run and the runs behind it.
record IsMerging (r : TokenRange) (runs merged : List TokenRange) : Type 0 where
  separate : AreSeparate merged
  after : BeginFrom r.begin merged
  same : (t : Token) → some_run merged t ≡ (contains r t || some_run runs t)

merge_loop-IsMerging :
    (r : TokenRange) (runs : List TokenRange)
    → (r.begin ≤ r.last) × (r.last < token_mod)
    → AreRuns runs
    → BeginFrom r.begin runs
    → AreAscending runs
    → IsMerging r runs (merge_loop r runs)
merge_loop-IsMerging r [] h k b a = record {
  separate = (h.0, tt, tt);
  after = (omega arith, tt);
  same = λ t. refl;
}
merge_loop-IsMerging r (run ∷ runs) h k b a = elim (dec_lt (saturating_next r.last) run.begin) [
  | no close ↦
      let m =
        merge_loop-IsMerging (joined r run) runs (omega (arith, h.0), omega (arith, h.1, k.0.1)) k.1
          b.1 a.1 in
      rw (merge_loop_join r run runs (omega arith)) (record {
        separate = m.separate;
        after = m.after;
        same = λ t. m.same t ∙ ground (arith, b.0, h.0, k.0.0, h.1, k.0.1);
      })
  | yes far ↦
      let m = merge_loop-IsMerging run runs k.0 k.1 a.0 a.1 in
      rw (merge_loop_push r run runs far) (record {
        separate = (
          h.0,
          BeginFrom-weaken run.begin (r.last + 1) (merge_loop run runs) (omega (arith, h.1, k.0))
              m.after,
          m.separate,
        );
        after = (omega arith, BeginFrom-weaken run.begin r.begin (merge_loop run runs) b.0 m.after);
        same = λ t. ap (λ (c : Bool). contains r t || c) (m.same t);
      })
]

-- The merged runs: separate, and covering the same tokens.
pub record IsMerged (runs merged : List TokenRange) : Type 0 where
  pub separate : AreSeparate merged
  pub same : (t : Token) → some_run merged t ≡ some_run runs t

pub merge_runs-IsMerged :
    (runs : List TokenRange) → AreRuns runs → AreAscending runs → IsMerged runs (merge_runs runs)
merge_runs-IsMerged [] h a = record { separate = tt; same = λ t. refl }
merge_runs-IsMerged (r ∷ runs) h a =
    let m = merge_loop-IsMerging r runs h.0 h.1 a.0 a.1 in
    record { separate = m.separate; same = m.same }
