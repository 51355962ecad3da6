-- ===== src/Dictionary/Wide/Check.antt =====
-- core/dictionary/wide.rs, `WideDictionary::validate_safety`: the validation that builds in the same
-- pass stays in bounds on any buffers.
use onpair.Common.{
  ℕ, zero, suc, ◌+◌, ◌-◌, ◌*◌, ◌%◌, ◌≤◌, ◌<◌, ◌≡◌, ◌∙◌, inl, inr, Bool, true, false, not, ◌&&◌,
  ◌||◌, some, [], ◌∷◌, arith, refl, ap, sym, Bytes, length, take, drop, length-take, length-drop,
  length-write, get_or, get_elem?-eq-get_or, write, load_lem, store_lem, put_lem, set, length-set,
  ltb, leb, Bool-cases,
}
use onpair.Core.Types.{max_token_size, sub32}
use onpair.Dictionary.Compact.{Offsets, Flags, scan_pair, scan_pairs}
use onpair.Dictionary.Compact.Safety.{offset}
use onpair.Dictionary.Wide.{
  WideDictionary, from_raw, BuildState, Source, source_is_readable, copy_row, build_row, build_rows,
  source_of,
}

drop_cons : (xs : Offsets) (i : ℕ) → i < length xs → drop i xs ≡ get_or xs i 0 ∷ drop (suc i) xs
drop_cons [] i l = elim l [ ]
drop_cons (x ∷ xs) zero l = refl
drop_cons (x ∷ xs) (suc i) l = drop_cons xs i (omega arith)

drop_nil : (xs : Offsets) (i : ℕ) → length xs ≤ i → drop i xs ≡ []
drop_nil [] zero l = refl
drop_nil [] (suc i) l = refl
drop_nil (x ∷ xs) zero l = elim l [ ]
drop_nil (x ∷ xs) (suc i) l = drop_nil xs i (omega arith)

module _ (bytes : Bytes) (offsets : Offsets) (last : ℕ) where
  abbrev pub n : ℕ
  n = length offsets - 1

  abbrev pub src : Source
  src = source_of bytes offsets last

  abbrev pub chunk : ℕ → Bytes
  chunk start = take max_token_size (drop start bytes)

  abbrev pub row_written : ℕ → ℕ → ℕ → WideDictionary → WideDictionary
  row_written id start end w =
      from_raw (write w.data_bytes (id * max_token_size) (chunk start))
        (set w.lens id (sub32 end start % 256))

  abbrev pub guard : ℕ → ℕ → Bool
  guard start end =
      ltb start end && (leb (sub32 end start) max_token_size && source_is_readable src start)

  readable_room :
      (start : ℕ) → source_is_readable src start ≡ true → start + max_token_size ≤ length bytes
  readable_room start h = ground arith

  module _ (id start end : ℕ) (w : WideDictionary) (l : id < n)
      (size : length w.data_bytes ≡ n * max_token_size) (count : length w.lens ≡ n) where
    length-chunk : start + max_token_size ≤ length bytes → length (chunk start) ≡ max_token_size
    length-chunk h =
        omega (arith, length-take max_token_size (drop start bytes), length-drop start bytes)

    pub row_room :
        start + max_token_size ≤ length bytes
        → id * max_token_size + length (chunk start) ≤ length w.data_bytes
    row_room h = omega (arith, length-chunk h, size)

    pub copy_row-copied :
        guard start end ≡ true
        → start + max_token_size ≤ length bytes
        → copy_row src id start end w ≡ some (row_written id start end w)
    copy_row-copied g h =
        rw
          (
            g,
            put_lem w.lens id (sub32 end start % 256) (omega (arith, count)),
            load_lem bytes start max_token_size h,
            store_lem w.data_bytes (id * max_token_size) (chunk start) (row_room h),
          )
          refl

    copy_row-skipped : guard start end ≡ false → copy_row src id start end w ≡ some w
    copy_row-skipped g = rw g refl

    copy_row_total :
        (w' : WideDictionary) × (copy_row src id start end w ≡ some w')
        × (length w'.data_bytes ≡ n * max_token_size)
        × (length w'.lens ≡ n)
    copy_row_total = elim (Bool-cases (guard start end)) [
      | inl g ↦
          let h : start + max_token_size ≤ length bytes = readable_room start (ground (arith, g)) in
          (
            row_written id start end w,
            copy_row-copied g h,
            length-write w.data_bytes (id * max_token_size) (chunk start) (row_room h) ∙ size,
            length-set w.lens id (sub32 end start % 256) ∙ count,
          )
      | inr g ↦ (w, copy_row-skipped g, size, count)
    ]

  module _ (id : ℕ) (b : BuildState) (l : id < n) where
    abbrev pub start : ℕ
    start = offset offsets id

    abbrev pub end : ℕ
    end = offset offsets (suc id)

    abbrev pub row_built : WideDictionary → BuildState
    row_built w' = record {
      wide = w';
      flags = scan_pair b.flags start end;
      bad_padding = b.bad_padding || not (source_is_readable src start);
    }

    build_row_step :
        (w' : WideDictionary)
        → copy_row src id start end b.wide ≡ some w'
        → build_row src id b ≡ some (row_built w')
    unfolding build_row
    build_row_step w' h =
        let e : offset offsets (id + 1) ≡ offset offsets (suc id) =
          ap (offset offsets) (omega arith) in
        rw
          (
            get_elem?-eq-get_or offsets id 0 (omega arith),
            get_elem?-eq-get_or offsets (id + 1) 0 (omega arith),
            e,
            h,
          )
          refl

    pub build_rows_step :
        (k : ℕ) (w' : WideDictionary)
        → copy_row src id start end b.wide ≡ some w'
        → build_rows src (suc k) id b ≡ build_rows src k (id + 1) (row_built w')
    unfolding build_rows
    build_rows_step k w' h = rw (build_row_step w' h) refl

    scan_pairs_step :
        (f : Flags)
        → scan_pairs f (drop id offsets)
          ≡ scan_pairs (scan_pair f start end) (drop (id + 1) offsets)
    unfolding scan_pairs
    scan_pairs_step f =
        let e : id + 1 ≡ suc id = omega arith in
        rw (e, drop_cons offsets id (omega arith), drop_cons offsets (suc id) (omega arith)) refl

  -- What the loop leaves from round `id` on.
  pub record HasBuilt (id : ℕ) (b b' : BuildState) : Type 0 where
    pub flags_lem : b'.flags ≡ scan_pairs b.flags (drop id offsets)
    pub stays_bad : b.bad_padding ≡ true → b'.bad_padding ≡ true
    pub stays_good :
        b.bad_padding ≡ false
        → ((i : ℕ) → i < n → source_is_readable src (offset offsets i) ≡ true)
        → b'.bad_padding ≡ false

  scan_pairs-end :
      (id : ℕ) (f : Flags) → id + 1 ≡ length offsets → f ≡ scan_pairs f (drop id offsets)
  unfolding scan_pairs
  scan_pairs-end id f e =
      rw (drop_cons offsets id (omega arith), drop_nil offsets (suc id) (omega arith)) refl

  pub build_rows_total :
      (k id : ℕ) (b : BuildState)
      → id + k + 1 ≡ length offsets
      → length b.wide.data_bytes ≡ n * max_token_size
      → length b.wide.lens ≡ n
      → (b' : BuildState) × (build_rows src k id b ≡ some b') × HasBuilt id b b'
  unfolding build_rows
  build_rows_total zero id b e size count = (
    b,
    refl,
    record {
      flags_lem = scan_pairs-end id b.flags (omega arith);
      stays_bad = λ h. h;
      stays_good = λ h r. h;
    },
  )
  build_rows_total (suc k) id b e size count =
      let l : id < n = omega arith in
      let (w', c, size', count') =
        copy_row_total id (start id b l) (end id b l) b.wide l size count in
      let (b', r, h) =
        build_rows_total k (id + 1) (row_built id b l w') (omega arith) size' count' in
      (
        b',
        build_rows_step id b l k w' c ∙ r,
        record {
          flags_lem = h.flags_lem ∙ sym (scan_pairs_step id b l b.flags);
          stays_bad = λ q. h.stays_bad (ground (arith, q));
          stays_good = λ q ok. h.stays_good (ground (arith, q, ok id l)) ok;
        },
      )
