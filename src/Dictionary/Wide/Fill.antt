-- ===== src/Dictionary/Wide/Fill.antt =====
-- core/dictionary/wide.rs, `WideDictionary::validate_safety`: on safe buffers its loop fills the rows as
-- `to_wide` does.
use onpair.Common.{
  ℕ, zero, suc, ◌+◌, ◌-◌, ◌*◌, ◌%◌, ◌≤◌, ◌<◌, ◌≡◌, ◌∙◌, true, some, arith, refl, ap, sym, Bytes,
  length, take, drop, length-write, get_elem?-eq-get_or, load_lem, store_lem, put_lem, length-set,
}
use mathlib.Core.Option
use onpair.Core.Types.{max_token_size, sub32}
use onpair.Dictionary.Compact.{Offsets}
use onpair.Dictionary.Compact.{from_raw as compact}
use onpair.Dictionary.Compact.Safety.{offset, AreU32, IsSafe}
use onpair.Dictionary.Compact.Access.{offset_mono}
use onpair.Dictionary.Wide.{
  WideDictionary, token_width, fill_rows, BuildState, Source, source_is_readable, copy_row,
  build_rows, source_of,
}
use onpair.Dictionary.Wide.Check.{
  guard, row_room, row_written, row_built, copy_row-copied, build_rows_step,
}

module _ (bytes : Bytes) (offsets : Offsets) (u : AreU32 offsets) (s : IsSafe bytes offsets) where
  abbrev last_start : ℕ
  last_start = offset offsets (length offsets - 2)

  abbrev safe_src : Source
  safe_src = source_of bytes offsets last_start

  below_last : (i : ℕ) → suc i < length offsets → offset offsets i ≤ last_start
  below_last i l =
      let e : i + (length offsets - 2 - i) ≡ length offsets - 2 = omega arith in
      omega (
        arith,
        offset_mono offsets s.steps (length offsets - 2 - i) i (omega arith),
        ap (offset offsets) e,
      )

  pub all_readable :
      (i : ℕ) → suc i < length offsets → source_is_readable safe_src (offset offsets i) ≡ true
  all_readable i l = ground (arith, below_last i l, s.padded)

  module _ (id : ℕ) (l : suc id < length offsets) where
    guard_holds :
        guard bytes offsets last_start (offset offsets id) (offset offsets (suc id)) ≡ true
    guard_holds = ground (arith, all_readable id l, s.steps id l, u id (omega arith), u (suc id) l)

    same_width :
        sub32 (offset offsets (suc id)) (offset offsets id) % 256
        ≡ token_width (offset offsets (suc id)) (offset offsets id)
    same_width = omega (arith, s.steps id l, u id (omega arith), u (suc id) l)

    fill_rows_step :
        (k : ℕ) (w : WideDictionary)
        → length w.data_bytes ≡ (length offsets - 1) * max_token_size
        → length w.lens ≡ length offsets - 1
        → (w' : WideDictionary) × (copy_row safe_src id
              (offset offsets id)
              (offset offsets (suc id))
              w
            ≡ some w')
          × (length w'.data_bytes ≡ (length offsets - 1) * max_token_size)
          × (length w'.lens ≡ length offsets - 1)
          × (fill_rows (compact bytes offsets) (suc k) id w.data_bytes w.lens
              ≡ fill_rows (compact bytes offsets) k (id + 1) w'.data_bytes w'.lens)
    unfolding fill_rows
    fill_rows_step k w size count =
        let e : offset offsets (id + 1) ≡ offset offsets (suc id) =
          ap (offset offsets) (omega arith) in
        let room : offset offsets id + max_token_size ≤ length bytes =
          omega (arith, below_last id l, s.padded) in
        let fits =
          row_room bytes offsets last_start id (offset offsets id) (offset offsets (suc id)) w
            (omega arith) size count room in
        (
          row_written bytes offsets last_start id (offset offsets id) (offset offsets (suc id)) w,
          copy_row-copied bytes offsets last_start id (offset offsets id) (offset offsets (suc id))
              w (omega arith) size count guard_holds room,
          length-write w.data_bytes (id * max_token_size)
                (take max_token_size (drop (offset offsets id) bytes)) fits
              ∙ size,
          length-set w.lens id (sub32 (offset offsets (suc id)) (offset offsets id) % 256) ∙ count,
          rw
              (
                get_elem?-eq-get_or offsets id 0 (omega arith),
                get_elem?-eq-get_or offsets (id + 1) 0 (omega arith),
                e,
                put_lem w.lens id (token_width (offset offsets (suc id)) (offset offsets id))
                    (omega (arith, count)),
                load_lem bytes (offset offsets id) max_token_size room,
                store_lem w.data_bytes (id * max_token_size)
                    (take max_token_size (drop (offset offsets id) bytes)) fits,
                same_width,
              )
              refl,
        )

  -- On safe buffers the loop fills the rows as `to_wide` does.
  pub build_rows-fill_rows :
      (k id : ℕ) (b : BuildState)
      → id + k + 1 ≡ length offsets
      → length b.wide.data_bytes ≡ (length offsets - 1) * max_token_size
      → length b.wide.lens ≡ length offsets - 1
      → Option.map (λ (r : BuildState). r.wide) (build_rows safe_src k id b)
        ≡ fill_rows (compact bytes offsets) k id b.wide.data_bytes b.wide.lens
  unfolding build_rows fill_rows
  build_rows-fill_rows zero id b e size count = refl
  build_rows-fill_rows (suc k) id b e size count =
      let (w', c, size', count', f) = fill_rows_step id (omega arith) k b.wide size count in
      ap (Option.map (λ (r : BuildState). r.wide))
        (build_rows_step bytes offsets last_start id b (omega arith) k w' c)
      ∙ build_rows-fill_rows k (id + 1) (row_built bytes offsets last_start id b (omega arith) w')
          (omega arith) size' count'
      ∙ sym f
