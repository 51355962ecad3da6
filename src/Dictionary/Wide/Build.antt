-- ===== src/Dictionary/Wide/Build.antt =====
-- `to_wide`: the wide form of a safe compact dictionary represents the same token table.
use onpair.Common.{
  ℕ, zero, suc, ◌+◌, ◌-◌, ◌*◌, ◌≤◌, ◌<◌, ◌≡◌, ◌∙◌, some, ◌++◌, arith, refl, ap, sym, subst, dec_lt,
  Bytes, length, take, drop, length-take, length-drop, length-replicate, length-set, length-write,
  get_elem?, get_or, get_elem?-eq-get_or, get_or-set_self, get_or-set_ne, get_or-write, get_or-take,
  get_or-drop, get_or-ext, take-append-drop, load, write, load_lem, store_lem, put_lem, set,
  replicate, le→leb, take-take,
}
use onpair.Core.Types.{max_token_size}
use onpair.Dictionary.View.{tok, Represents}
use onpair.Dictionary.Compact.{Offsets}
use onpair.Dictionary.Compact.{from_raw as compact}
use onpair.Dictionary.Compact.Safety.{offset, AreU32, IsSafe}
use onpair.Dictionary.Compact.Access.{tokens_of, length-tokens_of, tok-tokens_of, start_padded}
use onpair.Dictionary.Wide.{
  WideDictionary, from_raw, token_width, fill_rows, to_wide, token, as_view,
}

module _ (bytes : Bytes) (offsets : Offsets) (u : AreU32 offsets) (s : IsSafe bytes offsets) where
  abbrev n : ℕ
  n = length offsets - 1

  -- The rows below `id` are filled.
  record IsFilled (id : ℕ) (w : WideDictionary) : Type 0 where
    rows : length w.data_bytes ≡ n * max_token_size
    count : length w.lens ≡ n
    cells :
        (j x : ℕ)
        → j < id
        → x < max_token_size
        → get_or w.data_bytes (j * max_token_size + x) 0 ≡ get_or bytes (offset offsets j + x) 0
    widths : (j : ℕ) → j < id → get_or w.lens j 0 ≡ offset offsets (suc j) - offset offsets j

  module _ (id : ℕ) (l : id < n) (w : WideDictionary) (f : IsFilled id w) where
    abbrev chunk : Bytes
    chunk = take max_token_size (drop (offset offsets id) bytes)

    length-chunk : length chunk ≡ max_token_size
    length-chunk = omega (
      arith,
      length-take max_token_size (drop (offset offsets id) bytes),
      length-drop (offset offsets id) bytes,
      start_padded bytes offsets u s id (omega arith),
    )

    abbrev next : WideDictionary
    next =
        from_raw (write w.data_bytes (id * max_token_size) chunk)
          (set w.lens id (token_width (offset offsets (suc id)) (offset offsets id)))

    room : id * max_token_size + length chunk ≤ length w.data_bytes
    room = omega (arith, length-chunk, f.rows)

    chunk_cell :
        (x : ℕ) → x < max_token_size → get_or chunk x 0 ≡ get_or bytes (offset offsets id + x) 0
    chunk_cell x h =
        get_or-take max_token_size (drop (offset offsets id) bytes) x h
        ∙ get_or-drop bytes (offset offsets id) x 0

    next_cell :
        (j x : ℕ)
        → j < id + 1
        → x < max_token_size
        → get_or next.data_bytes (j * max_token_size + x) 0 ≡ get_or bytes (offset offsets j + x) 0
    next_cell j x h k =
        let r =
          get_or-write w.data_bytes (id * max_token_size) chunk (j * max_token_size + x) room in
        elim (dec_lt j id) [
          | yes old ↦ ground (arith, r, f.cells j x old k)
          | no new ↦
              let e : j ≡ id = omega arith in
              let back : j * max_token_size + x - id * max_token_size ≡ x = omega arith in
              ground (
                arith,
                r,
                length-chunk,
                chunk_cell x k,
                ap (λ (i : ℕ). get_or chunk i 0) back,
                ap (λ (i : ℕ). get_or bytes (offset offsets i + x) 0) e,
              )
        ]

    width_lem :
        token_width (offset offsets (suc id)) (offset offsets id)
        ≡ offset offsets (suc id) - offset offsets id
    width_lem =
        omega (arith, s.steps id (omega arith), u id (omega arith), u (suc id) (omega arith))

    next_width :
        (j : ℕ) → j < id + 1 → get_or next.lens j 0 ≡ offset offsets (suc j) - offset offsets j
    next_width j h = elim (dec_lt j id) [
      | yes old ↦
          get_or-set_ne w.lens id j (token_width (offset offsets (suc id)) (offset offsets id)) 0
            (omega arith)
          ∙ f.widths j old
      | no new ↦
          let e : id ≡ j = omega arith in
          ap (λ (i : ℕ). get_or next.lens i 0) (sym e)
          ∙ get_or-set_self w.lens id _ 0 (omega (arith, f.count))
          ∙ width_lem
          ∙ ap (λ (i : ℕ). offset offsets (suc i) - offset offsets i) e
    ]

    next-IsFilled : IsFilled (id + 1) next
    next-IsFilled = record {
      rows = length-write w.data_bytes (id * max_token_size) chunk room ∙ f.rows;
      count = length-set w.lens id _ ∙ f.count;
      cells = next_cell;
      widths = next_width;
    }

    fill_rows_step :
        (k : ℕ)
        → fill_rows (compact bytes offsets) (suc k) id w.data_bytes w.lens
          ≡ fill_rows (compact bytes offsets) k (id + 1) next.data_bytes next.lens
    unfolding fill_rows
    fill_rows_step k =
        let e : offset offsets (id + 1) ≡ offset offsets (suc id) =
          ap (offset offsets) (omega arith) in
        rw
          (
            get_elem?-eq-get_or offsets id 0 (omega arith),
            get_elem?-eq-get_or offsets (id + 1) 0 (omega arith),
            e,
            put_lem w.lens id (token_width (offset offsets (suc id)) (offset offsets id))
                (omega (arith, f.count)),
            load_lem bytes (offset offsets id) max_token_size
                (start_padded bytes offsets u s id (omega arith)),
            store_lem w.data_bytes (id * max_token_size) chunk room,
          )
          refl

  fill_rows-IsFilled :
      (k id : ℕ) (w : WideDictionary)
      → id + k ≡ n
      → IsFilled id w
      → (w' : WideDictionary) × (fill_rows (compact bytes offsets) k id w.data_bytes w.lens
          ≡ some w')
        × IsFilled n w'
  unfolding fill_rows
  fill_rows-IsFilled zero id w e f =
      let q : id ≡ n = omega arith in (w, refl, subst (λ (i : ℕ). IsFilled i w) q f)
  fill_rows-IsFilled (suc k) id w e f =
      let (w', r, g) =
        fill_rows-IsFilled k (id + 1) (next id (omega arith) w f) (omega arith)
          (next-IsFilled id (omega arith) w f) in
      (w', fill_rows_step id (omega arith) w f k ∙ r, g)

  start-IsFilled : IsFilled 0 (from_raw (replicate (n * max_token_size) 0) (replicate n 0))
  start-IsFilled = record {
    rows = length-replicate (n * max_token_size) 0;
    count = length-replicate n 0;
    cells = λ j x h k. absurd (omega arith);
    widths = λ j h. absurd (omega arith);
  }

  module _ (w : WideDictionary) (f : IsFilled n w) where
    module _ (i : ℕ) (l : suc i < length offsets) where
      read_len : get_elem? w.lens i ≡ some (offset offsets (suc i) - offset offsets i)
      read_len =
          get_elem?-eq-get_or w.lens i 0 (omega (arith, f.count))
          ∙ ap some (f.widths i (omega arith))

      row_room : i * max_token_size + max_token_size ≤ length w.data_bytes
      row_room = omega (arith, f.rows)

      -- The first bytes of row `i` are token `i`.
      row_token :
          take (offset offsets (suc i) - offset offsets i) (drop (i * max_token_size) w.data_bytes)
          ≡ tok (tokens_of bytes offsets) i
      row_token =
          let m : ℕ = offset offsets (suc i) - offset offsets i in
          get_or-ext (take m (drop (i * max_token_size) w.data_bytes))
            (take m (drop (offset offsets i) bytes))
            (omega (
              arith,
              length-take m (drop (i * max_token_size) w.data_bytes),
              length-drop (i * max_token_size) w.data_bytes,
              length-take m (drop (offset offsets i) bytes),
              length-drop (offset offsets i) bytes,
              start_padded bytes offsets u s i l,
              s.steps i l,
              row_room,
            ))
            (λ x h.
              let short : x < m =
                omega (arith, length-take m (drop (i * max_token_size) w.data_bytes)) in
              get_or-take m (drop (i * max_token_size) w.data_bytes) x short
              ∙ get_or-drop w.data_bytes (i * max_token_size) x 0
              ∙ f.cells i x (omega arith) (omega (arith, s.steps i l))
              ∙ sym (
                  get_or-take m (drop (offset offsets i) bytes) x short
                  ∙ get_or-drop bytes (offset offsets i) x 0))
          ∙ sym (tok-tokens_of bytes offsets i l)

      length-tok :
          length (tok (tokens_of bytes offsets) i) ≡ offset offsets (suc i) - offset offsets i
      length-tok =
          ap length (sym row_token)
          ∙ omega (
            arith,
            length-take (offset offsets (suc i) - offset offsets i)
                (drop (i * max_token_size) w.data_bytes),
            length-drop (i * max_token_size) w.data_bytes,
            s.steps i l,
            row_room,
          )

      token-tok : token w i ≡ some (tok (tokens_of bytes offsets) i)
      token-tok =
          let m : ℕ = offset offsets (suc i) - offset offsets i in
          let back : i * max_token_size + m - i * max_token_size ≡ m = omega arith in
          rw
            (
              read_len,
              le→leb (i * max_token_size) (i * max_token_size + m) (omega arith),
              le→leb (i * max_token_size + m) (length w.data_bytes)
                  (omega (arith, row_room, s.steps i l)),
              back,
              row_token,
            )
            refl

      token_ptr-tok :
          (rest : Bytes) × (load w.data_bytes (i * max_token_size) max_token_size
            ≡ some (tok (tokens_of bytes offsets) i ++ rest))
          × (length (tok (tokens_of bytes offsets) i ++ rest) ≡ max_token_size)
      token_ptr-tok =
          let m : ℕ = offset offsets (suc i) - offset offsets i in
          let row : Bytes = take max_token_size (drop (i * max_token_size) w.data_bytes) in
          let first : take m row ≡ tok (tokens_of bytes offsets) i =
            take-take m max_token_size (drop (i * max_token_size) w.data_bytes)
              (omega (arith, s.steps i l))
            ∙ row_token in
          let split : tok (tokens_of bytes offsets) i ++ drop m row ≡ row =
            ap (λ (t : Bytes). t ++ drop m row) (sym first) ∙ take-append-drop m row in
          (
            drop m row,
            load_lem w.data_bytes (i * max_token_size) max_token_size row_room
                ∙ ap some (sym split),
            ap length split
                ∙ omega (
                  arith,
                  length-take max_token_size (drop (i * max_token_size) w.data_bytes),
                  length-drop (i * max_token_size) w.data_bytes,
                  row_room,
                ),
          )

    index : (i : ℕ) → i < length (tokens_of bytes offsets) → suc i < length offsets
    index i l = omega (arith, length-tokens_of bytes offsets)

    filled-Represents : Represents (as_view w) (tokens_of bytes offsets)
    unfolding as_view
    filled-Represents = record {
      counted = omega (arith, length-tokens_of bytes offsets, f.count);
      addressable = omega (arith, length-tokens_of bytes offsets, s.addressable);
      token_lem = λ i l. token-tok i (index i l);
      token_len_lem = λ i l. read_len i (index i l) ∙ ap some (sym (length-tok i (index i l)));
      nonempty = λ i l. omega (arith, length-tok i (index i l), s.steps i (index i l));
      bounded = λ i l. omega (arith, length-tok i (index i l), s.steps i (index i l));
      token_ptr_lem = λ i l. token_ptr-tok i (index i l);
      token_len_unchecked_lem =
          λ i l. read_len i (index i l) ∙ ap some (sym (length-tok i (index i l)));
    }

  -- On safe compact buffers with u32 offsets to_wide stays in bounds, and the view of its result
  -- represents the same token table.
  pub to_wide-Represents :
      (w : WideDictionary) × (to_wide (compact bytes offsets) ≡ some w)
      × Represents (as_view w) (tokens_of bytes offsets)
  unfolding to_wide
  to_wide-Represents =
      let (w, e, f) = fill_rows-IsFilled n 0 _ (omega arith) start-IsFilled in
      (w, e, filled-Represents w f)
