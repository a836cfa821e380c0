-- ===== src/Stdlib/File/Reading.antt =====
-- Reading through the buffer of stdlib/stdio.c gives the bytes of the file in order.
use smolcc.Base.{
  ℕ, zero, suc, ◌+◌, ◌-◌, ◌<◌, ◌≤◌, ◌≡◌, ◌⊎◌, refl, sym, ap, ◌∙◌, Bool, true, false, List, [], ◌∷◌,
  ◌++◌, Option, none, some, length, ◌==◌, if◌then◌else◌, arith, inl, inr, Bool-cases,
}
use smolcc.Stdlib.File.{File, file_buf_cap, slice, fill_buf, pending}
use smolcc.Stdlib.File.Slices.{slice-fill_buf}
use smolcc.Stdlib.File.Calls.{System, Io, ffill, have_byte, read_bytes}

module _ {W : Type 0} (sys : System W) (source : ℕ → W → List ℕ) where
  -- `read` gives the next bytes of the file, no more than asked for, and none only at its end; or it
  -- fails and takes none.
  abbrev pub Read : ℕ → ℕ → W → Option (List ℕ) × W → Type 0
  Read fd n w (some [], w') = (source fd w ≡ []) × (source fd w' ≡ [])
  Read fd n w (some (c ∷ s), w') = (length (c ∷ s) ≤ n) × (source fd w ≡ (c ∷ s) ++ source fd w')
  Read fd n w (none, w') = source fd w' ≡ source fd w

  unfoldable pub IsReader : Type 0
  IsReader = (fd n : ℕ) (w : W) → Read fd n w (sys.read fd n w)

  -- What the stream is yet to give.
  abbrev pub remaining : File → W → List ℕ
  remaining f w = pending f ++ source f.fd w

  abbrev pub IsOpen : File → Type 0
  IsOpen f = (f.buf_pos ≤ f.buf_len) × (f.buf_len ≤ file_buf_cap)

  -- There is a byte in the buffer, or the file is at its end or has failed, as the flags say.
  abbrev pub Filled : File → W → Io W Bool → Type 0
  Filled f w (true, f', w') =
      (f'.fd ≡ f.fd) × IsOpen f' × (f'.buf_pos < f'.buf_len) × (remaining f' w' ≡ remaining f w)
  Filled f w (false, f', w') =
      (f'.fd ≡ f.fd)
      × IsOpen f'
      × (remaining f' w' ≡ remaining f w)
      × (((f'.eof ≡ true) × (remaining f' w' ≡ [])) ⊎ (f'.err ≡ true))

  abbrev emptied : File → File
  emptied f = record f { buf_pos = 0; buf_len = 0 }

  ffill_outcome :
      (f : File) (w : W) (called : Option (List ℕ) × W)
      → Read f.fd file_buf_cap w called
      → Filled (emptied f) w (elim called.0 [
        | none ↦ (false, record (emptied f) { err = true }, called.1)
        | some s ↦ elim s [
          | [] ↦ (false, record (emptied f) { eof = true }, called.1)
          | c ∷ t ↦ (
            true,
            record (emptied f) { buf = fill_buf f.buf 0 (c ∷ t); buf_len = length (c ∷ t) },
            called.1,
          )
        ]
      ])
  unfolding slice
  ffill_outcome f w (none, w') read = (refl, (omega arith, omega arith), read, inr refl)
  ffill_outcome f w (some [], w') read =
      (refl, (omega arith, omega arith), read.1 ∙ sym read.0, inl (refl, read.1))
  ffill_outcome f w (some (c ∷ t), w') read =
      let all : length (c ∷ t) - 0 ≡ length (c ∷ t) = omega arith in
      let got = slice-fill_buf f.buf 0 (c ∷ t) in
      (
        refl,
        (omega arith, read.0),
        omega arith,
        rw all (ap (λ s. s ++ source f.fd w') got ∙ sym read.1),
      )

  Filled-same :
      (f : File) (w : W) (r : Io W Bool)
      → f.buf_len - f.buf_pos ≡ 0
      → Filled (emptied f) w r
      → Filled f w r
  unfolding slice
  Filled-same f w (true, f', w') e h = rw e h
  Filled-same f w (false, f', w') e h = rw e h

  have_byte-Filled : IsReader → (f : File) (w : W) → IsOpen f → Filled f w (have_byte sys f w)
  unfolding have_byte ffill IsReader
  have_byte-Filled ok f w h = elim (Bool-cases (f.buf_pos == f.buf_len)) [
    | inl empty ↦
        let none_left : f.buf_len - f.buf_pos ≡ 0 = ground arith in
        rw empty (
          Filled-same f w _ none_left
            (ffill_outcome f w (sys.read f.fd file_buf_cap w) (ok f.fd file_buf_cap w)))
    | inr more ↦ rw more (refl, h, ground arith, refl)
  ]

  -- What a read has got: the first bytes that were to come, fewer than asked for only at the end of the
  -- file or with the error flag set.
  pub Got : ℕ → File → W → Io W (List ℕ) → Type 0
  Got n f w (s, f', w') =
      (f'.fd ≡ f.fd)
      × IsOpen f'
      × (length s ≤ n)
      × (remaining f w ≡ s ++ remaining f' w')
      × (length s < n → ((f'.eof ≡ true) × (remaining f' w' ≡ [])) ⊎ (f'.err ≡ true))

  abbrev advanced : File → File
  advanced f = record f { buf_pos = f.buf_pos + 1 }

  remaining-advanced :
      (f : File) (w : W)
      → f.buf_pos < f.buf_len
      → remaining f w ≡ f.buf f.buf_pos ∷ remaining (advanced f) w
  unfolding slice
  remaining-advanced f w h =
      let more : f.buf_len - f.buf_pos ≡ suc (f.buf_len - (f.buf_pos + 1)) = omega arith in
      rw more refl

  Got-cons :
      (n : ℕ) (f g : File) (w v : W) (c : ℕ) (r : Io W (List ℕ))
      → g.fd ≡ f.fd
      → remaining f w ≡ c ∷ remaining g v
      → Got n g v r
      → Got (suc n) f w (c ∷ r.0, r.1, r.2)
  unfolding Got
  Got-cons n f g w v c (s, f', w') e k h =
      (h.0 ∙ e, h.1, omega arith, k ∙ ap (λ l. c ∷ l) h.3, λ less. h.4 (omega arith))

  Got-step :
      (n : ℕ) (f : File) (w : W) (r : Io W Bool)
      → ((g : File) (v : W) → IsOpen g → Got n g v (read_bytes sys n g v))
      → Filled f w r
      → Got (suc n) f w (
          let rest = read_bytes sys n (advanced r.1) r.2 in
          if r.0 then (r.1.buf r.1.buf_pos ∷ rest.0, rest.1, rest.2) else ([], r.1, r.2))
  unfolding Got
  Got-step n f w (false, f', w') ih h = (h.0, h.1, omega arith, sym h.2, λ _. h.3)
  Got-step n f w (true, f', w') ih h =
      Got-cons n f (advanced f') w w' (f'.buf f'.buf_pos) (read_bytes sys n (advanced f') w') h.0
        (sym h.3 ∙ remaining-advanced f' w' h.2) (ih (advanced f') w' (omega arith, omega arith))

  -- Where `read` gives the next bytes of a file or fails: the loop of fread gives the next bytes that the
  -- stream was yet to give, in order, wherever the buffer ends, and leaves the rest; it gives fewer than
  -- asked for only at the end of the file, with its flag set, or with the error flag set.
  pub read_bytes-Got :
      IsReader → (n : ℕ) (f : File) (w : W) → IsOpen f → Got n f w (read_bytes sys n f w)
  unfolding read_bytes Got
  read_bytes-Got ok zero f w h = (refl, h, omega arith, refl, λ less. absurd (omega arith))
  read_bytes-Got ok (suc n) f w h =
      Got-step n f w (have_byte sys f w) (λ g v k. read_bytes-Got ok n g v k)
        (have_byte-Filled ok f w h)
