-- ===== src/Stdlib/File/Writing.antt =====
-- Writing through the buffer of stdlib/stdio.c loses, repeats and reorders nothing: what a stream has
-- been given is what the system has got and then what is still in the buffer.
use smolcc.Base.{
  ℕ, zero, suc, ◌+◌, ◌-◌, ◌<◌, ◌≤◌, ◌≡◌, refl, sym, ap, ◌∙◌, Bool, true, false, List, [], ◌∷◌, ◌++◌,
  Option, none, some, length, take, ltb, ◌==◌, arith, inl, inr, Bool-cases,
}
use mathlib.Core.List.{append_assoc, append-nil}
use smolcc.Stdlib.File.{File, file_buf_cap, slice, pending}
use smolcc.Stdlib.File.Slices.{slice-split, slice-length, slice-snoc}
use smolcc.Stdlib.File.Calls.{
  System, Io, flush_loop, fflush, then_reset, put_byte, make_room, count_one, write_bytes,
}

module _ {W : Type 0} (sys : System W) (out : ℕ → W → List ℕ) where
  -- `write` takes some of the bytes, and at least one of them, or fails and takes none.
  abbrev pub Wrote : ℕ → List ℕ → W → Option ℕ × W → Type 0
  Wrote fd s w (some n, w') =
      (n ≤ length s) × (0 < length s → 0 < n) × (out fd w' ≡ out fd w ++ take n s)
  Wrote fd s w (none, w') = out fd w' ≡ out fd w

  unfoldable pub IsWriter : Type 0
  IsWriter = (fd : ℕ) (s : List ℕ) (w : W) → Wrote fd s w (sys.write fd s w)

  -- What the stream has been given.
  abbrev pub contents : File → W → List ℕ
  contents f w = out f.fd w ++ pending f

  abbrev pub IsOpen : File → Type 0
  IsOpen f = (f.buf_pos ≤ f.buf_len) × (f.buf_len ≤ file_buf_cap)

  -- The outcome of a flush: it has ended, with nothing lost, and all gone on or the error flag set.
  abbrev pub Flushed : File → W → Option (Io W Bool) → Type 0
  Flushed f w none = ⊥
  Flushed f w (some (ok, f', w')) =
      (f'.fd ≡ f.fd)
      × IsOpen f'
      × (contents f' w' ≡ contents f w)
      × (ok ≡ true → f'.buf_pos ≡ f'.buf_len)
      × (ok ≡ false → f'.err ≡ true)

  Flushed-trans :
      (f g : File) (w v : W) (o : Option (Io W Bool))
      → g.fd ≡ f.fd
      → contents g v ≡ contents f w
      → Flushed g v o
      → Flushed f w o
  Flushed-trans f g w v none e c h = h
  Flushed-trans f g w v (some (ok, f', w')) e c h = (h.0 ∙ e, h.1, h.2 ∙ c, h.3, h.4)

  -- A write that has taken some bytes leaves the stream's contents as they were.
  contents-write :
      (f : File) (w w' : W) (n : ℕ)
      → n ≤ f.buf_len - f.buf_pos
      → out f.fd w' ≡ out f.fd w ++ take n (pending f)
      → contents (record f { buf_pos = f.buf_pos + n }) w' ≡ contents f w
  contents-write f w w' n h e =
      let fewer : f.buf_len - (f.buf_pos + n) ≡ f.buf_len - f.buf_pos - n = omega arith in
      let rest = slice f.buf (f.buf_pos + n) (f.buf_len - f.buf_pos - n) in
      rw (e, fewer)
        (append_assoc (out f.fd w) (take n (pending f)) rest
          ∙ ap (λ l. out f.fd w ++ l) (slice-split f.buf f.buf_pos n (f.buf_len - f.buf_pos) h))

  flush_round :
      (fuel : ℕ) (f : File) (w : W) (called : Option ℕ × W)
      → IsOpen f
      → f.buf_pos < f.buf_len
      → f.buf_len - f.buf_pos ≤ suc fuel
      → ((g : File) (v : W)
          → IsOpen g
          → g.buf_len - g.buf_pos ≤ fuel
          → Flushed g v (flush_loop sys fuel g v))
      → Wrote f.fd (pending f) w called
      → Flushed f w (elim called.0 [
        | some n ↦ flush_loop sys fuel (record f { buf_pos = f.buf_pos + n }) called.1
        | none ↦ some (false, record f { err = true }, called.1)
      ])
  flush_round fuel f w (none, w') h more enough ih wrote =
      (refl, h, ap (λ l. l ++ pending f) wrote, λ e. cc, λ _. refl)
  flush_round fuel f w (some n, w') h more enough ih wrote =
      let long = slice-length f.buf f.buf_pos (f.buf_len - f.buf_pos) in
      let g = record f { buf_pos = f.buf_pos + n } in
      let progress : 0 < n = wrote.1 (omega arith) in
      let within : n ≤ f.buf_len - f.buf_pos = omega (arith, wrote.0, long) in
      Flushed-trans f g w w' (flush_loop sys fuel g w') refl
        (contents-write f w w' n within wrote.2) (ih g w' (omega arith) (omega arith))

  flush_loop-Flushed :
      IsWriter
      → (fuel : ℕ) (f : File) (w : W) → IsOpen f
      → f.buf_len - f.buf_pos ≤ fuel
      → Flushed f w (flush_loop sys fuel f w)
  unfolding IsWriter flush_loop
  flush_loop-Flushed ok zero f w h enough =
      let done : ltb f.buf_pos f.buf_len ≡ false = ground arith in
      rw done (refl, h, refl, λ _. omega arith, λ e. cc)
  flush_loop-Flushed ok (suc fuel) f w h enough = elim (Bool-cases (ltb f.buf_pos f.buf_len)) [
    | inr done ↦ rw done (refl, h, refl, λ _. ground arith, λ e. cc)
    | inl more ↦ rw more (
        flush_round fuel f w (sys.write f.fd (pending f) w) h (ground arith) enough
          (λ g v k l. flush_loop-Flushed ok fuel g v k l) (ok f.fd (pending f) w))
  ]

  -- After fflush the buffer is empty, or the error flag is set.
  abbrev pub Emptied : File → W → Option (Io W Bool) → Type 0
  Emptied f w none = ⊥
  Emptied f w (some (ok, f', w')) =
      (f'.fd ≡ f.fd)
      × IsOpen f'
      × (contents f' w' ≡ contents f w)
      × (ok ≡ true → f'.buf_len ≡ 0)
      × (ok ≡ false → f'.err ≡ true)

  then_reset-Emptied :
      (f : File) (w : W) (o : Option (Io W Bool)) → Flushed f w o → Emptied f w (then_reset sys o)
  unfolding slice
  then_reset-Emptied f w none h = h
  then_reset-Emptied f w (some (false, f', w')) h = (h.0, h.1, h.2, λ e. cc, h.4)
  then_reset-Emptied f w (some (true, f', w')) h =
      let none_left : f'.buf_len - f'.buf_pos ≡ 0 = let e = h.3 refl in omega arith in
      let same : contents f' w' ≡ out f'.fd w' ++ [] = rw none_left refl in
      (h.0, omega arith, sym same ∙ h.2, λ _. refl, λ e. cc)

  -- fflush ends where `write` makes progress, and loses nothing: what the system has and what is in the
  -- buffer are as before. It gives 0 with an empty buffer, or EOF with the error flag set.
  pub fflush-Emptied : IsWriter → (f : File) (w : W) → IsOpen f → Emptied f w (fflush sys f w)
  unfolding fflush
  fflush-Emptied ok f w h =
      then_reset-Emptied f w (flush_loop sys (f.buf_len - f.buf_pos) f w)
        (flush_loop-Flushed ok (f.buf_len - f.buf_pos) f w h (omega arith))

  contents-put_byte :
      (f : File) (w : W) (c : ℕ)
      → f.buf_pos ≤ f.buf_len
      → contents (put_byte sys f c) w ≡ contents f w ++ c ∷ []
  contents-put_byte f w c h =
      let one_more : f.buf_len + 1 - f.buf_pos ≡ suc (f.buf_len - f.buf_pos) = omega arith in
      rw one_more (
        ap (λ l. out f.fd w ++ l)
          (slice-snoc f.buf c f.buf_len f.buf_pos (f.buf_len - f.buf_pos) (omega arith))
        ∙ sym (append_assoc (out f.fd w) (pending f) (c ∷ [])))

  -- The bytes that a write has taken, in order.
  abbrev pub Took : List ℕ → File → W → Option (Io W ℕ) → Type 0
  Took s f w none = ⊥
  Took s f w (some (n, f', w')) =
      (f'.fd ≡ f.fd)
      × IsOpen f'
      × (n ≤ length s)
      × (contents f' w' ≡ contents f w ++ take n s)
      × (n < length s → f'.err ≡ true)

  -- Room was made.
  abbrev HasRoom : File → W → Option (Io W Bool) → Type 0
  HasRoom f w none = ⊥
  HasRoom f w (some (ok, f', w')) =
      (f'.fd ≡ f.fd)
      × IsOpen f'
      × (contents f' w' ≡ contents f w)
      × (ok ≡ true → f'.buf_len < file_buf_cap)
      × (ok ≡ false → f'.err ≡ true)

  Emptied-HasRoom : (f : File) (w : W) (o : Option (Io W Bool)) → Emptied f w o → HasRoom f w o
  Emptied-HasRoom f w none h = h
  Emptied-HasRoom f w (some (ok, f', w')) h =
      (h.0, h.1, h.2, λ e. let z = h.3 e in omega arith, h.4)

  make_room-HasRoom : IsWriter → (f : File) (w : W) → IsOpen f → HasRoom f w (make_room sys f w)
  unfolding make_room
  make_room-HasRoom ok f w h = elim (Bool-cases (f.buf_len == file_buf_cap)) [
    | inl full ↦ rw full (Emptied-HasRoom f w (fflush sys f w) (fflush-Emptied ok f w h))
    | inr room ↦ rw room (refl, h, refl, λ _. ground arith, λ e. cc)
  ]

  Took-cons :
      (c : ℕ) (s : List ℕ) (f g : File) (w v : W) (o : Option (Io W ℕ))
      → g.fd ≡ f.fd
      → contents g v ≡ contents f w ++ c ∷ []
      → Took s g v o
      → Took (c ∷ s) f w (count_one sys o)
  Took-cons c s f g w v none e k h = h
  Took-cons c s f g w v (some (n, f', w')) e k h =
      let more : n + 1 ≡ suc n = omega arith in
      (
        h.0 ∙ e,
        h.1,
        omega arith,
        rw more (h.3 ∙ ap (λ l. l ++ take n s) k ∙ append_assoc (contents f w) (c ∷ []) (take n s)),
        λ less. h.4 (omega arith),
      )

  Took-room :
      (c : ℕ) (s : List ℕ) (f : File) (w : W) (o : Option (Io W Bool))
      → ((g : File) (v : W) → IsOpen g → Took s g v (write_bytes sys s g v))
      → HasRoom f w o
      → Took (c ∷ s) f w (elim o [
        | some (ok, f', w') ↦ elim ok [
          | true ↦ count_one sys (write_bytes sys s (put_byte sys f' c) w')
          | false ↦ some (0, f', w')
        ]
        | none ↦ none
      ])
  Took-room c s f w none ih h = h
  Took-room c s f w (some (false, f', w')) ih h =
      (h.0, h.1, omega arith, h.2 ∙ sym (append-nil (contents f w)), λ _. h.4 refl)
  Took-room c s f w (some (true, f', w')) ih h =
      let room = h.3 refl in
      let g = put_byte sys f' c in
      Took-cons c s f g w w' (write_bytes sys s g w') h.0
        (contents-put_byte f' w' c h.1.0 ∙ ap (λ l. l ++ c ∷ []) h.2)
        (ih g w' (omega arith, omega arith))

  -- Where `write` takes some of its bytes or fails: the loop of fwrite ends, and what the stream has been
  -- given is then what it had been given before and the bytes that fwrite counts, in their order, in
  -- whatever pieces they are written; it counts fewer only with the error flag set.
  pub write_bytes-Took :
      IsWriter → (s : List ℕ) (f : File) (w : W) → IsOpen f → Took s f w (write_bytes sys s f w)
  unfolding write_bytes
  write_bytes-Took ok [] f w h =
      (refl, h, omega arith, sym (append-nil (contents f w)), λ less. absurd (omega arith))
  write_bytes-Took ok (c ∷ s) f w h =
      Took-room c s f w (make_room sys f w) (λ g v k. write_bytes-Took ok s g v k)
        (make_room-HasRoom ok f w h)
