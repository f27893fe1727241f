-- ===== src/Communication/Fill/Pattern.antt =====
-- What the loop of `SetFill` writes, and when it ends.
use inc_sim.Base.{
  ℕ, zero, suc, ◌+◌, ◌-◌, ◌%◌, ◌<◌, ◌≤◌, ◌≡◌, refl, sym, ap, subst, ◌∙◌, true, false, ◌&&◌, Option,
  none, some, List, [], ◌∷◌, if◌then◌else◌, ltb, leb, length, get_elem?, arith, Bool-cases, inl,
  inr,
}
use native.Mathlib.Nat.{mod-add-mod, add-mod_right, mod-eq_of_lt, zero-mod}
use inc_sim.Base.Number.{u32}
use inc_sim.Base.Outcome.{ok}
use inc_sim.Communication.Fill.{
  Fill, fresh, overwrite, copy_to, resized, fill_loop, set_fill_pattern,
}

length-overwrite :
    (i k : ℕ) (bytes : List ℕ) (buffer : List (Option ℕ))
    → length (overwrite i k bytes buffer) ≡ length buffer
unfolding overwrite
length-overwrite i k bytes [] = refl
length-overwrite (suc i) k bytes (y ∷ buffer) = ap suc (length-overwrite i k bytes buffer)
length-overwrite zero zero bytes (y ∷ buffer) = refl
length-overwrite zero (suc k) [] (y ∷ buffer) = refl
length-overwrite zero (suc k) (x ∷ bytes) (y ∷ buffer) =
    ap suc (length-overwrite zero k bytes buffer)

-- A copy changes the bytes of its range to those it copies.
get_elem?-overwrite :
    (i k j : ℕ) (bytes : List ℕ) (buffer : List (Option ℕ))
    → i + k ≤ length buffer
    → k ≤ length bytes
    → get_elem? (overwrite i k bytes buffer) j
      ≡ (if leb i j && ltb j (i + k) then some (get_elem? bytes (j - i)) else get_elem? buffer j)
unfolding overwrite
get_elem?-overwrite i k j bytes [] h l = ground arith
get_elem?-overwrite (suc i) k zero bytes (y ∷ buffer) h l = ground arith
get_elem?-overwrite (suc i) k (suc j) bytes (y ∷ buffer) h l =
    ground (arith, get_elem?-overwrite i k j bytes buffer)
get_elem?-overwrite zero zero j bytes (y ∷ buffer) h l = ground arith
get_elem?-overwrite zero (suc k) j [] (y ∷ buffer) h l = ground arith
get_elem?-overwrite zero (suc k) zero (x ∷ bytes) (y ∷ buffer) h l = ground arith
get_elem?-overwrite zero (suc k) (suc j) (x ∷ bytes) (y ∷ buffer) h l =
    ground (arith, get_elem?-overwrite zero k j bytes buffer)

module _ (fill : List ℕ) (fill_size data_size : ℕ) where
  -- The buffer has its size, and its first bytes repeat the pattern.
  pub record IsFilled (filled : ℕ) (buffer : List (Option ℕ)) : Type 0 where
    pub whole : length buffer ≡ data_size
    pub bytes : (i : ℕ) → i < filled → get_elem? buffer i ≡ some (get_elem? fill (i % fill_size))

  -- Behind whole patterns the pattern begins anew.
  mod_behind :
      (filled i : ℕ)
      → filled % fill_size ≡ 0
      → filled ≤ i
      → i - filled < fill_size
      → i % fill_size ≡ i - filled
  mod_behind filled i e h l =
      ap (λ r. r % fill_size) (together filled i h)
      ∙ sym (mod-add-mod filled fill_size (i - filled))
      ∙ ap (λ r. (r + (i - filled)) % fill_size) e
      ∙ ap (λ r. r % fill_size) (nothing_more (i - filled))
      ∙ mod-eq_of_lt l
    where
      together : (filled i : ℕ) → filled ≤ i → i ≡ filled + (i - filled)
      together filled i h = omega arith

      nothing_more : (j : ℕ) → 0 + j ≡ j
      nothing_more j = omega arith

  -- A copy of the front of the pattern behind whole patterns.
  copy_to-IsFilled :
      (filled k : ℕ) (buffer : List (Option ℕ))
      → IsFilled filled buffer
      → filled % fill_size ≡ 0
      → k ≤ fill_size
      → k ≤ length fill
      → filled + k ≤ data_size
      → (copy_to filled k fill buffer ≡ ok (overwrite filled k fill buffer))
        × IsFilled (filled + k) (overwrite filled k fill buffer)
  unfolding copy_to
  copy_to-IsFilled filled k buffer f e h l m = (
    ground (arith, f.whole),
    record {
      whole = length-overwrite filled k fill buffer ∙ f.whole;
      bytes = λ i u. ground (
        arith,
        f.whole,
        get_elem?-overwrite filled k i fill buffer,
        f.bytes i,
        mod_behind filled i e,
      );
    },
  )

  -- One round, and the last one.
  loop_round :
      (fuel filled : ℕ) (buffer buffer' : List (Option ℕ))
      → ltb ((filled + fill_size) % u32) data_size ≡ true
      → copy_to filled fill_size fill buffer ≡ ok buffer'
      → fill_loop (suc fuel) fill fill_size data_size filled buffer
        ≡ fill_loop fuel fill fill_size data_size ((filled + fill_size) % u32) buffer'
  unfolding fill_loop
  loop_round fuel filled buffer buffer' h c = rw h (rw c refl)

  loop_end :
      (fuel filled : ℕ) (buffer : List (Option ℕ))
      → ltb ((filled + fill_size) % u32) data_size ≡ false
      → fill_loop (suc fuel) fill fill_size data_size filled buffer
        ≡ some (copy_to filled (data_size - filled) fill buffer)
  unfolding fill_loop
  loop_end fuel filled buffer h = rw h refl

  no_wrap :
      (filled : ℕ)
      → filled < data_size
      → data_size + fill_size ≤ u32
      → (filled + fill_size) % u32 ≡ filled + fill_size
  no_wrap filled h w = omega arith

  -- With the pattern shorter than the buffer, not empty, and both small enough for 32 bits, the loop
  -- ends within as many rounds as there are bytes left, without a fault, and fills the buffer.
  fill_loop-IsFilled :
      (fuel filled : ℕ) (buffer : List (Option ℕ))
      → 0 < fill_size
      → fill_size ≤ length fill
      → data_size + fill_size ≤ u32
      → filled < data_size
      → data_size - filled < fuel
      → filled % fill_size ≡ 0
      → IsFilled filled buffer
      → (final : List (Option ℕ)) × (fill_loop fuel fill fill_size data_size filled buffer
          ≡ some (ok final))
        × IsFilled data_size final
  fill_loop-IsFilled zero filled buffer p l w h m e f = ground arith
  fill_loop-IsFilled (suc fuel) filled buffer p l w h m e f =
      elim (Bool-cases (ltb ((filled + fill_size) % u32) data_size)) [
        | inl more ↦
            let next = filled + fill_size in
            let below : next < data_size = ground (arith, no_wrap filled h w, more) in
            let (copied, f') =
              copy_to-IsFilled filled fill_size buffer f e (omega arith) l (omega arith) in
            let (final, r, g) =
              fill_loop-IsFilled fuel next (overwrite filled fill_size fill buffer) p l w below
                (omega arith) (add-mod_right filled fill_size ∙ e) f' in
            (
              final,
              loop_round fuel filled buffer (overwrite filled fill_size fill buffer) more copied
                  ∙ ap
                      (λ i.
                        fill_loop fuel fill fill_size data_size i
                          (overwrite filled fill_size fill buffer))
                      (no_wrap filled h w)
                  ∙ r,
              g,
            )
        | inr done ↦
            let rest = data_size - filled in
            let short : rest ≤ fill_size = ground (arith, no_wrap filled h w, done) in
            let (copied, g) =
              copy_to-IsFilled filled rest buffer f e short (omega arith) (omega arith) in
            (
              overwrite filled rest fill buffer,
              loop_end fuel filled buffer done ∙ ap some copied,
              subst (λ i. IsFilled i (overwrite filled rest fill buffer)) (all_of_it filled h) g,
            )
      ]
    where
      all_of_it : (filled : ℕ) → filled < data_size → filled + (data_size - filled) ≡ data_size
      all_of_it filled h = omega arith

-- The buffer is as large as the member says.
abbrev pub IsSized : Fill → Type 0
IsSized s = length s.buffer ≡ s.data_size

length-fresh : (n : ℕ) → length (fresh n) ≡ n
length-fresh zero = refl
length-fresh (suc n) = ap suc (length-fresh n)

length-resized : (n : ℕ) (s : Fill) → IsSized s → length (resized n s).buffer ≡ n
unfolding resized
length-resized n s h = ground (arith, length-fresh n)

-- What the two branches of `SetFill` come to.
set_fill_pattern-short :
    (fuel : ℕ) (fill : List ℕ) (fill_size data_size : ℕ) (s : Fill) (buffer : List (Option ℕ))
    → leb data_size fill_size ≡ true
    → copy_to 0 data_size fill (resized data_size s).buffer ≡ ok buffer
    → set_fill_pattern fuel fill fill_size data_size s
      ≡ some (ok (record (resized data_size s) { buffer = buffer; size = data_size }))
unfolding set_fill_pattern
set_fill_pattern-short fuel fill fill_size data_size s buffer h c = rw h (rw c refl)

set_fill_pattern-long :
    (fuel : ℕ) (fill : List ℕ) (fill_size data_size : ℕ) (s : Fill) (buffer : List (Option ℕ))
    → leb data_size fill_size ≡ false
    → fill_loop fuel fill fill_size data_size 0 (resized data_size s).buffer ≡ some (ok buffer)
    → set_fill_pattern fuel fill fill_size data_size s
      ≡ some (ok (record (resized data_size s) { buffer = buffer; size = data_size }))
unfolding set_fill_pattern
set_fill_pattern-long fuel fill fill_size data_size s buffer h c = rw h (rw c refl)

-- Let a pattern of `fill_size` bytes, at least one, be there behind the pointer, and let it and the
-- buffer be small enough for 32 bits. Then `SetFill` returns, within as many rounds as the buffer has
-- bytes, without a write or a read out of bounds; the buffer has the size asked for, which is also the
-- size of the packets, and its byte `i` is the byte `i % fill_size` of the pattern.
pub set_fill_pattern_lem :
    (fill : List ℕ) (fill_size data_size fuel : ℕ) (s : Fill)
    → IsSized s
    → 0 < fill_size
    → fill_size ≤ length fill
    → data_size + fill_size ≤ u32
    → data_size < fuel
    → (s' : Fill) × (set_fill_pattern fuel fill fill_size data_size s ≡ some (ok s'))
      × IsFilled fill fill_size data_size data_size s'.buffer
      × (s'.size ≡ data_size)
set_fill_pattern_lem fill fill_size data_size fuel s sized p l w m =
    elim (Bool-cases (leb data_size fill_size)) [
      | inl short ↦
          let (copied, g) =
            copy_to-IsFilled fill fill_size data_size 0 data_size before start (zero-mod fill_size)
              (ground arith) (ground arith) (omega arith) in
          let buffer = overwrite 0 data_size fill before in
          (
            record (resized data_size s) { buffer = buffer; size = data_size },
            set_fill_pattern-short fuel fill fill_size data_size s buffer short copied,
            subst (λ i. IsFilled fill fill_size data_size i buffer) (nothing_more data_size) g,
            refl,
          )
      | inr long ↦
          let (buffer, r, g) =
            fill_loop-IsFilled fill fill_size data_size fuel 0 before p l w (ground arith)
              (omega arith) (zero-mod fill_size) start in
          (
            record (resized data_size s) { buffer = buffer; size = data_size },
            set_fill_pattern-long fuel fill fill_size data_size s buffer long r,
            g,
            refl,
          )
    ]
  where
    before : List (Option ℕ)
    before = (resized data_size s).buffer

    start : IsFilled fill fill_size data_size 0 before
    start = record { whole = length-resized data_size s sized; bytes = λ i u. ground arith }

    nothing_more : (n : ℕ) → 0 + n ≡ n
    nothing_more n = omega arith

-- With no pattern and a buffer of at least one byte, `SetFill` does not return: whatever the number of
-- rounds, it is not enough.
pub set_fill_pattern_endless :
    (fill : List ℕ) (data_size fuel : ℕ) (s : Fill)
    → 0 < data_size
    → set_fill_pattern fuel fill 0 data_size s ≡ none
unfolding set_fill_pattern
set_fill_pattern_endless fill data_size fuel s p =
    let stuck = endless fuel (resized data_size s).buffer in ground (arith, stuck)
  where
    overwrite-zero : (buffer : List (Option ℕ)) → overwrite 0 0 fill buffer ≡ buffer
    overwrite-zero [] = unfold overwrite in refl
    overwrite-zero (y ∷ buffer) = unfold overwrite in refl

    endless :
        (fuel : ℕ) (buffer : List (Option ℕ)) → fill_loop fuel fill 0 data_size 0 buffer ≡ none
    endless zero buffer = unfold fill_loop in refl
    endless (suc fuel) buffer =
        loop_round fill 0 data_size fuel 0 buffer buffer (ground (arith, p))
          (unfold copy_to in ground (arith, overwrite-zero buffer))
        ∙ endless fuel buffer
