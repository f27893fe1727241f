-- ===== src/Communication/Fill.antt =====
-- The send buffer of udp-orchestration-communication-app.cpp: `SetDataSize` and the three `SetFill`.
pub mod Pattern
use inc_sim.Base.{
  ℕ, zero, suc, ◌+◌, ◌-◌, ◌%◌, ◌≡◌, Bool, true, false, ◌&&◌, Option, none, some, List, [], ◌∷◌,
  ◌++◌, if◌then◌else◌, ltb, leb, ◌==◌, length, map,
}
use inc_sim.Base.Number.{u32}
use inc_sim.Base.Text.{Text}
use inc_sim.Base.Outcome.{Outcome, ok, err, bad_index, ◌>>=◌}

-- The members `m_data`, `m_dataSize` and `m_size`. The buffer has the bytes that were allocated, of
-- which `none` was not written yet.
pub record Fill : Type 0 where
  pub buffer : List (Option ℕ)
  pub data_size : ℕ
  pub size : ℕ

-- `new uint8_t[n]`
abbrev pub fresh : ℕ → List (Option ℕ)
fresh zero = []
fresh (suc n) = none ∷ fresh n

-- `k` bytes from the front of `bytes` to position `i` of the buffer.
unfoldable pub overwrite : ℕ → ℕ → List ℕ → List (Option ℕ) → List (Option ℕ)
overwrite i k bytes [] = []
overwrite (suc i) k bytes (y ∷ buffer) = y ∷ overwrite i k bytes buffer
overwrite zero zero bytes (y ∷ buffer) = y ∷ buffer
overwrite zero (suc k) [] (y ∷ buffer) = y ∷ buffer
overwrite zero (suc k) (x ∷ bytes) (y ∷ buffer) = some x ∷ overwrite zero k bytes buffer

-- `memcpy (&m_data[i], bytes, k)`, which is undefined where either range is too short.
unfoldable pub copy_to : ℕ → ℕ → List ℕ → List (Option ℕ) → Outcome (List (Option ℕ))
unfolding overwrite
copy_to i k bytes buffer =
    if leb (i + k) (length buffer) && leb k (length bytes)
    then ok (overwrite i k bytes buffer)
    else err bad_index

-- The buffer is replaced unless it has the size.
unfoldable pub resized : ℕ → Fill → Fill
resized n s = if n == s.data_size then s else record s { buffer = fresh n; data_size = n }

unfoldable pub set_data_size : ℕ → Fill → Fill
set_data_size n s = record { buffer = []; data_size = 0; size = n }

-- `SetFill (std::string)`: the bytes of the string, and the zero byte behind them.
unfoldable pub set_fill_text : Text → Fill → Outcome Fill
unfolding resized copy_to
set_fill_text fill s =
    let n = (length fill + 1) % u32 in
    let s' = resized n s in
    (do
      buffer ← copy_to 0 n (fill ++ 0 ∷ []) s'.buffer
      ok (record s' { buffer = buffer; size = n }))

-- `memset (m_data, fill, n)`
abbrev pub all_bytes : ℕ → ℕ → List ℕ
all_bytes fill zero = []
all_bytes fill (suc n) = fill ∷ all_bytes fill n

-- `SetFill (uint8_t, uint32_t)`
unfoldable pub set_fill_byte : ℕ → ℕ → Fill → Outcome Fill
unfolding resized copy_to
set_fill_byte fill n s =
    let s' = resized n s in
    (do
      buffer ← copy_to 0 n (all_bytes fill n) s'.buffer
      ok (record s' { buffer = buffer; size = n }))

-- The loop of whole fills from `filled` on, and then the last one; `none` is more rounds than the fuel.
unfoldable pub fill_loop :
    ℕ → List ℕ → ℕ → ℕ → ℕ → List (Option ℕ) → Option (Outcome (List (Option ℕ)))
unfolding copy_to
fill_loop zero fill fill_size data_size filled buffer = none
fill_loop (suc fuel) fill fill_size data_size filled buffer =
    let next : List (Option ℕ) → Option (Outcome (List (Option ℕ))) =
      fill_loop fuel fill fill_size data_size ((filled + fill_size) % u32) in
    if ltb ((filled + fill_size) % u32) data_size
    then (elim (copy_to filled fill_size fill buffer) [
      | ok buffer' ↦ next buffer'
      | err e ↦ some (err e)
    ])
    else some (copy_to filled (data_size - filled) fill buffer)

-- `SetFill (uint8_t *, uint32_t, uint32_t)`, with the bytes that the pointer points to.
unfoldable pub set_fill_pattern : ℕ → List ℕ → ℕ → ℕ → Fill → Option (Outcome Fill)
unfolding resized copy_to fill_loop
set_fill_pattern fuel fill fill_size data_size s =
    let s' = resized data_size s in
    let filled : Outcome (List (Option ℕ)) → Outcome Fill =
      λ o. o >>= (λ buffer. ok (record s' { buffer = buffer; size = data_size })) in
    if leb data_size fill_size
    then some (filled (copy_to 0 data_size fill s'.buffer))
    else elim (fill_loop fuel fill fill_size data_size 0 s'.buffer) [
      | none ↦ none
      | some o ↦ some (filled o)
    ]
