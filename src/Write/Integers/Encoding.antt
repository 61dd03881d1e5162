-- ===== src/Write/Integers/Encoding.antt =====
-- The bytes of an integer.
use ocaml_core.Prelude.{
  ℕ, ◌+◌, ◌-◌, ◌^◌, ◌≤◌, ◌<◌, ◌≡◌, ap, ◌∙◌, ◌≤ℤ◌, ◌<ℤ◌, ℤ, pos, negsuc, wrap, cast, List, [], ◌∷◌,
  ltb, if◌then◌else◌, arith,
}
use ocaml_core.Exec.{ok}
use ocaml_core.Memory.{Memory}
use ocaml_core.Memory.Store.{put}
use ocaml_core.Endian.{ByteOrder, le_bytes}
use ocaml_core.Endian.Encoded.{le16enc_lem, le32enc_lem, le64enc_lem}
use ocaml_core.Write.Emit.{emit, IsBuffer, store_fits, store_behind, checked-emit}
use ocaml_core.Write.Integers.{
  write_small_int, write_neg_int8, write_int16, write_int32, write_int64, write_int_nat0,
  write_int_negative, write_int, write_nat0, do_write_int16, do_write_int32, do_write_int64,
}

-- The protocol: a byte below 128 stands for itself, and the codes 0xff to 0xfc announce a negative
-- byte, two, four and eight bytes.
abbrev pub int_bytes : ℤ → List ℕ
int_bytes (pos n) =
    if ltb n 0x80
    then n ∷ []
    else if ltb n 0x8000
    then 0xfe ∷ le_bytes 2 n
    else if ltb n 0x8000_0000
    then 0xfd ∷ le_bytes 4 n
    else 0xfc ∷ le_bytes 8 n
int_bytes (negsuc n) =
    if ltb n 0x80
    then 0xff ∷ (255 - n) ∷ []
    else if ltb n 0x8000
    then 0xfe ∷ le_bytes 2 (2 ^ 16 - 1 - n)
    else if ltb n 0x8000_0000
    then 0xfd ∷ le_bytes 4 (2 ^ 32 - 1 - n)
    else 0xfc ∷ le_bytes 8 (2 ^ 64 - 1 - n)

abbrev pub nat0_bytes : ℕ → List ℕ
nat0_bytes n =
    if ltb n 0x80
    then n ∷ []
    else if ltb n 0x1_0000
    then 0xfe ∷ le_bytes 2 n
    else if ltb n 0x1_0000_0000
    then 0xfd ∷ le_bytes 4 n
    else 0xfc ∷ le_bytes 8 n

-- A `long` of the machine.
abbrev pub IsLong : ℤ → Type 0
IsLong n = (negsuc (2 ^ 63 - 1) ≤ℤ n) × (n <ℤ pos (2 ^ 63))

module _ {m : Memory} {sptr eptr : ℕ} (h : IsBuffer m sptr eptr) where
  small_int-emit : (n : ℤ) → write_small_int sptr eptr n m ≡ emit (wrap 8 n ∷ []) sptr eptr m
  unfolding write_small_int emit
  small_int-emit n = ground (arith, h.below, store_fits (wrap 8 n ∷ []) h)

  neg_int8-emit : (n : ℤ) → write_neg_int8 sptr eptr n m ≡ emit (0xff ∷ wrap 8 n ∷ []) sptr eptr m
  unfolding write_neg_int8
  neg_int8-emit n =
      checked-emit (0xff ∷ wrap 8 n ∷ []) _ h (omega arith)
        (λ fits. store_behind 0xff (wrap 8 n ∷ []) h (omega arith))

  module _ (host : ByteOrder) where
    int16-emit :
        (n : ℤ) → write_int16 host sptr eptr n m ≡ emit (0xfe ∷ le_bytes 2 (wrap 16 n)) sptr eptr m
    unfolding write_int16
    int16-emit n =
        checked-emit (0xfe ∷ le_bytes 2 (wrap 16 n)) _ h (omega arith)
          (λ fits. rw le16enc_lem (store_behind 0xfe (le_bytes 2 (wrap 16 n)) h (omega arith)))

    int32-emit :
        (n : ℤ) → write_int32 host sptr eptr n m ≡ emit (0xfd ∷ le_bytes 4 (wrap 32 n)) sptr eptr m
    unfolding write_int32
    int32-emit n =
        checked-emit (0xfd ∷ le_bytes 4 (wrap 32 n)) _ h (omega arith)
          (λ fits. rw le32enc_lem (store_behind 0xfd (le_bytes 4 (wrap 32 n)) h (omega arith)))

    int64-emit :
        (n : ℤ) → write_int64 host sptr eptr n m ≡ emit (0xfc ∷ le_bytes 8 (wrap 64 n)) sptr eptr m
    unfolding write_int64
    int64-emit n =
        checked-emit (0xfc ∷ le_bytes 8 (wrap 64 n)) _ h (omega arith)
          (λ fits. rw le64enc_lem (store_behind 0xfc (le_bytes 8 (wrap 64 n)) h (omega arith)))

    nat8-emit :
        (n : ℕ)
        → n < 2 ^ 8
        → write_small_int sptr eptr (cast 8 (pos n)) m ≡ emit (n ∷ []) sptr eptr m
    nat8-emit n small =
        let e : wrap 8 (cast 8 (pos n)) ≡ n = ground arith in
        small_int-emit (cast 8 (pos n)) ∙ ap (λ x. emit (x ∷ []) sptr eptr m) e

    nat16-emit :
        (n : ℕ)
        → n < 2 ^ 16
        → write_int16 host sptr eptr (cast 16 (pos n)) m ≡ emit (0xfe ∷ le_bytes 2 n) sptr eptr m
    nat16-emit n small =
        let e : wrap 16 (cast 16 (pos n)) ≡ n = ground arith in
        int16-emit (cast 16 (pos n)) ∙ ap (λ x. emit (0xfe ∷ le_bytes 2 x) sptr eptr m) e

    nat32-emit :
        (n : ℕ)
        → n < 2 ^ 32
        → write_int32 host sptr eptr (cast 32 (pos n)) m ≡ emit (0xfd ∷ le_bytes 4 n) sptr eptr m
    nat32-emit n small =
        let e : wrap 32 (cast 32 (pos n)) ≡ n = ground arith in
        int32-emit (cast 32 (pos n)) ∙ ap (λ x. emit (0xfd ∷ le_bytes 4 x) sptr eptr m) e

    nat64-emit :
        (n : ℕ)
        → n < 2 ^ 64
        → write_int64 host sptr eptr (cast 64 (pos n)) m ≡ emit (0xfc ∷ le_bytes 8 n) sptr eptr m
    nat64-emit n small =
        let e : wrap 64 (cast 64 (pos n)) ≡ n = ground arith in
        int64-emit (cast 64 (pos n)) ∙ ap (λ x. emit (0xfc ∷ le_bytes 8 x) sptr eptr m) e

    int_nat0-emit :
        (n : ℕ)
        → n < 2 ^ 63
        → write_int_nat0 host sptr eptr n m ≡ emit (int_bytes (pos n)) sptr eptr m
    unfolding write_int_nat0
    int_nat0-emit n small = ground (arith, nat8-emit n, nat16-emit n, nat32-emit n, nat64-emit n)

    int_negative-emit :
        (n : ℕ)
        → n < 2 ^ 63
        → write_int_negative host sptr eptr (negsuc n) m ≡ emit (int_bytes (negsuc n)) sptr eptr m
    unfolding write_int_negative
    int_negative-emit n small = ground (
      arith,
      neg_int8-emit (cast 8 (negsuc n)),
      int16-emit (cast 16 (negsuc n)),
      int32-emit (cast 32 (negsuc n)),
      int64-emit (negsuc n),
    )

    -- For every `long` and a mapped buffer below 2 ^ 63, `write_int` stores the protocol's bytes
    -- for the number and returns the pointer behind them if they end at `eptr` or before; otherwise
    -- it raises `Buffer_short` and the memory is as before.
    pub write_int-emit :
        (n : ℤ) → IsLong n → write_int host sptr eptr n m ≡ emit (int_bytes n) sptr eptr m
    unfolding write_int
    write_int-emit (pos n) (lo, hi) = ground (arith, int_nat0-emit n (omega arith))
    write_int-emit (negsuc n) (lo, hi) = ground (arith, int_negative-emit n (omega arith))

    -- For every `unsigned long` and a mapped buffer below 2 ^ 63, `write_nat0` stores the
    -- protocol's bytes for the number and returns the pointer behind them if they end at `eptr` or
    -- before; otherwise it raises `Buffer_short` and the memory is as before.
    pub write_nat0-emit :
        (n : ℕ) → n < 2 ^ 64 → write_nat0 host sptr eptr n m ≡ emit (nat0_bytes n) sptr eptr m
    unfolding write_nat0
    write_nat0-emit n small = ground (
      arith,
      small_int-emit (cast 8 (pos n)),
      int16-emit (cast 16 (pos n)),
      int32-emit (cast 32 (pos n)),
      int64-emit (cast 64 (pos n)),
    )

    -- The headers of the blocks.
    pub do_write_int16-put :
        (n : ℕ)
        → n < 2 ^ 16
        → sptr + 3 ≤ eptr
        → do_write_int16 host sptr (cast 16 (pos n)) m ≡ (ok tt, put m sptr (0xfe ∷ le_bytes 2 n))
    unfolding do_write_int16
    do_write_int16-put n small fits =
        let e : wrap 16 (cast 16 (pos n)) ≡ n = ground arith in
        rw (e, le16enc_lem) (store_behind 0xfe (le_bytes 2 n) h (omega arith))

    pub do_write_int32-put :
        (n : ℕ)
        → n < 2 ^ 32
        → sptr + 5 ≤ eptr
        → do_write_int32 host sptr (cast 32 (pos n)) m ≡ (ok tt, put m sptr (0xfd ∷ le_bytes 4 n))
    unfolding do_write_int32
    do_write_int32-put n small fits =
        let e : wrap 32 (cast 32 (pos n)) ≡ n = ground arith in
        rw (e, le32enc_lem) (store_behind 0xfd (le_bytes 4 n) h (omega arith))

    pub do_write_int64-put :
        (n : ℕ)
        → n < 2 ^ 64
        → sptr + 9 ≤ eptr
        → do_write_int64 host sptr (cast 64 (pos n)) m ≡ (ok tt, put m sptr (0xfc ∷ le_bytes 8 n))
    unfolding do_write_int64
    do_write_int64-put n small fits =
        let e : wrap 64 (cast 64 (pos n)) ≡ n = ground arith in
        rw (e, le64enc_lem) (store_behind 0xfc (le_bytes 8 n) h (omega arith))
