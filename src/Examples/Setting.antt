-- ===== src/Examples/Setting.antt =====
-- A memory of a hundred bytes at address 1000, each the low byte of its address.
use ocaml_core.Prelude.{
  ℕ, ◌%◌, ◌^◌, ◌<◌, ◌≡◌, Bool, true, none, some, List, leb, ltb, if◌then◌else◌, ◌&&◌, arith,
}
use ocaml_core.Memory.{Memory}
use ocaml_core.Memory.Store.{IsMapped}
use ocaml_core.Memory.Load.{IsByteMemory}
use ocaml_core.Write.Emit.{IsBuffer}
use ocaml_core.Read.Blocks.{Runtime, volume}
use ocaml_core.Bigarray.{Buf}
use ocaml_core.Bigarray.RoundTrip.{IsBigarray}

abbrev pub memory : Memory
memory a = if leb 1000 a && ltb a 1100 then some (a % 256) else none

pub memory-IsMapped : IsMapped memory 1000 1100
memory-IsMapped = λ a la ah. ground arith

pub memory-IsMapped_from : IsMapped memory 1020 1100
memory-IsMapped_from = λ a la ah. ground arith

pub memory-IsByteMemory : IsByteMemory memory
memory-IsByteMemory = λ a b e. ground arith

pub memory-IsBuffer : IsBuffer memory 1000 1100
memory-IsBuffer = record { mapped = memory-IsMapped; below = omega arith; end = omega arith }

abbrev pub small_alloc : ℕ → List ℕ → Bool
small_alloc size dims = ltb (volume size dims) (2 ^ 40)

pub small_alloc_fits :
    (size : ℕ) (dims : List ℕ) → small_alloc size dims ≡ true → volume size dims < 2 ^ 63
small_alloc_fits size dims h = ground arith

-- A runtime with blocks of up to 2 ^ 20 words.
abbrev pub runtime : Runtime
runtime = record {
  max_wosize = 2 ^ 20;
  max_wosize-lt = omega arith;
  ba_alloc = small_alloc;
  ba_alloc_fits = small_alloc_fits;
}

abbrev pub buffer : Buf
buffer = record { start = 1000; dim = 100 }

pub buffer-IsBigarray : IsBigarray memory buffer
buffer-IsBigarray = record { mapped = memory-IsMapped; low = omega arith }
