-- ===== src/Examples/Channels.antt =====
-- Output: a channel with ten bytes of buffer, three of them in use, and eight bytes of a bigstring: `writev`
-- takes two bytes, would block, takes one, and takes four more.
use ocaml_core.Prelude.{◌≡◌, ℕ, refl, pos, List, [], ◌∷◌, ◌++◌, arith}
use ocaml_core.Bigstring.{wrote, refused}
use ocaml_core.Channel.{Channel}
use ocaml_core.Channel.Output.{World, world_of, bigstring_output_stub}
use ocaml_core.Channel.Output.Kept.{IsKept}
use ocaml_core.Channel.Output.Kept.Stub.{IsChannel, bigstring_output_stub-IsKept}
use ocaml_core.Memory.Store.{put}
use ocaml_core.Bigstring.{returned, io_error, end_of_file, received}
use ocaml_core.Channel.Input.{bigstring_input_stub}
use ocaml_core.Channel.Input.Buffered.{IsFilled, bigstring_input_stub_ended}
use ocaml_core.Channel.Input.Refilled.{bigstring_input_stub_enough}
use ocaml_core.Examples.Setting.{memory, memory-IsMapped, buffer, buffer-IsBigarray}

abbrev channel : Channel
channel = record { offset = 0; buff = 1000; end = 1010; curr = 1003; max = 1010 }

abbrev world : World
world = world_of channel memory []

abbrev held : List ℕ
held = 232 ∷ 233 ∷ 234 ∷ []

abbrev bytes : List ℕ
bytes = 252 ∷ 253 ∷ 254 ∷ 255 ∷ 0 ∷ 1 ∷ 2 ∷ 3 ∷ []

world-IsChannel : IsChannel world held
world-IsChannel = record {
  low = omega arith;
  inside = omega arith;
  curr = refl;
  holds = (refl, (refl, (refl, tt)));
  mapped = λ a la ah. memory-IsMapped a la (omega arith);
}

bigstring_output_stub-IsKept_example : IsKept ([] ++ (held ++ bytes)) bytes 1000 1020 1024 (
    bigstring_output_stub
      (wrote 2 ∷ refused 11 ∷ wrote 1 ∷ wrote 4 ∷ [])
      (pos 4)
      (pos 20)
      (pos 8)
      buffer
      world)
bigstring_output_stub-IsKept_example =
    bigstring_output_stub-IsKept world-IsChannel buffer 20 4 bytes
      (refl, (refl, (refl, (refl, (refl, (refl, (refl, (refl, tt)))))))) (omega arith) (omega arith)
      (wrote 2 ∷ refused 11 ∷ wrote 1 ∷ wrote 4 ∷ []) (omega arith)

-- Three bytes are held for input.
abbrev filled : Channel
filled = record { offset = 3; buff = 1000; end = 1010; curr = 1002; max = 1005 }

abbrev waiting : List ℕ
waiting = 234 ∷ 235 ∷ 236 ∷ []

filled-IsFilled : IsFilled memory filled waiting
filled-IsFilled = record {
  low = omega arith;
  max = refl;
  holds = (refl, (refl, (refl, tt)));
  some_held = omega arith;
}

bigstring_input_stub_enough_example :
    bigstring_input_stub
      (received (1 ∷ 2 ∷ 3 ∷ 4 ∷ []) ∷ [])
      (pos 4)
      (pos 20)
      (pos 5)
      buffer
      filled
      memory
    ≡ (
      returned (pos 5),
      (
        record { offset = 7; buff = 1000; end = 1010; curr = 1000; max = 1002 },
        put (put (put memory 1020 waiting) 1023 (1 ∷ 2 ∷ [])) 1000 (3 ∷ 4 ∷ []),
      ),
    )
bigstring_input_stub_enough_example =
    bigstring_input_stub_enough buffer-IsBigarray filled-IsFilled 20 5 4 (omega arith) (omega arith)
      [] 1 (2 ∷ 3 ∷ 4 ∷ []) (omega arith) (omega arith) (omega arith) (omega arith) (omega arith)
      (λ a la ah. memory-IsMapped a la (omega arith))

bigstring_input_stub_ended_example :
    bigstring_input_stub (received [] ∷ []) (pos 0) (pos 20) (pos 5) buffer filled memory ≡ (
      io_error (pos 3) end_of_file,
      (
        record { offset = 3; buff = 1000; end = 1010; curr = 1005; max = 1005 },
        put memory 1020 waiting,
      ),
    )
bigstring_input_stub_ended_example =
    bigstring_input_stub_ended buffer-IsBigarray filled-IsFilled 20 5 0 (omega arith) (omega arith)
      [] (omega arith)
