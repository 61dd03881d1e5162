-- ===== src/Channel.antt =====
-- The channel functions of base/core/lib/bigstring_stubs.c: bigstring_input_stub and
-- bigstring_output_stub, which read and write a bigstring through the buffer of an OCaml channel.
-- The mutex of the channel has no effect: no other thread uses the channel meanwhile.
pub mod Input
pub mod Output
use ocaml_core.Prelude.{ℕ, ◌+◌}

-- The members of `struct channel` that the stubs use; the buffer goes from `buff` to `end`.
pub record Channel : Type 0 where
  pub offset : ℕ
  pub buff : ℕ
  pub end : ℕ
  pub curr : ℕ
  pub max : ℕ

abbrev pub set_curr : ℕ → Channel → Channel
set_curr p chan = record {
  offset = chan.offset;
  buff = chan.buff;
  end = chan.end;
  curr = p;
  max = chan.max;
}

abbrev pub set_max : ℕ → Channel → Channel
set_max p chan = record {
  offset = chan.offset;
  buff = chan.buff;
  end = chan.end;
  curr = chan.curr;
  max = p;
}

abbrev pub advance : ℕ → Channel → Channel
advance n chan = record {
  offset = chan.offset + n;
  buff = chan.buff;
  end = chan.end;
  curr = chan.curr;
  max = chan.max;
}

-- `errno` values of Linux.
abbrev pub eintr : ℕ
eintr = 4

abbrev pub eagain : ℕ
eagain = 11

abbrev pub ewouldblock : ℕ
ewouldblock = 11
