-- ===== src/Pointers.antt =====
-- base/bin_prot/lib/common_stubs.c: pointers into a buffer, the heap cells that hold a reading
-- position (`sptr_ptr`), and the copies between buffers and strings.
pub mod Positions
use ocaml_core.Prelude.{
  ℕ, ◌+◌, ◌-◌, ◌%◌, ◌^◌, ℤ, wrap, List, ◌++◌, length, take, drop, Option, none, some, ltb,
  if◌then◌else◌,
}
use ocaml_core.Exec.{Exec, Outcome, ok, fault, access, pure, ◌>>=◌}
use ocaml_core.Memory.{Memory, ptr_add, load, memcpy, memmove}
use ocaml_core.Read.Pointer.{Reader}
use ocaml_core.Bigarray.{Buf, ptr_diff}

pub get_buf_ptr_stub : Buf → ℤ → ℕ
get_buf_ptr_stub v_buf v_pos = ptr_add v_buf.start (wrap 64 v_pos)

pub get_buf_pos_stub : ℕ → ℕ → ℤ
get_buf_pos_stub v_start v_cur = ptr_diff v_cur v_start

pub get_safe_buf_pos_stub : Buf → ℕ → ℕ → ℤ
get_safe_buf_pos_stub v_buf v_start v_cur = get_buf_pos_stub v_start v_cur

pub shift_sptr_stub : ℕ → ℤ → ℕ
shift_sptr_stub sptr v_n = ptr_add sptr (wrap 64 v_n)

-- The cell that `sptr_ptr` points to; `none` once it is freed. Touching it then is a fault.
abbrev pub SptrPtr : Type 0
SptrPtr = Option ℕ

abbrev pub on_cell : {A : Type 0} → (ℕ → Outcome A × SptrPtr) → Exec SptrPtr A
on_cell f none = (fault, none)
on_cell f (some sptr) = f sptr

pub alloc_sptr_ptr_stub : Buf → ℤ → SptrPtr
alloc_sptr_ptr_stub v_buf v_pos = some (get_buf_ptr_stub v_buf v_pos)

unfoldable pub dealloc_sptr_ptr_stub : Buf → Exec SptrPtr ℤ
dealloc_sptr_ptr_stub v_buf = on_cell (λ sptr. (ok (ptr_diff sptr v_buf.start), none))

pub set_sptr_ptr_stub : Buf → ℤ → Exec SptrPtr (Unit {0})
set_sptr_ptr_stub v_buf v_pos =
    on_cell (λ sptr. (ok tt, some (ptr_add v_buf.start (wrap 64 v_pos))))

pub get_sptr_ptr_stub : Buf → Exec SptrPtr ℤ
get_sptr_ptr_stub v_buf = on_cell (λ sptr. (ok (ptr_diff sptr v_buf.start), some sptr))

pub get_sptr_ptr_sptr_stub : Exec SptrPtr ℕ
get_sptr_ptr_sptr_stub = on_cell (λ sptr. (ok sptr, some sptr))

pub set_sptr_ptr_sptr_stub : ℕ → Exec SptrPtr (Unit {0})
set_sptr_ptr_sptr_stub new = on_cell (λ sptr. (ok tt, some new))

pub get_eptr_from_sptr_ptr : ℤ → Exec SptrPtr ℕ
get_eptr_from_sptr_ptr v_pos = on_cell (λ sptr. (ok (ptr_add sptr (wrap 64 v_pos)), some sptr))

-- A reader that is given the cell.
abbrev pub on_sptr_ptr : {A : Type 0} → Reader A → Exec SptrPtr A
on_sptr_ptr read = on_cell (λ sptr. let (r, next) = read sptr in (r, some next))

-- The bytes from `sptr` up to `eptr` as a string.
pub get_ptr_string_stub : ℕ → ℕ → Exec Memory (List ℕ)
get_ptr_string_stub sptr eptr m = access (load m sptr ((eptr + 2 ^ 64 - sptr) % 2 ^ 64)) m

abbrev pub get_buf : Buf → ℤ → ℕ
get_buf v_buf v_pos = ptr_add v_buf.start (wrap 64 v_pos)

pub bin_prot_blit_string_buf_stub : ℤ → List ℕ → ℤ → Buf → ℤ → Exec Memory (Unit {0})
bin_prot_blit_string_buf_stub v_src_pos v_str v_dst_pos v_buf v_len =
    memcpy (get_buf v_buf v_dst_pos) (drop (wrap 64 v_src_pos) v_str) (wrap 64 v_len)

-- The string that `v_str` becomes; writing past its end is a fault.
pub bin_prot_blit_buf_string_stub : ℤ → Buf → ℤ → List ℕ → ℤ → Exec Memory (List ℕ)
bin_prot_blit_buf_string_stub v_src_pos v_buf v_dst_pos v_str v_len = do
  let dst = wrap 64 v_dst_pos
  let len = wrap 64 v_len
  bs ← (λ m. access (load m (get_buf v_buf v_src_pos) len) m)
  if ltb (length v_str) (dst + len)
      then (λ m. (fault, m))
      else pure (take dst v_str ++ (bs ++ drop (dst + len) v_str))

pub bin_prot_blit_buf_stub : ℤ → Buf → ℤ → Buf → ℤ → Exec Memory (Unit {0})
bin_prot_blit_buf_stub v_src_pos v_src v_dst_pos v_dst v_len =
    memmove (ptr_add v_dst.start (wrap 64 v_dst_pos)) (ptr_add v_src.start (wrap 64 v_src_pos))
      (wrap 64 v_len)
