-- ===== src/Unix/Files.antt =====
-- unix_mknod_stub, the kinds of files in core_stat_aux_64 with cst_to_constr, and core_unix_flock of
-- base/core/lib/unix_stubs.c, with the constants of Linux.
pub mod Kinds
use ocaml_core.Prelude.{
  ℕ, zero, suc, ◌+◌, ◌*◌, ◌^◌, List, [], ◌∷◌, Bool, true, false, bit_and, bit_or, ◌==◌,
  if◌then◌else◌,
}
use ocaml_core.Unix.{Reply, value, uerror, invalid_argument, Called, gives, errs}

abbrev pub s_ififo : ℕ
s_ififo = 1 * 2 ^ 12

abbrev pub s_ifchr : ℕ
s_ifchr = 2 * 2 ^ 12

abbrev pub s_ifdir : ℕ
s_ifdir = 4 * 2 ^ 12

abbrev pub s_ifblk : ℕ
s_ifblk = 6 * 2 ^ 12

abbrev pub s_ifreg : ℕ
s_ifreg = 8 * 2 ^ 12

abbrev pub s_iflnk : ℕ
s_iflnk = 10 * 2 ^ 12

abbrev pub s_ifsock : ℕ
s_ifsock = 12 * 2 ^ 12

abbrev pub s_ifmt : ℕ
s_ifmt = 15 * 2 ^ 12

abbrev pub file_kind_table : List ℕ
file_kind_table = s_ifreg ∷ s_ifdir ∷ s_ifchr ∷ s_ifblk ∷ s_iflnk ∷ s_ififo ∷ s_ifsock ∷ []

-- The loop over the table, from the index `i` on.
pub cst_to_constr : ℕ → List ℕ → ℕ → ℕ → ℕ
cst_to_constr n [] i deflt = deflt
cst_to_constr n (x ∷ tbl) i deflt =
    let rest = cst_to_constr n tbl (i + 1) deflt in if n == x then i else rest

-- The members of `struct stat64`; a time is in seconds.
pub record Stat : Type 0 where
  pub st_dev : ℕ
  pub st_ino : ℕ
  pub st_mode : ℕ
  pub st_nlink : ℕ
  pub st_uid : ℕ
  pub st_gid : ℕ
  pub st_rdev : ℕ
  pub st_size : ℕ
  pub st_atime : ℕ
  pub st_mtime : ℕ
  pub st_ctime : ℕ

-- The fields of the block that OCaml gets, in their order.
pub record Stats : Type 0 where
  pub dev : ℕ
  pub ino : ℕ
  pub kind : ℕ
  pub perm : ℕ
  pub nlink : ℕ
  pub uid : ℕ
  pub gid : ℕ
  pub rdev : ℕ
  pub size : ℕ
  pub atime : ℕ
  pub mtime : ℕ
  pub ctime : ℕ

pub core_stat_aux_64 : Stat → Stats
core_stat_aux_64 buf = record {
  dev = buf.st_dev;
  ino = buf.st_ino;
  kind = cst_to_constr (bit_and buf.st_mode s_ifmt) file_kind_table 0 0;
  perm = bit_and buf.st_mode 0xfff;
  nlink = buf.st_nlink;
  uid = buf.st_uid;
  gid = buf.st_gid;
  rdev = buf.st_rdev;
  size = buf.st_size;
  atime = buf.st_atime;
  mtime = buf.st_mtime;
  ctime = buf.st_ctime;
}

-- The arguments of `mknod`: the mode and the device.
pub record Node : Type 0 where
  pub mode : ℕ
  pub dev : ℕ

-- The `switch` over the kind; `makedev` is the macro of the C library.
pub mknod_args : (ℕ → ℕ → ℕ) → ℕ → ℕ → ℕ → ℕ → Reply Node
mknod_args makedev v_mode v_perm v_major v_minor =
    if v_mode == 0
    then value (record { mode = bit_or v_perm s_ifreg; dev = 0 })
    else if v_mode == 2
    then value (record { mode = bit_or v_perm s_ifchr; dev = makedev v_major v_minor })
    else if v_mode == 3
    then value (record { mode = bit_or v_perm s_ifblk; dev = makedev v_major v_minor })
    else if v_mode == 5
    then value (record { mode = bit_or v_perm s_ififo; dev = 0 })
    else if v_mode == 6
    then value (record { mode = bit_or v_perm s_ifsock; dev = 0 })
    else invalid_argument

abbrev pub lock_sh : ℕ
lock_sh = 1

abbrev pub lock_ex : ℕ
lock_ex = 2

abbrev pub lock_nb : ℕ
lock_nb = 4

abbrev pub lock_un : ℕ
lock_un = 8

abbrev pub ewouldblock : ℕ
ewouldblock = 11

abbrev pub with_operation : ℕ → (ℕ → Reply Bool) → Reply Bool
with_operation lock_type next =
    if lock_type == 0
    then next lock_sh
    else if lock_type == 1
    then next lock_ex
    else if lock_type == 2
    then next lock_un
    else invalid_argument

abbrev pub on_flock : Called ℕ → Reply Bool
on_flock (gives r) = value true
on_flock (errs errno) = if errno == ewouldblock then value false else uerror errno

-- `flock` is the call on the descriptor at hand.
pub core_unix_flock : (ℕ → Called ℕ) → ℕ → Reply Bool
core_unix_flock flock v_lock_type =
    with_operation v_lock_type (λ operation. on_flock (flock (bit_or operation lock_nb)))
