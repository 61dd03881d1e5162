-- ===== src/Unix/Files/Kinds.antt =====
-- The mode that unix_mknod_stub makes and core_stat_aux_64 takes apart, in base/core/lib/unix_stubs.c.
use ocaml_core.Prelude.{
  ℕ, zero, suc, ◌+◌, ◌*◌, ◌^◌, ◌<◌, ◌≤◌, ◌≡◌, ◌⊎◌, inl, inr, false, ◌==◌, refl, ap, ◌∙◌, bit_and,
  bit_or, arith,
}
use ocaml_core.Prelude.Bits.{bit_and_shift, bit_and_low, bit_or_disjoint_low}
use ocaml_core.Unix.{Reply, value, uerror, invalid_argument, failed}
use ocaml_core.Unix.Files.{
  s_ifmt, file_kind_table, cst_to_constr, Stat, core_stat_aux_64, Node, mknod_args,
}

-- The node with the mode `type | perm`, as `stat` shows it.
mode_lem :
    (perm type : ℕ)
    → perm < 2 ^ 12
    → type < 16
    → (bit_and (bit_or perm (type * 2 ^ 12)) s_ifmt ≡ type * 2 ^ 12)
      × (bit_and (bit_or perm (type * 2 ^ 12)) 0xfff ≡ perm)
mode_lem perm type low few = rw (bit_or_disjoint_low 12 perm type low) (
  bit_and_shift 12 type perm 15 low ∙ ap (λ (t : ℕ). t * 2 ^ 12) (bit_and_low 4 type ∙ omega arith),
  bit_and_low 12 (type * 2 ^ 12 + perm) ∙ omega arith,
)

-- `stat` shows the kind and the permissions that `mknod` was given; it takes all kinds but those of
-- directories and symbolic links.
abbrev pub IsMade : ℕ → ℕ → Reply Node → Type 0
IsMade kind perm (value node) =
    (s : Stat)
    → s.st_mode ≡ node.mode
    → ((core_stat_aux_64 s).kind ≡ kind) × ((core_stat_aux_64 s).perm ≡ perm)
IsMade kind perm invalid_argument = (kind ≡ 1) ⊎ ((kind ≡ 4) ⊎ (7 ≤ kind))
IsMade kind perm (uerror e) = ⊥
IsMade kind perm failed = ⊥

shown :
    (perm type kind : ℕ)
    → perm < 2 ^ 12
    → type < 16
    → cst_to_constr (type * 2 ^ 12) file_kind_table 0 0 ≡ kind
    → (s : Stat) → s.st_mode ≡ bit_or perm (type * 2 ^ 12)
    → ((core_stat_aux_64 s).kind ≡ kind) × ((core_stat_aux_64 s).perm ≡ perm)
unfolding core_stat_aux_64
shown perm type kind low few e s same =
    let (a, b) = mode_lem perm type low few in
    (
      ap (λ (m : ℕ). cst_to_constr (bit_and m s_ifmt) file_kind_table 0 0) same
          ∙ (ap (λ (x : ℕ). cst_to_constr x file_kind_table 0 0) a ∙ e),
      ap (λ (m : ℕ). bit_and m 0xfff) same ∙ b,
    )

other_kind :
    (makedev : ℕ → ℕ → ℕ) (k v_perm v_major v_minor : ℕ)
    → 7 ≤ k
    → mknod_args makedev k v_perm v_major v_minor ≡ invalid_argument
unfolding mknod_args
other_kind makedev k v_perm v_major v_minor many =
    let k0 : (k == 0) ≡ false = ground (arith, many) in
    let k2 : (k == 2) ≡ false = ground (arith, many) in
    let k3 : (k == 3) ≡ false = ground (arith, many) in
    let k5 : (k == 5) ≡ false = ground (arith, many) in
    let k6 : (k == 6) ≡ false = ground (arith, many) in rw (k0, k2, k3, k5, k6) refl

-- For permissions below 2 ^ 12: `unix_mknod_stub` refuses, with Invalid_argument, no kinds but 1
-- and 4 (directories and symbolic links) and those from 7 on; and where a file has the mode that it
-- makes, `core_stat_aux_64` shows the kind and the permissions that it was given.
pub mknod_args-IsMade :
    (makedev : ℕ → ℕ → ℕ) (v_mode v_perm v_major v_minor : ℕ)
    → v_perm < 2 ^ 12
    → IsMade v_mode v_perm (mknod_args makedev v_mode v_perm v_major v_minor)
unfolding mknod_args cst_to_constr
mknod_args-IsMade makedev zero perm v_major v_minor low = shown perm 8 0 low (omega arith) refl
mknod_args-IsMade makedev (suc zero) perm v_major v_minor low = inl refl
mknod_args-IsMade makedev (suc (suc zero)) perm v_major v_minor low =
    shown perm 2 2 low (omega arith) refl
mknod_args-IsMade makedev (suc (suc (suc zero))) perm v_major v_minor low =
    shown perm 6 3 low (omega arith) refl
mknod_args-IsMade makedev (suc (suc (suc (suc zero)))) perm v_major v_minor low = inr (inl refl)
mknod_args-IsMade makedev (suc (suc (suc (suc (suc zero))))) perm v_major v_minor low =
    shown perm 1 5 low (omega arith) refl
mknod_args-IsMade makedev (suc (suc (suc (suc (suc (suc zero)))))) perm v_major v_minor low =
    shown perm 12 6 low (omega arith) refl
mknod_args-IsMade makedev (suc (suc (suc (suc (suc (suc (suc n))))))) perm v_major v_minor low =
    let many : 7 ≤ suc (suc (suc (suc (suc (suc (suc n)))))) = omega arith in
    rw (other_kind makedev _ perm v_major v_minor many) (inr (inr many))
