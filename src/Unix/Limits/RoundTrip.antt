-- ===== src/Unix/Limits/RoundTrip.antt =====
-- A limit that unix_setrlimit of base/core/lib/unix_stubs.c sets is the one that unix_getrlimit reads.
use ocaml_core.Prelude.{
  ℕ, ◌^◌, ◌<◌, ◌≡◌, refl, sym, ◌∙◌, pos, negsuc, Option-cases, inl, inr, arith,
}
use ocaml_core.Unix.{Reply, value, failed, Called, gives, errs}
use ocaml_core.Unix.Limits.{
  Limit, limit, infinity, Rlimit, Limits, rlim_t_val, val_rlim_t, resource_val, on_setrlimit,
  unix_getrlimit, unix_setrlimit,
}

-- An `int64`, and not the one whose bits are those of RLIM_INFINITY.
abbrev pub IsLimit : Limit → Type 0
IsLimit infinity = Unit {0}
IsLimit (limit (pos n)) = n < 2 ^ 63
IsLimit (limit (negsuc n)) = (0 < n) × (n < 2 ^ 63)

pub val_rlim_t-rlim_t_val : (v : Limit) → IsLimit v → val_rlim_t (rlim_t_val v) ≡ v
val_rlim_t-rlim_t_val infinity h = refl
val_rlim_t-rlim_t_val (limit (pos n)) h = ground arith
val_rlim_t-rlim_t_val (limit (negsuc n)) h = ground arith

setrlimit_inv :
    (c : Called (ℕ → Called Rlimit)) (after : ℕ → Called Rlimit)
    → on_setrlimit c ≡ value after
    → c ≡ gives after
setrlimit_inv (gives system) after h = cc
setrlimit_inv (errs e) after h = cc

-- If `unix_setrlimit` of a resource and two limits succeeds on a system in which `getrlimit` gives
-- what `setrlimit` has set, and each limit is Infinity or a 64-bit signed integer other than -1,
-- then `unix_getrlimit` of the resource gives these limits.
pub unix_getrlimit-unix_setrlimit :
    (setrlimit : ℕ → Rlimit → Called (ℕ → Called Rlimit)) (after : ℕ → Called Rlimit)
    (v_resource : ℕ) (v_limits : Limits)
    → ((resource : ℕ) (rl : Rlimit) (system : ℕ → Called Rlimit)
        → setrlimit resource rl ≡ gives system
        → system resource ≡ gives rl)
    → IsLimit v_limits.cur
    → IsLimit v_limits.max
    → unix_setrlimit setrlimit v_resource v_limits ≡ value after
    → unix_getrlimit after v_resource ≡ value v_limits
unfolding unix_getrlimit unix_setrlimit
unix_getrlimit-unix_setrlimit setrlimit after v_resource v_limits stores low_cur low_max set_well =
    elim (Option-cases (resource_val v_resource)) [
      | inl unknown ↦
          let no_value : ◌≡◌ {A = Reply (ℕ → Called Rlimit)} failed (value after) =
            sym (rw unknown refl) ∙ set_well in
          cc
      | inr (resource, known) ↦
          let rl : Rlimit = record {
            rlim_cur = rlim_t_val v_limits.cur;
            rlim_max = rlim_t_val v_limits.max;
          } in
          let set_here : on_setrlimit (setrlimit resource rl) ≡ value after =
            sym (rw known refl) ∙ set_well in
          let stored : after resource ≡ gives rl =
            stores resource rl after (setrlimit_inv (setrlimit resource rl) after set_here) in
          rw
            (
              known,
              stored,
              val_rlim_t-rlim_t_val v_limits.cur low_cur,
              val_rlim_t-rlim_t_val v_limits.max low_max,
            )
            refl
    ]

-- The limit -1 reads back as no limit.
pub val_rlim_t_minus_one : val_rlim_t (rlim_t_val (limit (negsuc 0))) ≡ infinity
val_rlim_t_minus_one = refl
