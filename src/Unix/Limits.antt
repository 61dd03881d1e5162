-- ===== src/Unix/Limits.antt =====
-- Resource limits in base/core/lib/unix_stubs.c: resource_val, rlim_t_val, Val_rlim_t, unix_getrlimit and
-- unix_setrlimit, with the constants of Linux on x86-64.
pub mod RoundTrip
use ocaml_core.Prelude.{ℕ, ◌-◌, ◌^◌, ℤ, wrap, signed, Option, none, some, ◌==◌, if◌then◌else◌}
use ocaml_core.Unix.{Reply, value, uerror, failed, Called, gives, errs}

-- `Limit of int64 | Infinity` of core_unix.ml.
pub data Limit : Type 0 where
  limit : ℤ → Limit
  infinity : Limit

pub record Rlimit : Type 0 where
  pub rlim_cur : ℕ
  pub rlim_max : ℕ

pub record Limits : Type 0 where
  pub cur : Limit
  pub max : Limit

-- `~0UL`.
abbrev pub rlim_infinity : ℕ
rlim_infinity = 2 ^ 64 - 1

abbrev pub rlim_t_val : Limit → ℕ
rlim_t_val (limit v) = wrap 64 v
rlim_t_val infinity = rlim_infinity

abbrev pub val_rlim_t : ℕ → Limit
val_rlim_t lim = if lim == rlim_infinity then infinity else limit (signed 64 lim)

-- RLIMIT_CORE, RLIMIT_CPU, RLIMIT_DATA, RLIMIT_FSIZE, RLIMIT_NOFILE, RLIMIT_STACK, RLIMIT_AS.
abbrev pub resource_val : ℕ → Option ℕ
resource_val v_resource =
    if v_resource == 0
    then some 4
    else if v_resource == 1
    then some 0
    else if v_resource == 2
    then some 2
    else if v_resource == 3
    then some 1
    else if v_resource == 4
    then some 7
    else if v_resource == 5
    then some 3
    else if v_resource == 6
    then some 9
    else none

abbrev pub with_resource {ℓ} : {A : Type ℓ} → Option ℕ → (ℕ → Reply A) → Reply A
with_resource none next = failed
with_resource (some resource) next = next resource

abbrev pub on_getrlimit : Called Rlimit → Reply Limits
on_getrlimit (errs e) = uerror e
on_getrlimit (gives rl) =
    value (record { cur = val_rlim_t rl.rlim_cur; max = val_rlim_t rl.rlim_max })

pub unix_getrlimit : (ℕ → Called Rlimit) → ℕ → Reply Limits
unix_getrlimit getrlimit v_resource =
    with_resource (resource_val v_resource) (λ resource. on_getrlimit (getrlimit resource))

-- The value is what the system is afterwards; the stub returns `()`.
abbrev pub on_setrlimit {ℓ} : {A : Type ℓ} → Called A → Reply A
on_setrlimit (errs e) = uerror e
on_setrlimit (gives system) = value system

unfoldable pub unix_setrlimit {ℓ} : {A : Type ℓ} → (ℕ → Rlimit → Called A) → ℕ → Limits → Reply A
unix_setrlimit setrlimit v_resource v_limits = with_resource (resource_val v_resource) (λ resource.
    on_setrlimit (
      setrlimit resource
        (record { rlim_cur = rlim_t_val v_limits.cur; rlim_max = rlim_t_val v_limits.max })))
