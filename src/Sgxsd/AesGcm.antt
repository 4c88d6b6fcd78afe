-- ===== src/Sgxsd/AesGcm.antt =====
-- sgxsd_aes_gcm_run of enclave/c_src/sgxsd-enclave.c, with its two callers. A pointer is the
-- content that it points to, with `none` for NULL; the destination and the tag come back.
pub mod RoundTrip
use contact_discovery_servic.Prelude.{
  ℕ, Bool, true, false, not, ◌&&◌, ◌||◌, ◌==◌, if◌then◌else◌, is_none, Option, none, some, [], ◌++◌,
  take, drop, replicate, length,
}
use contact_discovery_servic.Sgxsd.Types.{
  Bytes, Status, success, invalid_parameter, mac_mismatch, is_success,
}
use contact_discovery_servic.Sgxsd.Crypto.{Crypto}

pub record GcmResult : Type 0 where
  pub status : Status
  pub dst : Option Bytes
  pub mac : Option Bytes

-- What is at a pointer, of which `n` bytes are read.
abbrev pub read : ℕ → Option Bytes → Bytes
read n none = []
read n (some bs) = take n bs

abbrev pub contents : Option Bytes → Bytes
contents none = []
contents (some bs) = bs

-- `memmove` or `memset_s` to the start of a buffer: the bytes behind it stay.
abbrev pub overwrite : Bytes → Option Bytes → Option Bytes
overwrite new none = none
overwrite new (some old) = some (new ++ drop (length new) old)

-- The parameters are refused.
abbrev pub bad_pointers :
    Option Bytes
    → Option Bytes
    → ℕ
    → Option Bytes
    → Option Bytes
    → Option Bytes
    → ℕ
    → Option Bytes
    → Bool
bad_pointers key src src_len dst iv aad aad_len mac =
    is_none key
    || (is_none src || is_none dst) && not (src_len == 0)
    || is_none iv
    || is_none aad && not (aad_len == 0)
    || is_none mac

module _ (c : Crypto) where
  open c use {
    GcmContext, gcm_init, gcm_reset, gcm_aad_inject, gcm_flip, gcm_run, gcm_get_tag, gcm_check_tag,
  }

  -- The context at `br_gcm_flip`.
  abbrev pub start : Bytes → Bytes → Bytes → ℕ → GcmContext
  start key iv aad aad_len =
      let x = gcm_reset (gcm_init key) iv in
      gcm_flip (if aad_len == 0 then x else gcm_aad_inject x (take aad_len aad))

  -- `if (src_len != 0) { memmove(p_dst, p_src, src_len); br_gcm_run(...); }`
  abbrev pub transform : Bool → GcmContext → Bytes → ℕ → GcmContext × Bytes
  transform encrypt x src src_len = if src_len == 0 then (x, []) else gcm_run encrypt x src

  -- The tag is written, or checked, with the destination zeroed if it is wrong.
  abbrev pub finish : Bool → GcmContext → ℕ → Option Bytes → Bytes → GcmResult
  finish true x src_len dst mac = record { status = success; dst = dst; mac = some (gcm_get_tag x) }
  finish false x src_len dst mac =
      if gcm_check_tag x mac
      then record { status = success; dst = dst; mac = some mac }
      else record {
        status = mac_mismatch;
        dst = overwrite (replicate src_len 0) dst;
        mac = some mac;
      }

  unfoldable pub aes_gcm_run :
      Bool
      → Option Bytes
      → Option Bytes
      → ℕ
      → Option Bytes
      → Option Bytes
      → Option Bytes
      → ℕ
      → Option Bytes
      → GcmResult
  aes_gcm_run encrypt key src src_len dst iv aad aad_len mac =
      if bad_pointers key src src_len dst iv aad aad_len mac
      then record { status = invalid_parameter; dst = dst; mac = mac }
      else (let x = start (contents key) (contents iv) (contents aad) aad_len in
          let (x', new) = transform encrypt x (read src_len src) src_len in
          finish encrypt x' src_len (overwrite new dst) (contents mac))

  unfoldable pub aes_gcm_encrypt :
      Option Bytes
      → Option Bytes
      → ℕ
      → Option Bytes
      → Option Bytes
      → Option Bytes
      → ℕ
      → Option Bytes
      → GcmResult
  aes_gcm_encrypt = aes_gcm_run true

  unfoldable pub aes_gcm_decrypt :
      Option Bytes
      → Option Bytes
      → ℕ
      → Option Bytes
      → Option Bytes
      → Option Bytes
      → ℕ
      → Option Bytes
      → GcmResult
  aes_gcm_decrypt = aes_gcm_run false
