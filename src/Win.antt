-- ===== src/Win.antt =====
-- src/win.rs and src/ntapi/helpers.rs: what is made of the answers of the NT kernel. The calls of the
-- kernel are arguments: the status that they return.
pub mod Waits
pub mod Objects
pub mod Paths
use xshm.Prelude.{
  ℕ, zero, suc, ◌+◌, ◌-◌, ◌*◌, ◌/◌, ◌^◌, ◌%◌, min, Bool, true, false, ltb, ◌==◌, if◌then◌else◌,
  Option, none, some,
}
use xshm.Word.{ℤ, pos, negsuc}
use xshm.Error.{Result, ok, err, windows_error}

abbrev pub status_success : ℤ
status_success = pos 0

abbrev pub status_wait_0 : ℤ
status_wait_0 = pos 0

abbrev pub status_timeout : ℤ
status_timeout = pos 0x102

unfoldable pub nt_success : ℤ → Bool
nt_success (pos n) = true
nt_success (negsuc n) = false

-- the bits of a 32-bit status
abbrev pub status_bits : ℤ → ℕ
status_bits (pos n) = n % 2 ^ 32
status_bits (negsuc n) = 2 ^ 32 - 1 - n % 2 ^ 32

-- A duration of so many nanoseconds as the kernel takes it: negative, in units of 100 nanoseconds.
unfoldable pub duration_to_nt_timeout : ℕ → ℤ
duration_to_nt_timeout nanos =
    if nanos / 100 == 0
    then (if nanos == 0 then pos 0 else negsuc 0)
    else negsuc (min (nanos / 100) (2 ^ 63 - 1) - 1)

-- `wait_any` on so many handles, for the status of `NtWaitForMultipleObjects`.
unfoldable pub wait_any : ℕ → ℤ → Result (Option ℕ)
wait_any zero status = ok none
wait_any (suc handles) (negsuc n) = err (windows_error (status_bits (negsuc n)))
wait_any (suc handles) (pos s) =
    if s == 0x102
    then ok none
    else if ltb s (suc handles)
    then ok (some s)
    else err (windows_error (status_bits (pos s)))

-- The match on the status of the wait on a process, in `is_process_alive`.
unfoldable pub runs_on : ℤ → Bool
runs_on (pos zero) = false
runs_on (pos (suc n)) = true
runs_on (negsuc n) = true

-- The test of the status of `NtOpenProcess`, and then the wait.
unfoldable pub lives : ℤ → ℤ → Bool
unfolding runs_on
lives (pos zero) waited = runs_on waited
lives (pos (suc n)) waited = true
lives (negsuc n) waited = true

-- `is_process_alive`, for the status of `NtOpenProcess` and that of the wait on the process.
unfoldable pub is_process_alive : (ℕ → ℤ) → (ℕ → ℤ) → ℕ → Bool
unfolding lives
is_process_alive open_status wait_status pid =
    if pid == 0 then true else lives (open_status pid) (wait_status pid)
