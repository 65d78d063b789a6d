-- ===== src/Util/Process.antt =====
-- src/util.cpp: `exec`, `pipe` and `wait_for_child_process`. What the shell and the children do is
-- given by their statuses and their output.
use mathlib.Core.Path.{subst}
use klib.Base.{
  sym, All-front, All-back, ℕ, zero, suc, ◌+◌, ◌-◌, ◌*◌, ◌/◌, ◌%◌, ◌^◌, ◌≤◌, ◌<◌, ◌≡◌, ◌≢◌, refl,
  ap, ◌∙◌, Bool, not, ◌||◌, Option, none, some, List, [], ◌∷◌, ◌++◌, append-nil, append_assoc,
  arith, Bytes, codes, c_str, c_str-eq_self, All, length, length-append, ◌==◌, if◌then◌else◌,
  Bool-cases, inl, inr,
}
use klib.Base.Int.{ℤ, pos, negsuc, ◌==ℤ◌}
use klib.Exception.{Error, runtime_error, Result, ok, throw}

-- The 32 bits of an `int32_t`.
abbrev pub word : ℤ → ℕ
word (pos n) = n
word (negsuc n) = 2 ^ 32 - n - 1

-- `WIFEXITED` and `WEXITSTATUS` of <sys/wait.h>
unfoldable pub wait_error : ℤ → Bool
wait_error status = not (word status % 128 == 0) || not (word status / 256 % 256 == 0)

-- The two exceptions name the command line, and `strerror(errno)` or the status.
abbrev pub exec_error : Bytes → Bytes → Error
exec_error cmd reason =
    runtime_error (codes "When running command line '{}', error '{}' is encountered")
      (cmd ∷ reason ∷ [])

abbrev pub status_error : (ℤ → Bytes) → Bytes → ℤ → Error
status_error print cmd status =
    runtime_error (codes "Failed when running command line '{}', status: {}")
      (cmd ∷ print status ∷ [])

-- `exec`, where `std::system` returns `status`; `reason` is `strerror(errno)`, `print` writes a number.
unfoldable pub exec : (ℤ → Bytes) → Bytes → Bytes → ℤ → Result (Unit {0})
unfolding wait_error ◌==ℤ◌
exec print reason cmd status =
    if status ==ℤ negsuc 0 || wait_error status
    then throw (exec_error cmd reason)
    else if not (status ==ℤ pos 0)
    then throw (status_error print cmd status)
    else ok tt

-- A status that `wait` reports: an exit code, or a signal with the flag of a core dump.
pub data IsStatus (status : ℕ) : Type 0 where
  exited : (code : ℕ) → code < 256 → status ≡ 256 * code → IsStatus status
  signaled :
      (signal core : ℕ)
      → 0 < signal
      → signal < 127
      → core ≤ 1
      → status ≡ signal + 128 * core
      → IsStatus status

-- With a status that `wait` reports, `exec` returns if the command exited with code 0, and any other
-- status, that of a failed command and that of a signal, is reported by the first of the two
-- exceptions: the second one is never thrown.
pub exec-ok :
    (print : ℤ → Bytes) (reason cmd : Bytes) (status : ℕ)
    → IsStatus status
    → exec print reason cmd (pos status)
      ≡ (if status == 0 then ok tt else throw (exec_error cmd reason))
unfolding exec
exec-ok print reason cmd status (exited code small e) = ground arith
exec-ok print reason cmd status (signaled signal core p small c e) = ground arith

-- The loop of `wait_for_child_process` over the statuses of the children, in the order in which
-- `waitpid` reports them: its result, and the children that are left.
unfoldable pub wait_for_child_process : Bytes → List ℤ → Result (Unit {0}) × List ℤ
unfolding wait_error
wait_for_child_process reason [] = (ok tt, [])
wait_for_child_process reason (status ∷ children) =
    let rest = wait_for_child_process reason children in
    if wait_error status
    then (throw (runtime_error (codes "waitpid() failed: {}") (reason ∷ [])), children)
    else rest

-- `std::fgets` into a buffer with room for `limit` bytes and a NUL: the bytes that it takes, up to a
-- newline, and those that it leaves.
unfoldable pub fgets : ℕ → Bytes → Bytes × Bytes
fgets limit [] = ([], [])
fgets zero (c ∷ s) = ([], c ∷ s)
fgets (suc limit) (c ∷ s) =
    let (line, rest) = fgets limit s in if c == 0xa then (c ∷ [], s) else (c ∷ line, rest)

-- The loop of `pipe`: `result += buffer` appends the bytes before the first NUL. A round takes a byte
-- at least, so a fuel of the length is enough.
unfoldable pub read_lines : ℕ → Bytes → Bytes → Bytes
unfolding fgets
read_lines fuel [] result = result
read_lines zero (c ∷ s) result = result
read_lines (suc fuel) (c ∷ s) result =
    let taken = fgets 127 (c ∷ s) in read_lines fuel taken.1 (result ++ c_str taken.0)

-- `pipe`, where the command writes `output` if it can be run, and ends with `status`.
unfoldable pub pipe : (ℤ → Bytes) → Bytes → Option Bytes → ℤ → Result Bytes
unfolding read_lines ◌==ℤ◌
pipe print cmd none status = throw (runtime_error (codes "popen() failed") [])
pipe print cmd (some output) status =
    if status ==ℤ negsuc 0
    then throw (runtime_error (codes "pclose() failed") [])
    else if not (status ==ℤ pos 0)
    then throw (status_error print cmd status)
    else ok (read_lines (length output) output [])

fgets-append : (limit : ℕ) (s : Bytes) → (fgets limit s).0 ++ (fgets limit s).1 ≡ s
unfolding fgets
fgets-append limit [] = refl
fgets-append zero (c ∷ s) = refl
fgets-append (suc limit) (c ∷ s) = elim (Bool-cases (c == 0xa)) [
  | inl y ↦ rw y refl
  | inr n ↦ rw n (ap (λ t. c ∷ t) (fgets-append limit s))
]

fgets_shrinks : (limit c : ℕ) (s : Bytes) → length (fgets (suc limit) (c ∷ s)).1 ≤ length s
unfolding fgets
fgets_shrinks limit c s = elim (Bool-cases (c == 0xa)) [
  | inl y ↦ rw y (omega arith)
  | inr n ↦ rw n (
      omega (
        arith,
        ap length (fgets-append limit s),
        length-append (fgets limit s).0 (fgets limit s).1,
      ))
]

read_lines_whole :
    (fuel : ℕ) (s result : Bytes)
    → length s ≤ fuel
    → All (λ c. c ≢ 0) s
    → read_lines fuel s result ≡ result ++ s
unfolding read_lines
read_lines_whole fuel [] result fits h = rw append-nil
read_lines_whole zero (c ∷ s) result fits h = absurd (omega arith)
read_lines_whole (suc fuel) (c ∷ s) result fits h =
    let taken = fgets 127 (c ∷ s) in
    let parts : All (λ c. c ≢ 0) (taken.0 ++ taken.1) =
      subst (All (λ c. c ≢ 0)) (sym (fgets-append 127 (c ∷ s))) h in
    read_lines_whole fuel taken.1 (result ++ c_str taken.0) (omega (arith, fgets_shrinks 126 c s))
      (All-back (λ c. c ≢ 0) taken.0 taken.1 parts)
    ∙ ap (λ t. (result ++ t) ++ taken.1)
        (c_str-eq_self taken.0 (All-front (λ c. c ≢ 0) taken.0 taken.1 parts))
    ∙ append_assoc result taken.0 taken.1
    ∙ ap (λ t. result ++ t) (fgets-append 127 (c ∷ s))

-- If the command can be run and ends with a status other than 0, `pipe` throws, whatever the output.
pub pipe_failed :
    (print : ℤ → Bytes) (cmd output : Bytes) (status : ℤ)
    → status ≢ pos 0
    → (e : Error) × (pipe print cmd (some output) status ≡ throw e)
unfolding pipe
pipe_failed print cmd output (pos zero) ne = absurd (ne refl)
pipe_failed print cmd output (pos (suc n)) ne = (status_error print cmd (pos (suc n)), ground arith)
pipe_failed print cmd output (negsuc zero) ne = (runtime_error (codes "pclose() failed") [], refl)
pipe_failed print cmd output (negsuc (suc n)) ne =
    (status_error print cmd (negsuc (suc n)), ground arith)

-- If the command can be run and ends with status 0, `pipe` returns its output whole, however the lines
-- and the buffer cut it, provided that it holds no NUL byte.
pub pipe-output :
    (print : ℤ → Bytes) (cmd output : Bytes)
    → All (λ c. c ≢ 0) output
    → pipe print cmd (some output) (pos 0) ≡ ok output
unfolding pipe
pipe-output print cmd output h = ap ok (read_lines_whole (length output) output [] (omega arith) h)
