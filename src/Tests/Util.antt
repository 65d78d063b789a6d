-- ===== src/Tests/Util.antt =====
-- src/util.cpp with a disk whose directories can all be entered.
use klib.Base.{length, ◌≡◌, true, false, some, [], ◌∷◌, arith, Bytes, codes}
use klib.Base.Int.{ℤ, pos}
use klib.Exception.{ok, throw}
use klib.Util.Process.{IsStatus, signaled, exec, exec_error, exec-ok, pipe, pipe-output}
use klib.Util.Files.{File, Disk, change_working_dir}

abbrev no_print : ℤ → Bytes
no_print n = []

killed-IsStatus : IsStatus 9
killed-IsStatus = signaled 9 0 (omega arith) (omega arith) (omega arith) (omega arith)

exec-ok_example :
    exec no_print (codes "reason") (codes "sleep") (pos 9)
    ≡ throw (exec_error (codes "sleep") (codes "reason"))
exec-ok_example = exec-ok no_print (codes "reason") (codes "sleep") 9 killed-IsStatus

pipe-output_example :
    pipe no_print (codes "ls") (some (97 ∷ 10 ∷ 98 ∷ [])) (pos 0) ≡ ok (97 ∷ 10 ∷ 98 ∷ [])
pipe-output_example = pipe-output no_print (codes "ls") (97 ∷ 10 ∷ 98 ∷ []) (omega arith)

abbrev disk : Disk
disk = record {
  file_of = λ at p. length p;
  content = λ f. File.absent;
  writable = λ f. true;
  stored = λ f s. s;
  is_directory = λ at p. false;
  creatable = λ at p. true;
  enter = λ at p. some p;
  current_path = codes "/home";
}

abbrev moved_disk : Disk
moved_disk = (change_working_dir (codes "sub") disk).1
