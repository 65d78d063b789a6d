-- ===== src/Util/Files.antt =====
-- src/util.cpp: `read_file`, `write_file`, `ChangeWorkingDir`, `terminal_size`
-- and `cleanse`.
use klib.Base.{
  ℕ, Bool, true, not, ◌&&◌, Option, none, some, [], ◌∷◌, Bytes, codes, c_str, bytes_eq, ◌==◌,
  if◌then◌else◌, length,
}
use klib.Base.Buffer.{resize, overwrite}
use klib.Exception.{runtime_error, length_error, Result, ok, throw, terminated, M, ◌>>◌, return}

-- What opening finds: nothing, something that has no size, or bytes. On the systems that the code is
-- built for, text and binary mode read and write the same bytes.
pub data File : Type 0 where
  absent : File
  endless : File
  regular : Bytes → File

-- `file_of d p` is the file that the path `p` means in `d`: paths may mean the same one. `stored f s` is
-- what is left in the file when `s` is written, of which nothing is reported. `enter d p` is the directory that `p` means in `d`, if it can be entered.
pub record Disk : Type 0 where
  pub file_of : Bytes → Bytes → ℕ
  pub content : ℕ → File
  pub writable : ℕ → Bool
  pub stored : ℕ → Bytes → Bytes
  pub is_directory : Bytes → Bytes → Bool
  pub creatable : Bytes → Bytes → Bool
  pub enter : Bytes → Bytes → Option Bytes
  pub current_path : Bytes

-- `read_file`: in both modes the bytes of the file. `size` is its length, and `read` fills a buffer of
-- that size. Where there is no size, it is -1, which no string can have.
abbrev pub loaded : Bytes → Bytes
loaded stored = overwrite stored (resize (length stored) [])

abbrev pub opened : Bytes → File → Result Bytes
opened path absent = throw (runtime_error (codes "Can not open file: '{}'") (path ∷ []))
opened path endless = throw length_error
opened path (regular stored) = ok (loaded stored)

unfoldable pub read_file : Bytes → Bool → M Disk Bytes
unfolding overwrite resize
read_file path binary_mode d =
    (opened (c_str path) (d.content (d.file_of d.current_path (c_str path))), d)

abbrev pub put : ℕ → Bytes → (ℕ → File) → ℕ → File
put f str content g = if f == g then regular str else content g

-- `write_file`: opening truncates the file.
unfoldable pub write_file : Bytes → Bool → Bytes → M Disk (Unit {0})
write_file path binary_mode str d =
    let f = d.file_of d.current_path (c_str path) in
    if d.writable f
    then (ok tt, record d { content = put f (d.stored f str) d.content })
    else (throw (runtime_error (codes "Can not open file: '{}'") (c_str path ∷ [])), d)

-- `chdir`, with the message of the exception.
abbrev pub move_to : Option Bytes → M Disk (Unit {0})
move_to none d = (throw (runtime_error (codes "chdir error") []), d)
move_to (some there) d = (ok tt, record d { current_path = there })

abbrev pub add_directory : Bytes → Bytes → (Bytes → Bytes → Bool) → Bytes → Bytes → Bool
add_directory at path dirs d p = if bytes_eq at d && bytes_eq path p then true else dirs d p

-- `create_directory`, if the directory is not there.
unfoldable pub ensure_directory : Bytes → M Disk (Unit {0})
unfolding bytes_eq
ensure_directory path d =
    if d.is_directory d.current_path path
    then (ok tt, d)
    else if d.creatable d.current_path path
    then (ok tt, record d { is_directory = add_directory d.current_path path d.is_directory })
    else (throw (runtime_error (codes "Can not create directory: '{}'") (path ∷ [])), d)

-- The constructor of `ChangeWorkingDir`: it gives `backup_`.
unfoldable pub change_working_dir : Bytes → M Disk Bytes
unfolding ensure_directory
change_working_dir [] d = (ok [], d)
change_working_dir (c ∷ path) d =
    (do
      ensure_directory (c ∷ path)
      λ e. move_to (e.enter e.current_path (c_str (c ∷ path))) e
      return d.current_path)
      d

abbrev pub leave_to : Option Bytes → M Disk (Unit {0})
leave_to none d = (terminated, d)
leave_to (some there) d = (ok tt, record d { current_path = there })

-- The destructor. If `chdir` fails it calls `error` of include/klib/log.h, which ends the process.
unfoldable pub restore : Bytes → M Disk (Unit {0})
restore [] d = (ok tt, d)
restore (c ∷ backup) d = leave_to (d.enter d.current_path (c_str (c ∷ backup))) d

-- `terminal_size`, where `ioctl` gives a status and a size.
unfoldable pub terminal_size : ℕ → ℕ × ℕ → ℕ × ℕ
terminal_size rc size = if not (rc == 0) then (100, 25) else size

-- `cleanse` of a string: the bytes are overwritten, then the string is empty.
unfoldable pub cleanse : (Bytes → Bytes) → Bytes → Bytes × Bytes
cleanse openssl_cleanse s = (openssl_cleanse s, [])
