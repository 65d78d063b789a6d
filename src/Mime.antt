-- ===== src/Mime.antt =====
-- src/mime.cpp: the type of an image by libmagic.
pub mod Detect
use klib.Base.{ℕ, Bool, not, Option, none, some, [], ◌∷◌, Bytes, codes, bytes_eq, if◌then◌else◌}
use klib.Base.Int.{ℤ, pos, ◌==ℤ◌}
use klib.Exception.{runtime_error, ok, throw, M, ◌>>=◌, ◌>>◌, return, throw_if, scope_exit}

-- libmagic over an unknown state; a cookie is a number, `strerror` is the text of `errno`, and
-- `database` is the array `magic` that is linked to the program.
pub record Libmagic : Type 1 where
  pub World : Type 0
  pub magic_open : World → Option ℕ × World
  pub close : Option ℕ → World → World
  pub load_buffers : ℕ → Bytes → World → ℤ × World
  pub buffer : ℕ → Bytes → World → Option Bytes × World
  pub error : ℕ → World → Bytes
  pub strerror : World → Bytes
  pub database : Bytes

module _ (m : Libmagic) where
  abbrev pub Do : Type 0 → Type 0
  Do A = M m.World A

  abbrev pub lift : {A : Type 0} → (m.World → A × m.World) → Do A
  lift f w = (ok (f w).0, (f w).1)

  abbrev pub load_database : ℕ → Do (Unit {0})
  load_database cookie = do
    rc ← lift (m.load_buffers cookie m.database)
    λ w.
        throw_if (not (rc ==ℤ pos 0))
          (runtime_error (codes "Cannot load magic database: {}") (m.error cookie w ∷ [])) w

  abbrev pub text_or_throw : ℕ → Option Bytes → Do Bytes
  text_or_throw cookie none w =
      (throw (runtime_error (codes "magic_buffer() failed: {}") (m.error cookie w ∷ [])), w)
  text_or_throw cookie (some str) w = (ok str, w)

  abbrev pub detect : Option ℕ → Bytes → Do Bytes
  detect none file w = (
    throw (runtime_error (codes "Unable to initialize magic library: {}") (m.strerror w ∷ [])),
    w,
  )
  detect (some cookie) file w =
      (do load_database cookie; str ← lift (m.buffer cookie file); text_or_throw cookie str) w

  -- The cookie is closed when the function is left, also a null one.
  unfoldable pub mime : Bytes → Do Bytes
  mime file = do
    cookie ← lift m.magic_open
    scope_exit (λ w. (ok tt, m.close cookie w)) (detect cookie file)

  unfoldable pub is_png : Bytes → Do Bool
  unfolding mime
  is_png image = do type ← mime image; return (bytes_eq type (codes "image/png"))

  unfoldable pub is_jpeg : Bytes → Do Bool
  unfolding mime
  is_jpeg image = do type ← mime image; return (bytes_eq type (codes "image/jpeg"))

  unfoldable pub is_webp : Bytes → Do Bool
  unfolding mime
  is_webp image = do type ← mime image; return (bytes_eq type (codes "image/webp"))
