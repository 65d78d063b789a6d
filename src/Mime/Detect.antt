-- ===== src/Mime/Detect.antt =====
-- What the tests of src/mime.cpp answer, and the cookies that they hold.
use klib.Base.{
  ℕ, suc, ◌≡◌, ◌↔◌, ◌⊎◌, inl, inr, ap, sym, ◌∙◌, Bool, true, false, Option, none, some, Bytes,
  codes, bytes_eq, bytes_eq_sound, bytes_eq_refl, Bool-cases, Option-cases,
}
use mathlib.Core.Option.{some-injective}
use klib.Base.Int.{pos, ◌==ℤ◌}
use klib.Exception.{Result, ok, throw, terminated, ◌>>=◌, return}
use klib.Mime.{Libmagic, Do, mime, is_png, is_jpeg, is_webp}

-- One more, if there is a cookie.
abbrev pub count : Option ℕ → ℕ → ℕ
count none n = n
count (some cookie) n = suc n

abbrev pub Agrees : Bytes → Option Bytes → Type 0
Agrees type none = Unit
Agrees type (some str) = str ≡ type

-- How many cookies are held, and the type that libmagic finds in some bytes when it finds one.
-- Closing a null cookie does nothing.
pub record IsLibmagic (m : Libmagic) (held : m.World → ℕ) (type_of : Bytes → Bytes) : Type 0 where
  pub open_lem : (w : m.World) → held (m.magic_open w).1 ≡ count (m.magic_open w).0 (held w)
  pub close_null : (w : m.World) → held (m.close none w) ≡ held w
  pub close_lem : (cookie n : ℕ) (w : m.World) → held w ≡ suc n → held (m.close (some cookie) w) ≡ n
  pub load_lem :
      (cookie : ℕ) (database : Bytes) (w : m.World)
      → held (m.load_buffers cookie database w).1 ≡ held w
  pub buffer_lem :
      (cookie : ℕ) (file : Bytes) (w : m.World) → held (m.buffer cookie file w).1 ≡ held w
  pub buffer_type :
      (cookie : ℕ) (file : Bytes) (w : m.World) → Agrees (type_of file) (m.buffer cookie file w).0

agreed : (type : Bytes) (r : Option Bytes) (str : Bytes) → r ≡ some str → Agrees type r → str ≡ type
agreed type none str b a = absurd (cc)
agreed type (some t) str b a = sym (some-injective t str b) ∙ a

module _ (m : Libmagic) (held : m.World → ℕ) (type_of : Bytes → Bytes)
    (L : IsLibmagic m held type_of) where
  -- One of the calls of libmagic fails, from the state where the function starts.
  abbrev pub Fails : Bytes → m.World → Type 0
  Fails file w =
      let (cookie, opened) = m.magic_open w in
      (cookie ≡ none)
      ⊎ ((c : ℕ) × (cookie ≡ some c)
          × (((m.load_buffers c m.database opened).0 ==ℤ pos 0 ≡ false)
              ⊎ ((m.buffer c file (m.load_buffers c m.database opened).1).0 ≡ none)))

  -- The function returns whether the type is the one asked for, or it throws since a call failed.
  abbrev pub Test : Bytes → Bytes → m.World → Result Bool × m.World → Type 0
  Test file type w (ok b, w') = (b ≡ true ↔ type_of file ≡ type) × held w' ≡ held w
  Test file type w (throw e, w') = Fails file w × held w' ≡ held w
  Test file type w (terminated, w') = ⊥

  closed :
      (c : ℕ) (w : m.World)
      → (m.magic_open w).0 ≡ some c
      → held (m.load_buffers c m.database (m.magic_open w).1).1 ≡ suc (held w)
  closed c w s =
      L.load_lem c m.database (m.magic_open w).1 ∙ L.open_lem w ∙ ap (λ o. count o (held w)) s

  compare : Bytes → Bytes → Do m Bool
  compare file type = do found ← mime m file; return (bytes_eq found type)

  compare-Test : (file type : Bytes) (w : m.World) → Test file type w (compare file type w)
  unfolding compare mime
  compare-Test file type w = elim (Option-cases (m.magic_open w).0) [
    | inl n ↦
        let same = L.close_null (m.magic_open w).1 ∙ L.open_lem w ∙ ap (λ o. count o (held w)) n in
        rw n (inl n, same)
    | inr (c, s) ↦
        let loaded = m.load_buffers c m.database (m.magic_open w).1 in
        let back = L.close_lem c (held w) in
        elim (Bool-cases (loaded.0 ==ℤ pos 0)) [
          | inr bad ↦ rw (s, bad) (inr (c, s, inl bad), back loaded.1 (closed c w s))
          | inl good ↦
              let read = m.buffer c file loaded.1 in
              let same = back read.1 (L.buffer_lem c file loaded.1 ∙ closed c w s) in
              elim (Option-cases read.0) [
                | inl n ↦ rw (s, good, n) (inr (c, s, inr n), same)
                | inr (str, b) ↦
                    let e = agreed (type_of file) read.0 str b (L.buffer_type c file loaded.1) in
                    rw (s, good, b)
                      (
                        (
                          λ h. sym e ∙ bytes_eq_sound str type h,
                          λ h. rw (e, h) (bytes_eq_refl type),
                        ),
                        same,
                      )
              ]
        ]
  ]

  -- If libmagic opens and closes cookies and finds types as `IsLibmagic` says, then each of `is_png`,
  -- `is_jpeg` and `is_webp` returns true exactly for the bytes whose type is that of its format, or
  -- throws, which it does only if libmagic gives no cookie, does not load its database or gives no
  -- type. Either way it holds as many cookies when it ends as when it began.
  pub is_png-is_jpeg-is_webp :
      (image : Bytes) (w : m.World)
      → Test image (codes "image/png") w (is_png m image w)
        × Test image (codes "image/jpeg") w (is_jpeg m image w)
        × Test image (codes "image/webp") w (is_webp m image w)
  unfolding is_png is_jpeg is_webp compare
  is_png-is_jpeg-is_webp image w = (
    compare-Test image (codes "image/png") w,
    compare-Test image (codes "image/jpeg") w,
    compare-Test image (codes "image/webp") w,
  )
