-- ===== src/Image/Memory.antt =====
-- include/klib/image.h and src/image.cpp: the memory of an `RGB`, with sizes that are not negative.
use klib.Base.{ℕ, suc, ◌*◌, ◌^◌, Bool, true, Option, none, some, ltb, ◌==◌, if◌then◌else◌}
use klib.Exception.{ok, terminated, M}

-- The buffers that are allocated, each with its number of bytes, by their addresses, and the address
-- that `new` gives next. It gives no address twice.
pub record Heap : Type 0 where
  pub allocated : ℕ → Option ℕ
  pub next : ℕ

-- The members of the class.
pub record RgbOwner : Type 0 where
  pub rgb : ℕ
  pub width : ℕ
  pub height : ℕ
  pub free : Bool

abbrev put : ℕ → Option ℕ → (ℕ → Option ℕ) → ℕ → Option ℕ
put ptr size allocated p = if p == ptr then size else allocated p

-- `RGB(width, height)`. The number of bytes is an `std::int32_t`, whose overflow is undefined.
unfoldable pub rgb_of_size : ℕ → ℕ → M Heap RgbOwner
rgb_of_size width height h =
    let size = height * width * 3 in
    if ltb size (2 ^ 31)
    then (
      ok (record { rgb = h.next; width = width; height = height; free = true }),
      record { allocated = put h.next (some size) h.allocated; next = suc h.next },
    )
    else (terminated, h)

-- `RGB(rgb, width, height, free)`
unfoldable pub rgb_of_pointer : ℕ → ℕ → ℕ → Bool → RgbOwner
rgb_of_pointer rgb width height free = record {
  rgb = rgb;
  width = width;
  height = height;
  free = free;
}

abbrev delete : ℕ → Option ℕ → M Heap (Unit {0})
delete ptr none h = (terminated, h)
delete ptr (some size) h = (ok tt, record h { allocated = put ptr none h.allocated })

-- `~RGB()`. To delete what is not allocated is undefined.
unfoldable pub destroy_rgb : RgbOwner → M Heap (Unit {0})
destroy_rgb image h = if image.free then delete image.rgb (h.allocated image.rgb) h else (ok tt, h)
