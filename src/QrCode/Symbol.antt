-- ===== src/QrCode/Symbol.antt =====
-- src/qr_code.cpp: the symbol that libqrencode gives, and a counted loop.
use klib.Base.{ℕ, zero, suc, ◌+◌, ◌*◌, ◌%◌, Bool, List, get_or, ◌==◌}

-- `QRcode`: the modules row by row, a dark one with its lowest bit set.
pub record Symbol : Type 0 where
  pub width : ℕ
  pub cells : List ℕ

-- `*(qr->data + (y * qr_size + x)) & 1`
unfoldable pub is_dark : Symbol → ℕ → ℕ → Bool
is_dark q x y = get_or q.cells (y * q.width + x) 0 % 2 == 1

-- `for (i = start; …; ++i) s = body(i, s)`, with `k` rounds.
unfoldable pub for_each {ℓ} : {S : Type ℓ} → ℕ → ℕ → (ℕ → S → S) → S → S
for_each zero i body s = s
for_each (suc k) i body s = for_each k (suc i) body (body i s)
