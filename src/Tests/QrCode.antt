-- ===== src/Tests/QrCode.antt =====
-- src/qr_code.cpp with a symbol of one dark module.
use klib.Base.{some, ◌↔◌, ◌⊎◌, ◌≡◌, [], ◌∷◌, ◌++◌, arith, get_or}
use klib.Exception.{ok}
use klib.QrCode.Symbol.{Symbol}
use klib.QrCode.Image.{Rgb, qr_code_to_rbg}
use klib.QrCode.Image.Pixels.{IsDarkAt, byte_of, qr_code_to_rbg-IsDarkAt}
use klib.QrCode.Text.{qr_code_to_utf8}
use klib.QrCode.Text.Lines.{margin_lines, concat_lines, qr_code_to_utf8-lines}

abbrev dot : Symbol
dot = record { width = 1; cells = 1 ∷ [] }

qr_code_to_rbg-IsDarkAt_example :
    (image : Rgb) × (qr_code_to_rbg [] (some dot) 1 2 ≡ ok image)
    × (image.width ≡ 6)
    × (image.height ≡ image.width)
    × ((get_or image.rgb (byte_of dot 2 2 3 2 1) 0 ≡ 0) ↔ IsDarkAt dot 2 2 3 2)
    × ((get_or image.rgb (byte_of dot 2 2 3 2 1) 0 ≡ 0)
        ⊎ (get_or image.rgb (byte_of dot 2 2 3 2 1) 0 ≡ 255))
qr_code_to_rbg-IsDarkAt_example =
    qr_code_to_rbg-IsDarkAt [] dot 1 2 3 2 1 (omega arith) (omega arith) (omega arith) (omega arith)

qr_code_to_utf8-lines_example :
    qr_code_to_utf8 [] (some dot) 2
    ≡ ok (margin_lines dot 2 ++ (concat_lines dot 2 1 0 ++ margin_lines dot 2))
qr_code_to_utf8-lines_example = qr_code_to_utf8-lines dot 2 [] (omega arith)
