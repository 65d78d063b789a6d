-- ===== src/Unicode/Classes.antt =====
-- include/klib/unicode.h and detail/unicode_util.h: the classes of code points.
use klib.Base.{ℕ, ◌≡◌, Bool, ◌&&◌, ◌||◌, List, [], ◌∷◌, arith, leb, ◌==◌}

unfoldable pub range : ℕ → ℕ → ℕ → Bool
range code_point min max = leb min code_point && leb code_point max

unfoldable pub is_ascii : ℕ → Bool
is_ascii code_point = leb code_point 0x7f

unfoldable pub is_whitespace : ℕ → Bool
unfolding range
is_whitespace code_point =
    code_point == 0x9
    || (range code_point 0xa 0xd
        || (code_point == 0x20
            || (code_point == 0x85
                || (code_point == 0xa0
                    || (code_point == 0x1680
                        || (range code_point 0x2000 0x200a
                            || (range code_point 0x2028 0x2029
                                || (code_point == 0x202f
                                    || (code_point == 0x205f || code_point == 0x3000)))))))))

unfoldable pub is_control : ℕ → Bool
unfolding range
is_control code_point = range code_point 0 0x1f || range code_point 0x7f 0x9f

-- `c == a || c == b || …`
unfoldable pub one_of : ℕ → List ℕ → Bool
one_of code_point [] = Bool.false
one_of code_point (c ∷ cs) = code_point == c || one_of code_point cs

abbrev chinese_marks : List ℕ
chinese_marks =
    0x3002 ∷ 0xff1f ∷ 0xff01 ∷ 0xff0c ∷ 0x3001 ∷ 0xff1b ∷ 0xff1a ∷ 0x201c ∷ 0x201d ∷ 0x300e ∷ 0x300f
    ∷ 0x2018 ∷ 0x2019 ∷ 0x300c ∷ 0x300d ∷ 0xff08 ∷ 0xff09 ∷ 0xff3b ∷ 0xff3d ∷ 0x3014 ∷ 0x3015
    ∷ 0x3010 ∷ 0x3011 ∷ 0x2014 ∷ 0x2026 ∷ 0xff0d ∷ 0x2d ∷ 0xff5e ∷ 0xb7 ∷ 0x300a ∷ 0x300b ∷ 0x3008
    ∷ 0x3009 ∷ 0xfe4f ∷ 0xff3f ∷ 0x2e ∷ []

unfoldable pub is_chinese_punctuation : ℕ → Bool
unfolding one_of
is_chinese_punctuation code_point = one_of code_point chinese_marks

abbrev english_marks : List ℕ
english_marks =
    0x2e ∷ 0x3f ∷ 0x21 ∷ 0x2c ∷ 0x3a ∷ 0x2026 ∷ 0x3b ∷ 0x2d ∷ 0x2013 ∷ 0x2014 ∷ 0x28 ∷ 0x29 ∷ 0x5b
    ∷ 0x5d ∷ 0x7b ∷ 0x7d ∷ 0x22 ∷ 0x27 ∷ 0x2f ∷ []

unfoldable pub is_english_punctuation : ℕ → Bool
unfolding one_of
is_english_punctuation code_point = one_of code_point english_marks

unfoldable pub is_cjk : ℕ → Bool
unfolding range
is_cjk c =
    c == 0x3007
    || (range c 0x3400 0x4dbf
        || (range c 0x4e00 0x9fff
            || (range c 0xfa0e 0xfa0f
                || (c == 0xfa11
                    || (range c 0xfa13 0xfa14
                        || (c == 0xfa1f
                            || (c == 0xfa21
                                || (range c 0xfa23 0xfa24
                                    || (range c 0xfa27 0xfa29
                                        || (range c 0x20000 0x2a6df
                                            || (range c 0x2a700 0x2b738
                                                || (range c 0x2b740 0x2b81d
                                                    || (range c 0x2b820 0x2cea1
                                                        || (range c 0x2ceb0 0x2ebe0
                                                            || range c 0x30000 0x3134a))))))))))))))

-- The code points that are both whitespace and control are tab, line feed, vertical tab, form feed,
-- carriage return and next line.
pub is_whitespace-is_control :
    (c : ℕ) → (is_whitespace c && is_control c) ≡ (range c 0x9 0xd || c == 0x85)
unfolding is_whitespace is_control range
is_whitespace-is_control c = ground arith
