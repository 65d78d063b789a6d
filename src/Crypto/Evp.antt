-- ===== src/Crypto/Evp.antt =====
-- The cipher functions of BoringSSL that src/crypto.cpp calls. A context is a value of an unknown type
-- that every call gives back changed; each call gives a status, 1 for success.
use klib.Base.Int.{ℤ, pos}
use klib.Base.{
  ◌^◌, ℕ, ◌+◌, ◌-◌, ◌%◌, ◌≤◌, ◌<◌, ◌≡◌, ◌≢◌, Bool, true, false, Option, none, some, [], ◌++◌, Bytes,
  length,
}

pub data AesMode : Type 0 where
  gcm : AesMode
  cbc : AesMode

-- `update` and `final` give the bytes that they write, and `get_tag` the tag that it stores.
-- `update_aad` takes a text and its length, an `int`. `print` is the text that fmt makes of a number.
pub record Evp : Type 1 where
  pub Ctx : Type 0
  pub ctx_new : Option Ctx
  pub init_cipher : AesMode → Bool → Ctx → ℕ × Ctx
  pub set_ivlen : ℕ → Ctx → ℕ × Ctx
  pub iv_length : Ctx → ℕ
  pub set_tag : Bytes → Ctx → ℕ × Ctx
  pub set_key_length : ℕ → Ctx → ℕ × Ctx
  pub init_key : Bytes → Option Bytes → Ctx → ℕ × Ctx
  pub update_aad : Bytes → ℤ → Ctx → ℕ × Ctx
  pub block_size : Ctx → ℕ
  pub update : Bytes → Ctx → (ℕ × Bytes) × Ctx
  pub final : Ctx → (ℕ × Bytes) × Ctx
  pub get_tag : ℕ → Ctx → Bytes × Ctx
  pub error_string : Ctx → Bytes
  pub print : ℕ → Bytes

-- What a context has been told, and what it has been fed and has written so far.
pub record Session : Type 0 where
  pub mode : AesMode
  pub encrypt : Bool
  pub iv_size : ℕ
  pub tag : Bytes
  pub key : Bytes
  pub iv : Bytes
  pub aad : Bytes
  pub input : Bytes
  pub output : Bytes

abbrev pub default_iv_size : AesMode → ℕ
default_iv_size gcm = 12
default_iv_size cbc = 16

abbrev pub block : AesMode → ℕ
block gcm = 1
block cbc = 16

abbrev pub started : AesMode → Bool → Session
started mode encrypt = record {
  mode = mode;
  encrypt = encrypt;
  iv_size = default_iv_size mode;
  tag = [];
  key = [];
  iv = [];
  aad = [];
  input = [];
  output = [];
}

abbrev pub fed : Bytes → Bytes → Session → Session
fed d out s = record s { input = s.input ++ d; output = s.output ++ out }

-- `seal mode key iv aad text` is the ciphertext with its tag (no tag in CBC mode), and `unseal` takes
-- it back, with the tag before the ciphertext among its arguments.
pub record AesCipher : Type 0 where
  pub seal : AesMode → Bytes → Bytes → Bytes → Bytes → Bytes × Bytes
  pub unseal : AesMode → Bytes → Bytes → Bytes → Bytes → Bytes → Option Bytes

pub record IsAesCipher (k : AesCipher) : Type 0 where
  pub unseal-seal :
      (mode : AesMode) (key iv aad text : Bytes)
      → k.unseal mode key iv aad (k.seal mode key iv aad text).1 (k.seal mode key iv aad text).0
        ≡ some text
  pub length-seal :
      (mode : AesMode) (key iv aad text : Bytes)
      → length (k.seal mode key iv aad text).0
        ≤ length text + (block mode - length text % block mode)
  pub length-unseal :
      (mode : AesMode) (key iv aad tag text out : Bytes)
      → k.unseal mode key iv aad tag text ≡ some out
      → length out ≤ length text
  pub tag_gcm : (key iv aad text : Bytes) → length (k.seal gcm key iv aad text).1 ≡ 16
  pub tag_cbc : (key iv aad text : Bytes) → (k.seal cbc key iv aad text).1 ≡ []

-- The bytes that a cipher takes under one key and vector: GCM counts blocks of 16 bytes with 32 bits.
abbrev pub largest_input : ℕ
largest_input = 2 ^ 36 - 32

-- What the manual promises of the calls, where `Has c s` relates a context to what it has been told:
-- feeding a text in pieces gives the pieces of what the cipher makes of the whole, and never more of
-- it than what has been fed.
pub record IsEvp (e : Evp) (k : AesCipher) (Has : e.Ctx → Session → Type 0) : Type 0 where
  pub init_lem :
      (mode : AesMode) (encrypt : Bool) (c : e.Ctx)
      → e.ctx_new ≡ some c
      → ((e.init_cipher mode encrypt c).0 ≡ 1)
        × Has (e.init_cipher mode encrypt c).1 (started mode encrypt)
  pub set_ivlen_lem :
      (n : ℕ) (c : e.Ctx) (s : Session)
      → Has c s
      → s.mode ≡ gcm
      → 0 < n
      → ((e.set_ivlen n c).0 ≡ 1) × Has (e.set_ivlen n c).1 (record s { iv_size = n })
  pub iv_length_lem : (c : e.Ctx) (s : Session) → Has c s → e.iv_length c ≡ s.iv_size
  pub set_tag_lem :
      (t : Bytes) (c : e.Ctx) (s : Session)
      → Has c s
      → s.mode ≡ gcm
      → length t ≡ 16
      → ((e.set_tag t c).0 ≡ 1) × Has (e.set_tag t c).1 (record s { tag = t })
  pub set_key_length_lem :
      (c : e.Ctx) (s : Session)
      → Has c s
      → ((e.set_key_length 32 c).0 ≡ 1) × Has (e.set_key_length 32 c).1 s
  pub init_key_lem :
      (key iv : Bytes) (c : e.Ctx) (s : Session)
      → Has c s
      → length key ≡ 32
      → length iv ≡ s.iv_size
      → ((e.init_key key (some iv) c).0 ≡ 1)
        × Has (e.init_key key (some iv) c).1 (record s { key = key; iv = iv })
  pub update_aad_lem :
      (a : Bytes) (c : e.Ctx) (s : Session)
      → Has c s
      → s.mode ≡ gcm
      → length a < 2 ^ 31
      → ((e.update_aad a (pos (length a)) c).0 ≡ 1)
        × Has (e.update_aad a (pos (length a)) c).1 (record s { aad = s.aad ++ a })
  pub block_size_lem : (c : e.Ctx) (s : Session) → Has c s → e.block_size c ≡ block s.mode
  pub update_lem :
      (d : Bytes) (c : e.Ctx) (s : Session)
      → Has c s
      → length (s.input ++ d) ≤ largest_input
      → ((e.update d c).0.0 ≡ 1)
        × Has (e.update d c).1 (fed d (e.update d c).0.1 s)
        × (length (s.output ++ (e.update d c).0.1) ≤ length (s.input ++ d))
  pub final_seal :
      (c : e.Ctx) (s : Session)
      → Has c s
      → s.encrypt ≡ true
      → ((e.final c).0.0 ≡ 1)
        × (s.output ++ (e.final c).0.1 ≡ (k.seal s.mode s.key s.iv s.aad s.input).0)
        × (s.mode ≡ gcm
            → (e.get_tag 16 (e.final c).1).0 ≡ (k.seal s.mode s.key s.iv s.aad s.input).1)
  pub final_unseal :
      (c : e.Ctx) (s : Session) (text : Bytes)
      → Has c s
      → s.encrypt ≡ false
      → k.unseal s.mode s.key s.iv s.aad s.tag s.input ≡ some text
      → ((e.final c).0.0 ≡ 1) × (s.output ++ (e.final c).0.1 ≡ text)
  pub final_refused :
      (c : e.Ctx) (s : Session)
      → Has c s
      → s.encrypt ≡ false
      → k.unseal s.mode s.key s.iv s.aad s.tag s.input ≡ none
      → ((e.final c).0.0 ≢ 1) × ((e.final c).0.1 ≡ [])
