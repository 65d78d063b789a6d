-- ===== src/Tests/Crypto.antt =====
-- src/crypto.cpp with a cipher that leaves the text as it is and seals it with a fixed tag.
use klib.Base.{
  ℕ, ◌≡◌, ◌≢◌, refl, sym, ap, ◌∙◌, Bool, true, false, Option, none, some, [], ◌∷◌, ◌++◌, append-nil,
  arith, Bytes, length, length-append, replicate, length-replicate, bytes_eq, bytes_eq_refl,
  if◌then◌else◌,
}
use klib.Exception.{Error, ok, throw}
use klib.Util.Random.{Rand, IsSeeded}
use klib.Crypto.Evp.{
  AesMode, gcm, cbc, Evp, Session, started, fed, AesCipher, IsAesCipher, IsEvp, block,
}
use klib.Crypto.Aes.{aes_256_encrypt, aes_256_decrypt}
use klib.Crypto.Aes.RoundTrip.{aes_256_decrypt-aes_256_encrypt, aes_256_decrypt_refused}

abbrev seal_tag : Bytes
seal_tag = replicate 16 7

abbrev opened : Bytes → Bool → Option Bytes
opened text good = if good then some text else none

abbrev plain_seal : AesMode → Bytes → Bytes → Bytes → Bytes → Bytes × Bytes
plain_seal gcm key iv aad text = (text, seal_tag)
plain_seal cbc key iv aad text = (text, [])

abbrev plain_unseal : AesMode → Bytes → Bytes → Bytes → Bytes → Bytes → Option Bytes
plain_unseal gcm key iv aad tag text = opened text (bytes_eq tag seal_tag)
plain_unseal cbc key iv aad tag text = some text

abbrev plain : AesCipher
plain = record { seal = plain_seal; unseal = plain_unseal }

abbrev status : Option Bytes → ℕ
status none = 0
status (some text) = 1

abbrev tag_given : AesMode → Bytes
tag_given gcm = seal_tag
tag_given cbc = []

abbrev final_status : Bool → Session → ℕ
final_status true s = 1
final_status false s = status (plain_unseal s.mode s.key s.iv s.aad s.tag s.input)

abbrev nothing : Session
nothing = started gcm true

abbrev given : Option Bytes → Bytes
given none = []
given (some iv) = iv

abbrev toy : Evp
toy = record {
  Ctx = Session;
  ctx_new = some nothing;
  init_cipher = λ mode encrypt c. (1, started mode encrypt);
  set_ivlen = λ n c. (1, record c { iv_size = n });
  iv_length = λ c. c.iv_size;
  set_tag = λ t c. (1, record c { tag = t });
  set_key_length = λ n c. (1, c);
  init_key = λ key iv c. (1, record c { key = key; iv = given iv });
  update_aad = λ a n c. (1, record c { aad = c.aad ++ a });
  block_size = λ c. block c.mode;
  update = λ d c. ((1, d), fed d d c);
  final = λ c. ((final_status c.encrypt c, []), c);
  get_tag = λ n c. (tag_given c.mode, c);
  error_string = λ c. [];
  print = λ n. [];
}

-- The context is what it has been told, and has written what it has been fed.
abbrev Has : Session → Session → Type 0
Has c s = (c ≡ s) × (s.output ≡ s.input)

plain_inverse :
    (mode : AesMode) (key iv aad text : Bytes)
    → plain_unseal mode key iv aad
        (plain_seal mode key iv aad text).1
        (plain_seal mode key iv aad text).0
      ≡ some text
plain_inverse gcm key iv aad text = rw (bytes_eq_refl seal_tag) refl
plain_inverse cbc key iv aad text = refl

plain_text : (mode : AesMode) (key iv aad text : Bytes) → (plain_seal mode key iv aad text).0 ≡ text
plain_text gcm key iv aad text = refl
plain_text cbc key iv aad text = refl

plain_opened :
    (mode : AesMode) (key iv aad tag text out : Bytes)
    → plain_unseal mode key iv aad tag text ≡ some out
    → out ≡ text
plain_opened cbc key iv aad tag text out e = cc
plain_opened gcm key iv aad tag text out e = ground arith

plain-IsAesCipher : IsAesCipher plain
plain-IsAesCipher = record {
  unseal-seal = plain_inverse;
  length-seal = λ mode key iv aad text. omega (arith, ap length (plain_text mode key iv aad text));
  length-unseal = λ mode key iv aad tag text out e.
      omega (arith, ap length (plain_opened mode key iv aad tag text out e));
  tag_gcm = λ key iv aad text. refl;
  tag_cbc = λ key iv aad text. refl;
}

tag_given_lem :
    (mode : AesMode) (key iv aad text : Bytes)
    → mode ≡ gcm
    → tag_given mode ≡ (plain_seal mode key iv aad text).1
tag_given_lem gcm key iv aad text e = refl
tag_given_lem cbc key iv aad text e = refl

final_seal_lem :
    (c s : Session)
    → Has c s
    → s.encrypt ≡ true
    → (final_status c.encrypt c ≡ 1)
      × (s.output ++ [] ≡ (plain_seal s.mode s.key s.iv s.aad s.input).0)
      × (s.mode ≡ gcm → tag_given c.mode ≡ (plain_seal s.mode s.key s.iv s.aad s.input).1)
final_seal_lem c s (e, h) enc = (
  ap (λ (t : Session). final_status t.encrypt t) e ∙ ap (λ b. final_status b s) enc,
  append-nil s.output ∙ h ∙ sym (plain_text s.mode s.key s.iv s.aad s.input),
  λ m. ap (λ (t : Session). tag_given t.mode) e ∙ tag_given_lem s.mode s.key s.iv s.aad s.input m,
)

decrypt_status :
    (c s : Session)
    → c ≡ s
    → s.encrypt ≡ false
    → final_status c.encrypt c ≡ status (plain_unseal s.mode s.key s.iv s.aad s.tag s.input)
decrypt_status c s e dec =
    ap (λ (t : Session). final_status t.encrypt t) e ∙ ap (λ b. final_status b s) dec

final_unseal_lem :
    (c s : Session) (text : Bytes)
    → Has c s
    → s.encrypt ≡ false
    → plain_unseal s.mode s.key s.iv s.aad s.tag s.input ≡ some text
    → (final_status c.encrypt c ≡ 1) × (s.output ++ [] ≡ text)
final_unseal_lem c s text (e, h) dec good = (
  decrypt_status c s e dec ∙ ap status good,
  append-nil s.output ∙ h ∙ sym (plain_opened s.mode s.key s.iv s.aad s.tag s.input text good),
)

final_refused_lem :
    (c s : Session)
    → Has c s
    → s.encrypt ≡ false
    → plain_unseal s.mode s.key s.iv s.aad s.tag s.input ≡ none
    → (final_status c.encrypt c ≢ 1) × (◌≡◌ {A = Bytes} [] [])
final_refused_lem c s (e, h) dec bad =
    (λ one. absurd (omega (arith, decrypt_status c s e dec, ap status bad)), refl)

toy-IsEvp : IsEvp toy plain Has
toy-IsEvp = record {
  init_lem = λ mode encrypt c e. (refl, (refl, refl));
  set_ivlen_lem = λ n c s (e, h) m p. (refl, (ap (λ (t : Session). record t { iv_size = n }) e, h));
  iv_length_lem = λ c s (e, h). ap (λ (t : Session). t.iv_size) e;
  set_tag_lem = λ t c s (e, h) m p. (refl, (ap (λ (u : Session). record u { tag = t }) e, h));
  set_key_length_lem = λ c s h. (refl, h);
  init_key_lem =
      λ key iv c s (e, h) p q. (refl, (ap (λ (t : Session). record t { key = key; iv = iv }) e, h));
  update_aad_lem =
      λ a c s (e, h) m short. (refl, (ap (λ (t : Session). record t { aad = t.aad ++ a }) e, h));
  block_size_lem = λ c s (e, h). ap (λ (t : Session). block t.mode) e;
  update_lem = λ d c s (e, h) allowed. (
    refl,
    (ap (fed d d) e, ap (λ t. t ++ d) h),
    omega (arith, ap length h, length-append s.output d, length-append s.input d),
  );
  final_seal = final_seal_lem;
  final_unseal = final_unseal_lem;
  final_refused = final_refused_lem;
}

abbrev zeros : Rand
zeros = record {
  World = Unit {0};
  status = λ w. 1;
  poll = λ w. (1, w);
  bytes = λ n w. ((1, replicate n 0), w);
  error_string = λ w. [];
}

zeros-IsSeeded : IsSeeded zeros
zeros-IsSeeded = record {
  status_lem = λ w. refl;
  bytes_lem = λ n w. (refl, length-replicate {A = ℕ} n 0);
}

abbrev key : Bytes
key = replicate 32 1

aes_256_decrypt-aes_256_encrypt_example :
    (text : Bytes) × (w' : Unit {0}) × (aes_256_encrypt toy [] zeros (b'a' ∷ []) key gcm [] tt
      ≡ (ok text, w'))
    × (aes_256_decrypt toy [] text key gcm [] ≡ ok (b'a' ∷ []))
aes_256_decrypt-aes_256_encrypt_example =
    aes_256_decrypt-aes_256_encrypt toy plain Has toy-IsEvp plain-IsAesCipher nothing refl [] zeros
      zeros-IsSeeded gcm (b'a' ∷ []) key [] tt refl (omega arith) (omega arith)

wrong_tag : bytes_eq (replicate 16 8) seal_tag ≡ false
unfolding bytes_eq
wrong_tag = refl

aes_256_decrypt_refused_example :
    (x : Error) × (aes_256_decrypt toy []
        (replicate 12 0 ++ (b'a' ∷ [] ++ replicate 16 8))
        key
        gcm
        []
      ≡ throw x)
aes_256_decrypt_refused_example =
    aes_256_decrypt_refused toy plain Has toy-IsEvp plain-IsAesCipher nothing refl []
      (replicate 12 0) (b'a' ∷ []) (replicate 16 8) key [] refl refl refl (omega arith)
      (omega arith) (ap (opened (b'a' ∷ [])) wrong_tag)
