-- ===== src/Security.antt =====
-- Encryption of the stored tokens and keys (`Encrypter` in internal/security/security.go). The cipher,
-- the encoding and the random bytes come from Go's library; a byte is a number, a text of Go the list
-- of its bytes.
use goloom.Prelude.Result.{Result, ok, err, ◌>>=◌, ◌>>◌, refuse_if}
use goloom.Prelude.{
  ℕ, ◌≡◌, refl, sym, subst, false, Option, none, some, List, ◌++◌, arith, ltb, length, take, drop,
  take-append, drop-append, length-append,
}

abbrev pub Bytes : Type 0
Bytes = List ℕ

-- An AEAD with its key (`cipher.AEAD`), base64.StdEncoding, and `io.ReadFull` of the random reader.
pub record Encrypter : Type 0 where
  pub nonce_size : ℕ
  pub seal : Bytes → Bytes → Bytes
  pub open_sealed : Bytes → Bytes → Option Bytes
  pub encode : Bytes → Bytes
  pub decode : Bytes → Option Bytes

pub data CipherError : Type 0 where
  no_nonce not_decoded too_short not_decrypted : CipherError

abbrev or_error : {A : Type 0} → CipherError → Option A → Result CipherError A
or_error e none = err e
or_error e (some a) = ok a

-- The sealed text is appended to its nonce.
unfoldable pub encrypt : Encrypter → Option Bytes → Bytes → Result CipherError Bytes
encrypt e random plaintext = do
  nonce ← or_error no_nonce random
  ok (e.encode (nonce ++ e.seal nonce plaintext))

unfoldable pub decrypt : Encrypter → Bytes → Result CipherError Bytes
decrypt e ciphertext = do
  raw ← or_error not_decoded (e.decode ciphertext)
  refuse_if (ltb (length raw) e.nonce_size) too_short
  or_error not_decrypted (e.open_sealed (take e.nonce_size raw) (drop e.nonce_size raw))

-- What Go documents of the cipher and the encoding: each is undone by its inverse.
pub record IsCipher (e : Encrypter) : Type 0 where
  pub opens :
      (nonce plaintext : Bytes) → e.open_sealed nonce (e.seal nonce plaintext) ≡ some plaintext
  pub decodes : (bytes : Bytes) → e.decode (e.encode bytes) ≡ some bytes

decrypt-sealed :
    (e : Encrypter) (nonce plaintext : Bytes)
    → IsCipher e
    → length nonce ≡ e.nonce_size
    → decrypt e (e.encode (nonce ++ e.seal nonce plaintext)) ≡ ok plaintext
unfolding decrypt
decrypt-sealed e nonce plaintext cipher full =
    let sealed = e.seal nonce plaintext in
    let long_enough : ltb (length (nonce ++ sealed)) (length nonce) ≡ false =
      rw (length-append nonce sealed) (ground arith) in
    simp
      (
        cipher.decodes (nonce ++ sealed),
        sym full,
        long_enough,
        take-append nonce sealed,
        drop-append nonce sealed,
        cipher.opens nonce plaintext,
      )
      refl

-- What was encrypted with a full nonce decrypts to the same text.
pub decrypt-encrypt :
    (e : Encrypter) (nonce plaintext ciphertext : Bytes)
    → IsCipher e
    → length nonce ≡ e.nonce_size
    → encrypt e (some nonce) plaintext ≡ ok ciphertext
    → decrypt e ciphertext ≡ ok plaintext
unfolding encrypt
decrypt-encrypt e nonce plaintext ciphertext cipher full h =
    let same : e.encode (nonce ++ e.seal nonce plaintext) ≡ ciphertext = cc in
    subst (λ c. decrypt e c ≡ ok plaintext) same (decrypt-sealed e nonce plaintext cipher full)
