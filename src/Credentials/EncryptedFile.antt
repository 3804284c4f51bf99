-- ===== src/Credentials/EncryptedFile.antt =====
-- internal/credentials/encryptedfile/provider.go: credentials from an encrypted file. The file, the
-- environment, the cipher and the decoders are a parameter.
use go_xidized.Prelude.{
  ℕ, Bool, true, false, ◌||◌, Text, codes, is_empty, List, Option, none, some, if◌then◌else◌, leb,
  ◌==◌, length,
}
use go_xidized.Prelude.Strings.Parts.{trim_prefix, drop}
use go_xidized.Types.Secrets.{new_secret}
use go_xidized.Types.Errors.{Result, ok, err, GoError, plain, backup, credential_provider}
use go_xidized.Transport.Output.{take}
use go_xidized.Credentials.Dotenv.{Credentials, look_up, auth_type_of}

pub record StoredRecord : Type 0 where
  pub username : Text
  pub password : Text
  pub private_key_pem : Text
  pub enable_secret : Text

abbrev pub Cache : Type 0
Cache = List (Text × StoredRecord)

pub record EncryptedProvider : Type 0 where
  pub path : Text
  pub key_env : Text
  -- `none` is the nil map
  pub cache : Option Cache

pub record Outside : Type 0 where
  pub getenv : Text → Text
  pub read_file : Text → Result Text
  -- `none` is an error
  pub decode_hex : Text → Option Text
  pub decode_base64 : Text → Option Text
  -- the size of a nonce for a key, or the error of the cipher
  pub new_gcm : Text → Result ℕ
  -- with the key, the nonce and the text
  pub open_gcm : Text → Text → Text → Result Text
  pub unmarshal : Text → Result Cache

unfoldable pub valid_aes_key_len : ℕ → Bool
valid_aes_key_len n = n == 16 || n == 24 || n == 32

-- The first of the readings that has the length of a key.
abbrev or_next : Option Text → Result Text → Result Text
or_next none next = next
or_next (some b) next = if valid_aes_key_len (length b) then ok b else next

unfoldable pub decode_key : Outside → Text → Result Text
unfolding valid_aes_key_len
decode_key o raw =
    if is_empty raw
    then err (plain (codes "encryption key environment variable is empty"))
    else or_next (o.decode_hex raw) (
        or_next (o.decode_base64 raw) (
          or_next (some raw) (
            err
              (plain (codes "encryption key must be 16, 24, or 32 bytes as raw, hex, or base64")))))

infixl 5 ◌then_ok◌
abbrev pub ◌then_ok◌ {ℓ} : {A B : Type ℓ} → Result A → (A → Result B) → Result B
ok a then_ok f = f a
err e then_ok f = err e

unfoldable pub encrypted_load : Outside → EncryptedProvider → Result Cache
unfolding decode_key take drop
encrypted_load o p =
    if is_empty p.path
    then err (plain (codes "encrypted credential file path is required"))
    else (decode_key o (o.getenv p.key_env) then_ok λ key. o.read_file p.path then_ok λ text.
        o.new_gcm key then_ok λ size.
        (if leb (length text) size
          then err (plain (codes "encrypted file is too short"))
          else o.open_gcm key (take size text) (drop size text) then_ok o.unmarshal))

abbrev found : Option StoredRecord → Result Credentials
found none = err (
    backup credential_provider (codes "encrypted-file resolve")
      (plain (codes "credential ref not found")))
found (some r) = ok (record {
  username = r.username;
  password = new_secret r.password;
  private_key_pem = new_secret r.private_key_pem;
  enable_secret = new_secret r.enable_secret;
  source = codes "encrypted-file";
  auth_type = auth_type_of (new_secret r.private_key_pem) (new_secret r.password);
})

unfoldable pub name_of : Text → Text
unfolding trim_prefix
name_of ref = trim_prefix (trim_prefix ref (codes "encfile://")) (codes "encrypted-file://")

abbrev with_cache : EncryptedProvider → Text → Result Cache → Result Credentials × EncryptedProvider
with_cache p ref (err e) = (err (backup credential_provider (codes "encrypted-file load") e), p)
with_cache p ref (ok cache) = (found (look_up (name_of ref) cache), record p { cache = some cache })

abbrev cache_or : Option Cache → Result Cache → Result Cache
cache_or (some c) loaded = ok c
cache_or none loaded = loaded

-- The file is decrypted once. `done`: is the context done?
unfoldable pub encrypted_resolve :
    GoError → Outside → Bool → EncryptedProvider → Text → Result Credentials × EncryptedProvider
unfolding encrypted_load name_of new_secret auth_type_of
encrypted_resolve cancelled o true p ref = (err cancelled, p)
encrypted_resolve cancelled o false p ref = with_cache p ref (cache_or p.cache (encrypted_load o p))
