-- ===== src/Api/Security.antt =====
-- src/cranus/common/security.py on the functions of argon2 and SHA-256, which are arguments, and what
-- the authentication of src/cranus/api/deps.py calls of it.
use cranus.Base.{◌≡◌, Bool, true, Str, ◌++◌, codes}
use cranus.Api.Auth.{Hashing}

-- The libraries' functions; a verification that raises VerifyMismatchError is false.
pub record Hasher : Type 0 where
  pub hash : Str → Str
  pub verify : (stored_hash peppered : Str) → Bool
  pub sha256_hex : Str → Str

module _ (hasher : Hasher) (api_key_pepper : Str) where
  unfoldable hash_api_key : Str → Str
  hash_api_key plaintext = hasher.hash (api_key_pepper ++ plaintext)

  -- `secret` is the random text.
  unfoldable generate_api_key : (secret : Str) → Str × Str
  generate_api_key secret =
      let plaintext = codes "crn" ++ codes "_" ++ secret in (plaintext, hash_api_key plaintext)

  abbrev key_hashing : Hashing
  key_hashing = record {
    lookup_key_for_index = hasher.sha256_hex;
    verify_api_key =
        λ plaintext stored_hash. hasher.verify stored_hash (api_key_pepper ++ plaintext);
  }

  -- A generated key verifies against the hash that is stored with it, if argon2 verifies what it hashed.
  generate_api_key-verify :
      (secret : Str)
      → ((s : Str) → hasher.verify (hasher.hash s) s ≡ true)
      → key_hashing.verify_api_key (generate_api_key secret).0 (generate_api_key secret).1 ≡ true
  unfolding generate_api_key hash_api_key
  generate_api_key-verify secret law = law (api_key_pepper ++ (generate_api_key secret).0)
