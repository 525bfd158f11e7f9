-- ===== src/Http/SignIn.antt =====
-- What a server makes of the header that a client signs.
use wotpy.Prelude.{
  ℕ, String, ◌≡◌, refl, Bool, true, not, ◌&&◌, some, [], ◌∷◌, ◌++◌, string_eq, text_eq, Text, codes,
  avoids, starts_with, remove_all, split_once, arith,
}
use wotpy.Outcome.{ok}
use wotpy.Dict
use wotpy.Http.Auth.{
  Library, Credentials, basic_prefix, bearer_prefix, sign_basic, sign_bearer, is_text_of,
  authenticate_basic, authenticate_bearer,
}

-- The part stands nowhere in the text.
abbrev pub lacks : Text → Text → Bool
lacks part [] = true
lacks part (c ∷ s) = not (starts_with part (c ∷ s)) && lacks part s

remove_all-lacks : (part s : Text) → lacks part s ≡ true → remove_all part s ≡ s
remove_all-lacks part [] h = refl
remove_all-lacks part (c ∷ s) h = ground (arith, remove_all-lacks part s)

split_once-avoids :
    (sep : ℕ) (s rest : Text)
    → avoids sep s ≡ true
    → split_once sep (s ++ sep ∷ rest) ≡ some (s, rest)
split_once-avoids sep [] rest h = ground arith
split_once-avoids sep (c ∷ s) rest h = ground (arith, split_once-avoids sep s rest)

remove_all_basic :
    (s : Text) → lacks basic_prefix s ≡ true → remove_all basic_prefix (basic_prefix ++ s) ≡ s
remove_all_basic s h = remove_all-lacks basic_prefix s h

remove_all_bearer :
    (s : Text) → lacks bearer_prefix s ≡ true → remove_all bearer_prefix (bearer_prefix ++ s) ≡ s
remove_all_bearer s h = remove_all-lacks bearer_prefix s h

module _ (lib : Library) where
  open lib use {b64encode, b64decode}

  -- A server accepts the header that a client signs with a name and a password exactly when they are
  -- its own: for a name without a colon, where base64 encodes the pair, decodes it again, and its code
  -- does not hold the scheme's name with a space.
  pub authenticate_basic-sign_basic :
      (client server : Credentials) (username password : String) (encoded : Text)
      → Dict.get "username" client ≡ some username
      → Dict.get "password" client ≡ some password
      → avoids b':' (codes username) ≡ true
      → b64encode (codes username ++ b':' ∷ codes password) ≡ ok encoded
      → b64decode encoded ≡ ok (codes username ++ b':' ∷ codes password)
      → lacks basic_prefix encoded ≡ true
      → (sign_basic lib client ≡ ok (basic_prefix ++ encoded))
        × (authenticate_basic lib server (basic_prefix ++ encoded)
            ≡ ok (
                is_text_of (Dict.get "username" server) (codes username)
                && is_text_of (Dict.get "password" server) (codes password)))
  unfolding sign_basic authenticate_basic
  authenticate_basic-sign_basic client server username password encoded hu hp hc he hd hl = (
    rw (hu, hp, he) refl,
    rw
        (
          remove_all_basic encoded hl,
          hd,
          split_once-avoids b':' (codes username) (codes password) hc,
        )
        refl,
  )

  -- A server accepts the header that a client signs with a token exactly when the token is its own, for
  -- a token in which the scheme's name with a space does not stand.
  pub authenticate_bearer-sign_bearer :
      (client server : Credentials) (token : String)
      → Dict.get "token" client ≡ some token
      → lacks bearer_prefix (codes token) ≡ true
      → (sign_bearer lib client ≡ ok (bearer_prefix ++ codes token))
        × (authenticate_bearer lib server (bearer_prefix ++ codes token)
            ≡ ok (is_text_of (Dict.get "token" server) (codes token)))
  unfolding sign_bearer authenticate_bearer
  authenticate_bearer-sign_bearer client server token ht hl =
      (rw ht refl, rw (remove_all_bearer (codes token) hl) refl)
