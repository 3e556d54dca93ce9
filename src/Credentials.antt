-- ===== src/Credentials.antt =====
-- proxy/pkg/zdmproxy/auth.go: the credentials, their token, and the authenticator that answers for
-- the proxy. A Go string is its bytes; bytes.Buffer's ReadBytes and ReadString are written out.
pub mod Choice
pub mod Client
pub mod Tokens
mod Tests
use zdm_proxy.Prelude.{
  ℕ, Bool, true, false, Option, none, some, List, [], ◌∷◌, ◌++◌, ◌-◌, String, string_eq, length,
  take, eqb, bytes_eq, ◌==◌, if◌then◌else◌,
}

pub record AuthCredentials : Type 0 where
  pub auth_id : List ℕ
  pub username : List ℕ
  pub password : List ℕ

-- AuthCredentials{}
abbrev pub no_auth_credentials : AuthCredentials
no_auth_credentials = record { auth_id = []; username = []; password = [] }

unfoldable pub marshal : AuthCredentials → List ℕ
marshal c = c.auth_id ++ (0 ∷ (c.username ++ (0 ∷ c.password)))

-- ReadBytes(0): the bytes up to the delimiter, which is one of them, and those after it.
unfoldable pub read_bytes : List ℕ → Option (List ℕ × List ℕ)
read_bytes [] = none
read_bytes (b ∷ bs) =
    let further = read_bytes bs in
    if eqb b 0
    then some (b ∷ [], bs)
    else elim further [ none ↦ none | some (line, rest) ↦ some (b ∷ line, rest) ]

-- line[:len(line)-1]
abbrev pub without_delimiter : List ℕ → List ℕ
without_delimiter line = take (length line - 1) line

-- The two reads after the first one; `false` for an error.
unfoldable pub read_username_and_password : List ℕ → AuthCredentials → AuthCredentials × Bool
unfolding read_bytes
read_username_and_password source c = elim (read_bytes source) [
  | none ↦ (c, false)
  | some (username, rest) ↦ elim (read_bytes rest) [
    | none ↦ (c, false)
    | some (password, _) ↦ (
      record c { username = without_delimiter username; password = without_delimiter password },
      true,
    )
  ]
]

unfoldable pub unmarshal : List ℕ → AuthCredentials → AuthCredentials × Bool
unfolding read_bytes read_username_and_password
unmarshal token c = elim (read_bytes (token ++ (0 ∷ []))) [
  | none ↦ (c, false)
  | some (auth_id, rest) ↦
      read_username_and_password rest
        (record c { auth_id = if eqb (length auth_id) 1 then [] else without_delimiter auth_id })
]

-- "PLAIN-START" and "PLAIN"
abbrev pub expected_challenge : List ℕ
expected_challenge = 80 ∷ 76 ∷ 65 ∷ 73 ∷ 78 ∷ 45 ∷ 83 ∷ 84 ∷ 65 ∷ 82 ∷ 84 ∷ []

abbrev pub mechanism : List ℕ
mechanism = 80 ∷ 76 ∷ 65 ∷ 73 ∷ 78 ∷ []

abbrev pub dse_authenticator : String
dse_authenticator = "com.datastax.bdp.cassandra.auth.DseAuthenticator"

-- The methods of DsePlainTextAuthenticator, which is its credentials.
unfoldable pub initial_response : String → AuthCredentials → List ℕ
initial_response authenticator c =
    if authenticator == dse_authenticator then mechanism else marshal c

-- A nil challenge differs from the expected one like an empty one; `none` is the error.
unfoldable pub evaluate_challenge : List ℕ → AuthCredentials → Option (List ℕ)
evaluate_challenge challenge c = if challenge == expected_challenge then some (marshal c) else none

pub data ParsedToken : Type 0 where
  without_credentials not_unmarshaled : ParsedToken
  with_credentials : AuthCredentials → ParsedToken

-- `none` is a nil token.
unfoldable pub parse_credentials_from_request : Option (List ℕ) → ParsedToken
unfolding unmarshal
parse_credentials_from_request none = without_credentials
parse_credentials_from_request (some token) =
    let (c, unmarshaled) = unmarshal token no_auth_credentials in
    if token == mechanism
    then without_credentials
    else if unmarshaled
    then with_credentials c
    else not_unmarshaled
